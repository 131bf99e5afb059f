-- ===== src/Control/Manager/Invariant/Changes.antt =====
-- The changes that the operations of the supervisor are made of keep its maps in agreement.
use slipway.Common.{
  Text, text_eq, text_eq_iff, ◌≡◌, ◌≢◌, sym, ap, ◌∙◌, true, none, some, Dict, get, put, get-put_ne,
  Bool-cases, inl, inr, ◌⊎◌, put_all, put-HasEntry, put-IsMap,
}
use slipway.Control.Manager.Types.{RuntimeInstance, is_live}
use slipway.Control.Manager.Invariant.Defs.{AreSound, IsSameInstance}

pub Text-cases : (s t : Text) → (s ≡ t) ⊎ (s ≢ t)
Text-cases s t = elim (Bool-cases (text_eq s t)) [
  | inl e ↦ inl ((text_eq_iff s t).0 e)
  | inr e ↦ inr (λ same. cc (e, (text_eq_iff s t).1 same))
]

pub absent {ℓ} :
    {V : Type ℓ} (n k : Text) (d : Dict V) {v : V} → get k d ≡ some v → get n d ≡ none → k ≢ n
absent n k d at gone e = let found = sym at ∙ ap (λ i. get i d) e ∙ gone in cc

-- Two lookups of one key agree.
pub agree {ℓ} :
    {V : Type ℓ} (k j : Text) (d : Dict V) {v w : V}
    → get k d ≡ some v
    → get j d ≡ some w
    → j ≡ k
    → w ≡ v
agree k j d {v} {w} h g e = let found : some w ≡ some v = sym g ∙ ap (λ i. get i d) e ∙ h in cc

module _ {instances : Dict RuntimeInstance} {names configs databases : Dict Text}
    (s : AreSound instances names configs databases) (k : Text) (r r' : RuntimeInstance)
    (at : get k instances ≡ some r) (same : IsSameInstance r r') where
  at_name : get r'.view.name names ≡ some k
  at_name = ap (λ n. get n names) same.same_name ∙ s.named k r at

  pub still_apart : (n j : Text) → get n names ≡ some j → get n (put k r' instances) ≡ none
  still_apart n j h =
      get-put_ne k n r' instances (absent n k instances at (s.apart n j h)) ∙ s.apart n j h

  -- An instance changes its state and stays active or ended.
  pub change-AreSound :
      is_live r' ≡ is_live r → AreSound (put k r' instances) names configs databases
  change-AreSound live = record {
    unique = put-IsMap k r' instances s.unique;
    keyed =
        put_all (λ j q. q.view.id ≡ j) k r' instances (same.same_id ∙ s.keyed k r at)
          (λ j q ne h. s.keyed j q h);
    named =
        put_all (λ j q. get q.view.name names ≡ some j) k r' instances at_name
          (λ j q ne h. s.named j q h);
    owned = λ n j h.
        put-HasEntry (λ q. q.view.name ≡ n) k j r r' instances at (λ e. same.same_name ∙ e)
          (s.owned n j h);
    apart = still_apart;
    holds_config =
        put_all (λ j q. is_live q ≡ true → get q.config_identity configs ≡ some j) k r' instances
          (λ active.
            ap (λ p. get p configs) same.same_identity ∙ s.holds_config k r at (sym live ∙ active))
          (λ j q ne h. s.holds_config j q h);
    holds_database =
        put_all (λ j q. is_live q ≡ true → get q.view.database_path databases ≡ some j) k r'
          instances
          (λ active.
            ap (λ p. get p databases) same.same_database
            ∙ s.holds_database k r at (sym live ∙ active))
          (λ j q ne h. s.holds_database j q h);
    config_held = λ p j h.
        put-HasEntry (λ q. (is_live q ≡ true) × (q.config_identity ≡ p)) k j r r' instances at
          (λ e. (live ∙ e.0, same.same_identity ∙ e.1)) (s.config_held p j h);
    database_held = λ p j h.
        put-HasEntry (λ q. (is_live q ≡ true) × (q.view.database_path ≡ p)) k j r r' instances at
          (λ e. (live ∙ e.0, same.same_database ∙ e.1)) (s.database_held p j h);
  }
