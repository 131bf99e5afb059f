-- ===== src/Control/Registry/Relaunching.antt =====
-- An instance that has ended is launched again (`registerRuntime` of internal/control/registry.go),
-- or one is entered that has: the maps of the supervisor still agree.
use slipway.Common.{
  Text, ◌≡◌, ◌≢◌, refl, sym, ap, ◌∙◌, true, false, none, some, Dict, get, put, get-put_self,
  get-put_ne, get-put-eq-some, inl, inr, put_all, put-HasEntry, put-IsMap, HasEntry,
}
use slipway.Control.Manager.Types.{RuntimeInstance, is_live}
use slipway.Control.Manager.Invariant.Defs.{AreSound, IsSameInstance}
use slipway.Control.Manager.Invariant.Changes.{absent, still_apart}
use slipway.Control.Manager.Invariant.Endings.{put_ne-HasEntry, ended_elsewhere}

module _ {instances : Dict RuntimeInstance} {names configs databases : Dict Text}
    (s : AreSound instances names configs databases) (k : Text) (r r' : RuntimeInstance)
    (at : get k instances ≡ some r) (same : IsSameInstance r r') (over : is_live r ≡ false)
    (live : is_live r' ≡ true) (free_config : get r'.config_identity configs ≡ none)
    (free_database : get r'.view.database_path databases ≡ none) where
  -- What an active instance holds is held by another than the one that had ended.
  still_held :
      (P : RuntimeInstance → Type 0) (j : Text)
      → HasEntry (λ q. (is_live q ≡ true) × P q) j instances
      → HasEntry (λ q. (is_live q ≡ true) × P q) j (put k r' instances)
  still_held P j (q, found, held) =
      put_ne-HasEntry (λ q. (is_live q ≡ true) × P q) k j r' instances
        (ended_elsewhere k r instances at over found held.0) (q, found, held)

  pub relaunch-AreSound :
      AreSound
        (put k r' instances)
        names
        (put r'.config_identity k configs)
        (put r'.view.database_path k databases)
  relaunch-AreSound = record {
    unique = put-IsMap k r' instances s.unique;
    keyed =
        put_all (λ j q. q.view.id ≡ j) k r' instances (same.same_id ∙ s.keyed k r at)
          (λ j q ne h. s.keyed j q h);
    named =
        put_all (λ j q. get q.view.name names ≡ some j) k r' instances
          (ap (λ n. get n names) same.same_name ∙ s.named k r at) (λ j q ne h. s.named j q h);
    owned = λ n j h.
        put-HasEntry (λ q. q.view.name ≡ n) k j r r' instances at (λ e. same.same_name ∙ e)
          (s.owned n j h);
    apart = still_apart s k r r' at same;
    holds_config =
        put_all
          (λ j q.
            is_live q ≡ true → get q.config_identity (put r'.config_identity k configs) ≡ some j)
          k r' instances (λ active. get-put_self r'.config_identity k configs)
          λ j q ne h active.
            let known = s.holds_config j q h active in
            get-put_ne r'.config_identity q.config_identity k configs
              (λ e. absent r'.config_identity q.config_identity configs known free_config (sym e))
            ∙ known;
    holds_database =
        put_all
          (λ j q.
            is_live q ≡ true
            → get q.view.database_path (put r'.view.database_path k databases) ≡ some j)
          k r' instances (λ active. get-put_self r'.view.database_path k databases)
          λ j q ne h active.
            let known = s.holds_database j q h active in
            get-put_ne r'.view.database_path q.view.database_path k databases (λ e.
              absent r'.view.database_path q.view.database_path databases known free_database
                (sym e))
            ∙ known;
    config_held = λ p j h. elim (get-put-eq-some r'.config_identity p k configs h) [
      | inl (e, own) ↦ (
        r',
        ap (λ i. get i (put k r' instances)) (sym own) ∙ get-put_self k r' instances,
        (live, e),
      )
      | inr (ne, h') ↦ still_held (λ q. q.config_identity ≡ p) j (s.config_held p j h')
    ];
    database_held = λ p j h. elim (get-put-eq-some r'.view.database_path p k databases h) [
      | inl (e, own) ↦ (
        r',
        ap (λ i. get i (put k r' instances)) (sym own) ∙ get-put_self k r' instances,
        (live, e),
      )
      | inr (ne, h') ↦ still_held (λ q. q.view.database_path ≡ p) j (s.database_held p j h')
    ];
  }

-- An id and a name that nothing has, and that differ.
pub record IsNew (instances : Dict RuntimeInstance) (names : Dict Text) (id name : Text)
    : Type 0 where
  pub new_id : get id instances ≡ none
  pub id_no_name : get id names ≡ none
  pub new_name : get name names ≡ none
  pub name_no_id : get name instances ≡ none
  pub name_ne_id : name ≢ id

module _ {instances : Dict RuntimeInstance} {names configs databases : Dict Text}
    (s : AreSound instances names configs databases) (r : RuntimeInstance)
    (f : IsNew instances names r.view.id r.view.name) (over : is_live r ≡ false) where
  elsewhere {κ} :
      (P : RuntimeInstance → Type κ) (j : Text)
      → HasEntry P j instances
      → HasEntry P j (put r.view.id r instances)
  elsewhere P j (q, h, p) =
      put_ne-HasEntry P r.view.id j r instances
        (λ e. absent r.view.id j instances h f.new_id (sym e)) (q, h, p)

  pub enter_ended-AreSound :
      AreSound (put r.view.id r instances) (put r.view.name r.view.id names) configs databases
  enter_ended-AreSound = record {
    unique = put-IsMap r.view.id r instances s.unique;
    keyed = put_all (λ j q. q.view.id ≡ j) r.view.id r instances refl (λ j q ne h. s.keyed j q h);
    named =
        put_all (λ j q. get q.view.name (put r.view.name r.view.id names) ≡ some j) r.view.id r
          instances (get-put_self r.view.name r.view.id names)
          λ j q ne h.
            let known = s.named j q h in
            get-put_ne r.view.name q.view.name r.view.id names
              (λ e. absent r.view.name q.view.name names known f.new_name (sym e))
            ∙ known;
    owned = λ n j h. elim (get-put-eq-some r.view.name n r.view.id names h) [
      | inl (e, own) ↦ (
        r,
        ap (λ i. get i (put r.view.id r instances)) (sym own) ∙ get-put_self r.view.id r instances,
        e,
      )
      | inr (ne, h') ↦ elsewhere (λ q. q.view.name ≡ n) j (s.owned n j h')
    ];
    apart = λ n j h. elim (get-put-eq-some r.view.name n r.view.id names h) [
      | inl (e, own) ↦
          ap (λ i. get i (put r.view.id r instances)) (sym e)
          ∙ get-put_ne r.view.id r.view.name r instances (λ same. f.name_ne_id (sym same))
          ∙ f.name_no_id
      | inr (ne, h') ↦
          get-put_ne r.view.id n r instances (λ e. absent r.view.id n names h' f.id_no_name (sym e))
          ∙ s.apart n j h'
    ];
    holds_config =
        put_all (λ j q. is_live q ≡ true → get q.config_identity configs ≡ some j) r.view.id r
          instances (λ active. absurd (cc (over, active))) (λ j q ne h. s.holds_config j q h);
    holds_database =
        put_all (λ j q. is_live q ≡ true → get q.view.database_path databases ≡ some j) r.view.id r
          instances (λ active. absurd (cc (over, active))) (λ j q ne h. s.holds_database j q h);
    config_held = λ p j h.
        elsewhere (λ q. (is_live q ≡ true) × (q.config_identity ≡ p)) j (s.config_held p j h);
    database_held = λ p j h.
        elsewhere (λ q. (is_live q ≡ true) × (q.view.database_path ≡ p)) j (s.database_held p j h);
  }
