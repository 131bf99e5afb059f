-- ===== src/Control/Manager/Invariant/Launching.antt =====
-- A new instance with a fresh id and name, whose configuration and database nobody holds, leaves the
-- maps of the supervisor in agreement.
use slipway.Common.{
  Text, ◌≡◌, ◌≢◌, sym, ap, ◌∙◌, true, none, some, Dict, get, put, get-put_self, get-put_ne,
  get-put-eq-some, inl, inr, put_all, put-IsMap, HasEntry,
}
use slipway.Control.Manager.Types.{RuntimeInstance, is_live}
use slipway.Control.Manager.Invariant.Defs.{AreSound}
use slipway.Control.Manager.Invariant.Changes.{absent}
use slipway.Control.Manager.Invariant.Endings.{put_ne-HasEntry}

-- What a start made sure of before it enters an instance.
pub record IsFresh (instances : Dict RuntimeInstance) (names configs databases : Dict Text)
    (k : Text) (r : RuntimeInstance) : Type 0 where
  pub new_id : get k instances ≡ none
  pub id_no_name : get k names ≡ none
  pub new_name : get r.view.name names ≡ none
  pub name_no_id : get r.view.name instances ≡ none
  pub name_ne_id : r.view.name ≢ k
  pub has_id : r.view.id ≡ k
  pub live : is_live r ≡ true
  pub free_config : get r.config_identity configs ≡ none
  pub free_database : get r.view.database_path databases ≡ none

module _ {instances : Dict RuntimeInstance} {names configs databases : Dict Text} (k : Text)
    (r : RuntimeInstance) (f : IsFresh instances names configs databases k r)
    (s : AreSound instances names configs databases) where
  -- Nothing was known of the new id.
  elsewhere {κ} :
      (P : RuntimeInstance → Type κ) (j : Text)
      → HasEntry P j instances
      → HasEntry P j (put k r instances)
  elsewhere P j (q, h, p) =
      put_ne-HasEntry P k j r instances (λ e. absent k j instances h f.new_id (sym e)) (q, h, p)

  pub launch-AreSound :
      AreSound
        (put k r instances)
        (put r.view.name k names)
        (put r.config_identity k configs)
        (put r.view.database_path k databases)
  launch-AreSound = record {
    unique = put-IsMap k r instances s.unique;
    keyed = put_all (λ j q. q.view.id ≡ j) k r instances f.has_id (λ j q ne h. s.keyed j q h);
    named =
        put_all (λ j q. get q.view.name (put r.view.name k names) ≡ some j) k r instances
          (get-put_self r.view.name k names)
          λ j q ne h.
            let known = s.named j q h in
            get-put_ne r.view.name q.view.name k names
              (λ e. absent r.view.name q.view.name names known f.new_name (sym e))
            ∙ known;
    owned = λ n j h. elim (get-put-eq-some r.view.name n k names h) [
      | inl (e, own) ↦
          (r, ap (λ i. get i (put k r instances)) (sym own) ∙ get-put_self k r instances, e)
      | inr (ne, h') ↦ elsewhere (λ q. q.view.name ≡ n) j (s.owned n j h')
    ];
    apart = λ n j h. elim (get-put-eq-some r.view.name n k names h) [
      | inl (e, own) ↦
          ap (λ i. get i (put k r instances)) (sym e)
          ∙ get-put_ne k r.view.name r instances (λ same. f.name_ne_id (sym same))
          ∙ f.name_no_id
      | inr (ne, h') ↦
          get-put_ne k n r instances (λ e. absent k n names h' f.id_no_name (sym e))
          ∙ s.apart n j h'
    ];
    holds_config =
        put_all
          (λ j q.
            is_live q ≡ true → get q.config_identity (put r.config_identity k configs) ≡ some j)
          k r instances (λ active. get-put_self r.config_identity k configs)
          λ j q ne h active.
            let known = s.holds_config j q h active in
            get-put_ne r.config_identity q.config_identity k configs
              (λ e. absent r.config_identity q.config_identity configs known f.free_config (sym e))
            ∙ known;
    holds_database =
        put_all
          (λ j q.
            is_live q ≡ true
            → get q.view.database_path (put r.view.database_path k databases) ≡ some j)
          k r instances (λ active. get-put_self r.view.database_path k databases)
          λ j q ne h active.
            let known = s.holds_database j q h active in
            get-put_ne r.view.database_path q.view.database_path k databases (λ e.
              absent r.view.database_path q.view.database_path databases known f.free_database
                (sym e))
            ∙ known;
    config_held = λ p j h. elim (get-put-eq-some r.config_identity p k configs h) [
      | inl (e, own) ↦ (
        r,
        ap (λ i. get i (put k r instances)) (sym own) ∙ get-put_self k r instances,
        (f.live, e),
      )
      | inr (ne, h') ↦
          elsewhere (λ q. (is_live q ≡ true) × (q.config_identity ≡ p)) j (s.config_held p j h')
    ];
    database_held = λ p j h. elim (get-put-eq-some r.view.database_path p k databases h) [
      | inl (e, own) ↦ (
        r,
        ap (λ i. get i (put k r instances)) (sym own) ∙ get-put_self k r instances,
        (f.live, e),
      )
      | inr (ne, h') ↦
          elsewhere (λ q. (is_live q ≡ true) × (q.view.database_path ≡ p)) j
            (s.database_held p j h')
    ];
  }
