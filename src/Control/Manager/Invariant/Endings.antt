-- ===== src/Control/Manager/Invariant/Endings.antt =====
-- An instance that ends gives back its configuration and its database, one that is forgotten its
-- name: what the maps of the supervisor say still agrees.
use slipway.Common.{
  Text, text_eq, text_eq_iff, ◌≡◌, ◌≢◌, sym, ap, ◌∙◌, true, false, none, some, Option-cases, Dict,
  get, put, delete, get-put_ne, get-delete-eq-some, get-delete_ne, get-delete, Bool-cases, inl, inr,
  put_all, put-HasEntry, put-IsMap, delete-IsMap, text_ne, HasEntry, refl,
}
use slipway.Control.Manager.Types.{RuntimeInstance, is_live}
use slipway.Control.Manager.Lifecycle.{release}
use slipway.Control.Manager.Invariant.Defs.{AreSound, IsSameInstance}
use slipway.Control.Manager.Invariant.Changes.{absent, agree, Text-cases}

module _ (key id : Text) (d : Dict Text) where
  release-other : (owner : Text) → get key d ≡ some owner → owner ≢ id → release key id d ≡ d
  unfolding release
  release-other owner h ne = rw (h, release) (rw (text_ne owner id ne) refl)

  pub release_self : get key d ≡ some id → release key id d ≡ delete key d
  unfolding release
  release_self h = rw (h, release) (rw ((text_eq_iff id id).1 refl) refl)

  release-absent : get key d ≡ none → release key id d ≡ d
  unfolding release
  release-absent h = rw (h, release) refl

  -- What is left of a map from which an owner gave back a key.
  pub release-eq-some :
      (p w : Text) → get p (release key id d) ≡ some w → (get p d ≡ some w) × (key ≡ p → w ≢ id)
  release-eq-some p w h = elim (Option-cases (get key d)) [
    | inl gone ↦
        let h' : get p d ≡ some w = rw (release-absent gone) at h in
        (h', λ e same. absent key p d h' gone (sym e))
    | inr (owner, found) ↦ elim (Text-cases owner id) [
      | inl e ↦
          let (ne, h') = get-delete-eq-some key p d (rw (release_self (found ∙ ap some e)) at h) in
          (h', λ same other. ne same)
      | inr ne ↦
          let h' : get p d ≡ some w = rw (release-other owner found ne) at h in
          (h', λ same other. ne (sym (agree key p d found h' (sym same)) ∙ other))
    ]
  ]

  -- No other owner loses a key.
  pub release_keeps : (p w : Text) → get p d ≡ some w → w ≢ id → get p (release key id d) ≡ some w
  release_keeps p w h ne = elim (Option-cases (get key d)) [
    | inl gone ↦ rw (release-absent gone) h
    | inr (owner, found) ↦ elim (Text-cases owner id) [
      | inr other ↦ rw (release-other owner found other) h
      | inl e ↦
          rw (release_self (found ∙ ap some e))
            (get-delete_ne key p d (λ same. ne (agree key p d found h (sym same) ∙ e)) ∙ h)
    ]
  ]

delete-none : (k n : Text) (d : Dict RuntimeInstance) → get n d ≡ none → get n (delete k d) ≡ none
delete-none k n d h = elim (Bool-cases (text_eq k n)) [
  | inl e ↦ rw (get-delete k n d, e) refl
  | inr e ↦ rw (get-delete k n d, e) h
]

delete-HasEntry {κ} :
    (P : RuntimeInstance → Type κ) (k j : Text) (d : Dict RuntimeInstance)
    → k ≢ j
    → HasEntry P j d
    → HasEntry P j (delete k d)
delete-HasEntry P k j d ne (q, h, p) = (q, get-delete_ne k j d ne ∙ h, p)

pub put_ne-HasEntry {κ} :
    (P : RuntimeInstance → Type κ) (k j : Text) (r : RuntimeInstance) (d : Dict RuntimeInstance)
    → k ≢ j
    → HasEntry P j d
    → HasEntry P j (put k r d)
put_ne-HasEntry P k j r d ne (q, h, p) = (q, get-put_ne k j r d ne ∙ h, p)

-- An active instance is none that has ended.
pub ended_elsewhere :
    (k : Text) (r : RuntimeInstance) (d : Dict RuntimeInstance) {j : Text} {q : RuntimeInstance}
    → get k d ≡ some r
    → is_live r ≡ false
    → get j d ≡ some q
    → is_live q ≡ true
    → k ≢ j
ended_elsewhere k r d {j} {q} at over found live e =
    let was : q ≡ r = agree k j d at found (sym e) in
    let same : is_live q ≡ is_live r = ap (λ (x : RuntimeInstance). is_live x) was in cc

module _ {instances : Dict RuntimeInstance} {names configs databases : Dict Text}
    (s : AreSound instances names configs databases) (k : Text) (r : RuntimeInstance)
    (at : get k instances ≡ some r) where
  -- An instance that has ended is forgotten.
  pub forget-AreSound :
      is_live r ≡ false
      → AreSound (delete k instances) (release r.view.name k names) configs databases
  forget-AreSound over = record {
    unique = delete-IsMap k instances s.unique;
    keyed = λ j q h. s.keyed j q (get-delete-eq-some k j instances h).1;
    named = λ j q h.
        let (ne, h') = get-delete-eq-some k j instances h in
        release_keeps r.view.name k names q.view.name j (s.named j q h') (λ e. ne (sym e));
    owned = λ n j h.
        let (h', taken) = release-eq-some r.view.name k names n j h in
        let (q, found, name) = s.owned n j h' in
        delete-HasEntry (λ q. q.view.name ≡ n) k j instances
          (λ e.
            let was : r ≡ q = sym (agree k j instances at found (sym e)) in
            taken (ap (λ (x : RuntimeInstance). x.view.name) was ∙ name) (sym e))
          (q, found, name);
    apart = λ n j h.
        delete-none k n instances (s.apart n j (release-eq-some r.view.name k names n j h).0);
    holds_config = λ j q h. s.holds_config j q (get-delete-eq-some k j instances h).1;
    holds_database = λ j q h. s.holds_database j q (get-delete-eq-some k j instances h).1;
    config_held = λ p j h.
        let (q, found, held) = s.config_held p j h in
        delete-HasEntry (λ q. (is_live q ≡ true) × (q.config_identity ≡ p)) k j instances
          (ended_elsewhere k r instances at over found held.0) (q, found, held);
    database_held = λ p j h.
        let (q, found, held) = s.database_held p j h in
        delete-HasEntry (λ q. (is_live q ≡ true) × (q.view.database_path ≡ p)) k j instances
          (ended_elsewhere k r instances at over found held.0) (q, found, held);
  }

  -- An active instance ends: what it held is given back, unless another owns it.
  pub end-AreSound :
      (r' : RuntimeInstance)
      → IsSameInstance r r'
      → is_live r' ≡ false
      → AreSound
          (put k r' instances)
          names
          (release r.config_identity k configs)
          (release r.view.database_path k databases)
  end-AreSound r' same over = record {
    unique = put-IsMap k r' instances s.unique;
    keyed =
        put_all (λ j q. q.view.id ≡ j) k r' instances (same.same_id ∙ s.keyed k r at)
          (λ j q ne h. s.keyed j q h);
    named =
        put_all (λ j q. get q.view.name names ≡ some j) k r' instances
          (ap (λ n. get n names) same.same_name ∙ s.named k r at) (λ j q ne h. s.named j q h);
    owned = λ n j h.
        put-HasEntry (λ q. q.view.name ≡ n) k j r r' instances at (λ e. same.same_name ∙ e)
          (s.owned n j h);
    apart = λ n j h.
        get-put_ne k n r' instances (absent n k instances at (s.apart n j h)) ∙ s.apart n j h;
    holds_config =
        put_all
          (λ j q.
            is_live q ≡ true → get q.config_identity (release r.config_identity k configs) ≡ some j)
          k r' instances (λ active. absurd (cc (over, active)))
          λ j q ne h active.
            release_keeps r.config_identity k configs q.config_identity j
              (s.holds_config j q h active) (λ e. ne (sym e));
    holds_database =
        put_all
          (λ j q.
            is_live q ≡ true
            → get q.view.database_path (release r.view.database_path k databases) ≡ some j)
          k r' instances (λ active. absurd (cc (over, active)))
          λ j q ne h active.
            release_keeps r.view.database_path k databases q.view.database_path j
              (s.holds_database j q h active) (λ e. ne (sym e));
    config_held = λ p j h.
        let (h', taken) = release-eq-some r.config_identity k configs p j h in
        let (q, found, held) = s.config_held p j h' in
        put_ne-HasEntry (λ q. (is_live q ≡ true) × (q.config_identity ≡ p)) k j r' instances
          (λ e.
            let was : r ≡ q = sym (agree k j instances at found (sym e)) in
            taken (ap (λ (x : RuntimeInstance). x.config_identity) was ∙ held.1) (sym e))
          (q, found, held);
    database_held = λ p j h.
        let (h', taken) = release-eq-some r.view.database_path k databases p j h in
        let (q, found, held) = s.database_held p j h' in
        put_ne-HasEntry (λ q. (is_live q ≡ true) × (q.view.database_path ≡ p)) k j r' instances
          (λ e.
            let was : r ≡ q = sym (agree k j instances at found (sym e)) in
            taken (ap (λ (x : RuntimeInstance). x.view.database_path) was ∙ held.1) (sym e))
          (q, found, held);
  }
