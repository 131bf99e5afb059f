-- ===== src/Control/Registry/Restoring.antt =====
-- What `Restore` of internal/control/registered.go launches.
use mathlib.Core.Path.{subst}
use slipway.Common.{
  ℕ, ◌+◌, Text, ◌≡◌, ◌≢◌, refl, sym, ap, ◌∙◌, true, false, ◌||◌, some, [], ◌∷◌, Dict, get,
  get-put_self, get-put_ne, IsMap, All, All_mono, All_both, HasEntry, Bool-cases, inl, inr,
  filter_where,
}
use slipway.Control.Manager.Types.{RuntimeInstance, is_live, Manager}
use slipway.Control.Registry.Registered.{
  is_pending, revived, registered, relaunch, register_runtime, enter,
}

-- What a restore leaves of an instance, and whether it is active.
pub record IsRevived (r q : RuntimeInstance) : Type 0 where
  pub same_id : q.view.id ≡ r.view.id
  pub same_name : q.view.name ≡ r.view.name
  pub same_database : q.view.database_path ≡ r.view.database_path
  pub same_desired : q.view.desired_state ≡ r.view.desired_state
  pub same_identity : q.config_identity ≡ r.config_identity
  pub same_config : q.config ≡ r.config
  pub live : is_live q ≡ (is_pending (r.view.id, r) || is_live r)

abbrev pub IsKeyed : Dict RuntimeInstance → Type 0
IsKeyed es = All (λ e. e.1.view.id ≡ e.0) es

module _ (clock : ℕ → ℕ) where
  abbrev relaunch_one : ℕ → RuntimeInstance → Manager → Manager
  relaunch_one i r m = register_runtime (revived (clock i) r.view) r.config_identity r.config true m

  one_keeps :
      (k : Text) (i : ℕ) (r : RuntimeInstance) (m : Manager)
      → r.view.id ≢ k
      → get k (relaunch_one i r m).instances ≡ get k m.instances
  unfolding register_runtime enter
  one_keeps k i r m ne =
      get-put_ne r.view.id k
        (registered m (revived (clock i) r.view) r.config_identity r.config true) m.instances ne

  one_revives :
      (i : ℕ) (r : RuntimeInstance) (m : Manager)
      → is_pending (r.view.id, r) ≡ true
      → HasEntry (IsRevived r) r.view.id (relaunch_one i r m).instances
  unfolding register_runtime enter
  one_revives i r m pending =
      let q = registered m (revived (clock i) r.view) r.config_identity r.config true in
      (
        q,
        get-put_self r.view.id q m.instances,
        record {
          same_id = refl;
          same_name = refl;
          same_database = refl;
          same_desired = refl;
          same_identity = refl;
          same_config = refl;
          live = rw pending refl;
        },
      )

  abbrev pub resumes : ℕ → Dict RuntimeInstance → Manager → Manager
  resumes i es m = relaunch clock i (filter_where is_pending es) m

  resumes_next :
      (i : ℕ) (k : Text) (r : RuntimeInstance) (es : Dict RuntimeInstance) (m : Manager)
      → is_pending (k, r) ≡ true
      → resumes i ((k, r) ∷ es) m ≡ resumes (i + 1) es (relaunch_one i r m)
  unfolding filter_where relaunch
  resumes_next i k r es m h = rw (h, filter_where) refl

  resumes_skips :
      (i : ℕ) (k : Text) (r : RuntimeInstance) (es : Dict RuntimeInstance) (m : Manager)
      → is_pending (k, r) ≡ false
      → resumes i ((k, r) ∷ es) m ≡ resumes i es m
  unfolding filter_where
  resumes_skips i k r es m h = rw (h, filter_where) refl

  -- Instances of other ids are left alone.
  pub resumes_keeps :
      (k : Text) (i : ℕ) (es : Dict RuntimeInstance) (m : Manager)
      → IsKeyed es
      → All (λ e. k ≢ e.0) es
      → get k (resumes i es m).instances ≡ get k m.instances
  unfolding filter_where relaunch
  resumes_keeps k i [] m keyed ne = refl
  resumes_keeps k i ((j, r) ∷ es) m keyed ne = elim (Bool-cases (is_pending (j, r))) [
    | inl e ↦ rw (resumes_next i j r es m e) (
        resumes_keeps k (i + 1) es (relaunch_one i r m) keyed.1 ne.1
        ∙ one_keeps k i r m (λ same. ne.0 (sym same ∙ keyed.0)))
    | inr e ↦ rw (resumes_skips i j r es m e) (resumes_keeps k i es m keyed.1 ne.1)
  ]

  one_keeps_all :
      (i : ℕ) (j : Text) (r : RuntimeInstance) (es : Dict RuntimeInstance) (m : Manager)
      → r.view.id ≡ j
      → All (λ e. j ≢ e.0) es
      → All (λ e. get e.0 m.instances ≡ some e.1) es
      → All (λ e. get e.0 (relaunch_one i r m).instances ≡ some e.1) es
  one_keeps_all i j r es m keyed ne at =
      All_mono {A = Text × RuntimeInstance} (λ e. (j ≢ e.0) × (get e.0 m.instances ≡ some e.1))
        (λ e. get e.0 (relaunch_one i r m).instances ≡ some e.1)
        (λ e h. one_keeps e.0 i r m (λ same. h.0 (sym keyed ∙ same)) ∙ h.1) es
        (All_both {A = Text × RuntimeInstance} (λ e. j ≢ e.0) (λ e. get e.0 m.instances ≡ some e.1)
          es ne at)

  left_as_is : (r : RuntimeInstance) → is_pending (r.view.id, r) ≡ false → IsRevived r r
  left_as_is r e = record {
    same_id = refl;
    same_name = refl;
    same_database = refl;
    same_desired = refl;
    same_identity = refl;
    same_config = refl;
    live = rw e refl;
  }

  abbrev pub AreRevived : Dict RuntimeInstance → Manager → Type 0
  AreRevived es m' = All (λ e. HasEntry (IsRevived e.1) e.0 m'.instances) es

  -- Every instance is launched exactly where it is pending.
  pub resumes_reaches :
      (i : ℕ) (es : Dict RuntimeInstance) (m : Manager)
      → IsKeyed es
      → IsMap es
      → All (λ e. get e.0 m.instances ≡ some e.1) es
      → All (λ e. HasEntry (IsRevived e.1) e.0 (resumes i es m).instances) es
  resumes_reaches i [] m keyed unique at = tt
  resumes_reaches i ((j, r) ∷ es) m keyed unique at = elim (Bool-cases (is_pending (j, r))) [
    | inl e ↦
        let m' = relaunch_one i r m in
        let (q, found, revived_as) = one_revives i r m e in
        subst (AreRevived ((j, r) ∷ es)) (sym (resumes_next i j r es m e)) (
          (
            q,
            resumes_keeps j (i + 1) es m' keyed.1 unique.0
                ∙ ap (λ k. get k m'.instances) (sym keyed.0)
                ∙ found,
            revived_as,
          ),
          resumes_reaches (i + 1) es m' keyed.1 unique.1
              (one_keeps_all i j r es m keyed.0 unique.0 at.1),
        )
    | inr e ↦ subst (AreRevived ((j, r) ∷ es)) (sym (resumes_skips i j r es m e)) (
      (r, resumes_keeps j i es m keyed.1 unique.0 ∙ at.0, left_as_is r e),
      resumes_reaches i es m keyed.1 unique.1 at.1,
    )
  ]
