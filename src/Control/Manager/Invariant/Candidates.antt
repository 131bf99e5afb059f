-- ===== src/Control/Manager/Invariant/Candidates.antt =====
-- The candidates of a start of internal/control/manager.go that passed its checks differ in their
-- configurations and in their databases, and nobody holds any of these.
use slipway.Common.{
  ℕ, codes, ◌∙◌, Text, text_eq, text_eq_iff, ◌≡◌, ◌≢◌, Option, none, some, List, [], ◌∷◌, ◌++◌, All,
  All-append_inv, All_mono, All_both, Pairwise, ok, ◌>>◌, bind_ok, map_err, arith, Dict, get,
  Bool-cases, inl, inr,
}
use slipway.Control.Manager.Types.{KnownQueue, failed_at, shutting_down}
use slipway.Control.Manager.Preflight.{
  Files, Context, inspects, waits, check, refuse, Candidate, ConfigOwner, same_identity,
  load_candidate, load_candidates,
}
use slipway.Control.Manager.Start.{Request, preflight}
use slipway.Control.Manager.Databases.{
  same_path, same_missing, same_existing, validate_databases, validate_active, active_config_owner,
  active_database_owner, assign_identities, known_identity, validate_expected,
}

abbrev HasOther : Text → ConfigOwner → Type 0
HasOther identity o = o.identity ≢ identity

same_identity-ok :
    (os : List ConfigOwner) (requested identity : Text)
    → same_identity os requested identity ≡ ok tt
    → All (HasOther identity) os
unfolding same_identity
same_identity-ok [] requested identity h = tt
same_identity-ok (o ∷ os) requested identity h = elim (Bool-cases (text_eq o.identity identity)) [
  | inl e ↦ absurd (cc (rw e at h))
  | inr e ↦ (
    (λ same. cc (e, (text_eq_iff o.identity identity).1 same)),
    same_identity-ok os requested identity (rw e at h),
  )
]

load_candidate-ok :
    (files : Files) (ctx : Context) (os : List ConfigOwner) (requested : Text) {c : Candidate}
    {o : ConfigOwner}
    → load_candidate files ctx os requested ≡ ok (c, o)
    → (same_identity os requested c.config_identity ≡ ok tt) × (o.identity ≡ c.config_identity)
unfolding load_candidate
load_candidate-ok files ctx os requested h = ground arith

-- Different configurations.
abbrev OtherConfig : Candidate → Candidate → Type 0
OtherConfig c d = c.config_identity ≢ d.config_identity

abbrev OtherDatabase : Candidate → Candidate → Type 0
OtherDatabase c d = c.database_path ≢ d.database_path

load_candidates-OtherConfig :
    (files : Files) (ctx : Context) (os : List ConfigOwner) (paths : List Text)
    (cs : List Candidate)
    → load_candidates files ctx os paths ≡ ok cs
    → All (λ c. All (HasOther c.config_identity) os) cs × Pairwise OtherConfig cs
unfolding load_candidates
load_candidates-OtherConfig files ctx os [] cs h = let e : [] ≡ cs = cc in rw (← e) (tt, tt)
load_candidates-OtherConfig files ctx os (p ∷ ps) cs h =
    let ((c, o), first, h1) = bind_ok (load_candidate files ctx os p) _ h in
    let (rest, later, h2) = bind_ok (load_candidates files ctx (os ++ o ∷ []) ps) _ h1 in
    let (checked, own) = load_candidate-ok files ctx os p first in
    let (others, apart) = load_candidates-OtherConfig files ctx (os ++ o ∷ []) ps rest later in
    let e : c ∷ rest ≡ cs = cc in
    rw (← e) (
      (
        same_identity-ok os p c.config_identity checked,
        All_mono (λ d. All (HasOther d.config_identity) (os ++ o ∷ []))
            (λ d. All (HasOther d.config_identity) os)
            (λ d a. (All-append_inv (HasOther d.config_identity) os (o ∷ []) a).0) rest others,
      ),
      (
        All_mono (λ d. All (HasOther d.config_identity) (os ++ o ∷ [])) (OtherConfig c)
            (λ d a same.
              (All-append_inv (HasOther d.config_identity) os (o ∷ []) a).1.0 (own ∙ same))
            rest others,
        apart,
      ),
    )

same_path-ok :
    (os : List Candidate) (c : Candidate) → same_path os c ≡ ok tt → All (λ o. OtherDatabase o c) os
unfolding same_path
same_path-ok [] c h = tt
same_path-ok (o ∷ os) c h = elim (Bool-cases (text_eq o.database_path c.database_path)) [
  | inl e ↦ absurd (cc (rw e at h))
  | inr e ↦ (
    (λ same. cc (e, (text_eq_iff o.database_path c.database_path).1 same)),
    same_path-ok os c (rw e at h),
  )
]

validate_databases-ok :
    (files : Files) (ctx : Context) (seen : List Candidate) (existing : List (Candidate × Option ℕ))
    (missing : List Candidate) (c : Candidate) (cs : List Candidate)
    → validate_databases files ctx seen existing missing (c ∷ cs) ≡ ok tt
    → (same_path seen c ≡ ok tt)
      × (existing' : List (Candidate × Option ℕ)) × (missing' : List Candidate)
      × (validate_databases files ctx (seen ++ c ∷ []) existing' missing' cs ≡ ok tt)
unfolding validate_databases
validate_databases-ok files ctx seen existing missing c cs h =
    let (u, e0, h0) = bind_ok (check ctx (inspects c.config_path)) _ h in
    let (v, e1, h1) = bind_ok (same_path seen c) _ h0 in
    let (info, e2, h2) =
      bind_ok (map_err (failed_at (codes "inspect database")) (files.stat c.database_path)) _ h1 in
    let r = by_info info h2 in (e1, r.0, r.1, r.2)
  where
    by_info :
        (info : Option ℕ)
        → (elim info [
          | none ↦
              same_missing files missing c
              >> validate_databases files ctx (seen ++ c ∷ []) existing (missing ++ c ∷ []) cs
          | some i ↦
              same_existing existing c (some i)
              >> validate_databases files ctx
                  (seen ++ c ∷ [])
                  (existing ++ (c, some i) ∷ [])
                  missing
                  cs
        ])
          ≡ ok tt
        → (existing' : List (Candidate × Option ℕ)) × (missing' : List Candidate)
          × (validate_databases files ctx (seen ++ c ∷ []) existing' missing' cs ≡ ok tt)
    by_info none g =
        let (w, e, r) = bind_ok (same_missing files missing c) _ g in
        (existing, missing ++ c ∷ [], r)
    by_info (some i) g =
        let (w, e, r) = bind_ok (same_existing existing c (some i)) _ g in
        (existing ++ (c, some i) ∷ [], missing, r)

validate_databases-OtherDatabase :
    (files : Files) (ctx : Context) (seen : List Candidate) (existing : List (Candidate × Option ℕ))
    (missing cs : List Candidate)
    → validate_databases files ctx seen existing missing cs ≡ ok tt
    → All (λ c. All (λ o. OtherDatabase o c) seen) cs × Pairwise OtherDatabase cs
validate_databases-OtherDatabase files ctx seen existing missing [] h = (tt, tt)
validate_databases-OtherDatabase files ctx seen existing missing (c ∷ cs) h =
    let (checked, existing', missing', rest) =
      validate_databases-ok files ctx seen existing missing c cs h in
    let (others, apart) =
      validate_databases-OtherDatabase files ctx (seen ++ c ∷ []) existing' missing' cs rest in
    (
      (
        same_path-ok seen c checked,
        All_mono (λ d. All (λ o. OtherDatabase o d) (seen ++ c ∷ []))
            (λ d. All (λ o. OtherDatabase o d) seen)
            (λ d a. (All-append_inv (λ o. OtherDatabase o d) seen (c ∷ []) a).0) cs others,
      ),
      (
        All_mono (λ d. All (λ o. OtherDatabase o d) (seen ++ c ∷ [])) (OtherDatabase c)
            (λ d a. (All-append_inv (λ o. OtherDatabase o d) seen (c ∷ []) a).1.0) cs others,
        apart,
      ),
    )

-- Nobody holds what a candidate needs.
abbrev pub IsUnheld : Dict Text → Dict Text → Candidate → Type 0
IsUnheld configs databases c =
    (get c.config_identity configs ≡ none) × (get c.database_path databases ≡ none)

active_config_owner-none :
    (files : Files) (ctx : Context) (path : Text) (active : Dict Text)
    → active_config_owner files ctx path active ≡ ok none
    → get path active ≡ none
unfolding active_config_owner
active_config_owner-none files ctx path active h = ground arith

active_database_owner-none :
    (files : Files) (ctx : Context) (path : Text) (active : Dict Text)
    → active_database_owner files ctx path active ≡ ok none
    → get path active ≡ none
unfolding active_database_owner
active_database_owner-none files ctx path active h = ground arith

pub validate_active-head :
    (files : Files) (ctx : Context) (c : Candidate) (cs : List Candidate)
    (configs databases : Dict Text)
    → validate_active files ctx (c ∷ cs) configs databases ≡ ok tt
    → (active_config_owner files ctx c.config_identity configs ≡ ok none)
      × (active_database_owner files ctx c.database_path databases ≡ ok none)
      × (validate_active files ctx cs configs databases ≡ ok tt)
unfolding validate_active
validate_active-head files ctx c cs configs databases h = ground arith

pub validate_active-IsUnheld :
    (files : Files) (ctx : Context) (cs : List Candidate) (configs databases : Dict Text)
    → validate_active files ctx cs configs databases ≡ ok tt
    → All (IsUnheld configs databases) cs
validate_active-IsUnheld files ctx [] configs databases h = tt
validate_active-IsUnheld files ctx (c ∷ cs) configs databases h =
    let (free_config, free_database, rest) =
      validate_active-head files ctx c cs configs databases h in
    (
      (
        active_config_owner-none files ctx c.config_identity configs free_config,
        active_database_owner-none files ctx c.database_path databases free_database,
      ),
      validate_active-IsUnheld files ctx cs configs databases rest,
    )

-- The queue that a candidate belongs to matters to none of this.
module _ (files : Files) (ctx : Context) (qs : List KnownQueue) where
  assign_identities-All {ℓ} :
      (P : Candidate → Type ℓ)
      → ((c : Candidate) (i : Text) → P c → P (record c { queue_identity = i }))
      → (cs ds : List Candidate) → assign_identities files ctx qs cs ≡ ok ds
      → All P cs
      → All P ds
  unfolding assign_identities
  assign_identities-All P stable [] ds h a = let e : [] ≡ ds = cc in rw (← e) tt
  assign_identities-All P stable (c ∷ cs) ds h a =
      let (i, e0, h0) = bind_ok (known_identity files ctx c qs) _ h in
      let (rest, e1, h1) = bind_ok (assign_identities files ctx qs cs) _ h0 in
      let e : record c { queue_identity = i } ∷ rest ≡ ds = cc in
      rw (← e) (stable c i a.0, assign_identities-All P stable cs rest e1 a.1)

  assign_identities-Pairwise {ℓ} :
      (R : Candidate → Candidate → Type ℓ)
      → ((c d : Candidate) (i : Text) → R c d → R (record c { queue_identity = i }) d)
      → ((c d : Candidate) (i : Text) → R c d → R c (record d { queue_identity = i }))
      → (cs ds : List Candidate) → assign_identities files ctx qs cs ≡ ok ds
      → Pairwise R cs
      → Pairwise R ds
  unfolding assign_identities
  assign_identities-Pairwise R left right [] ds h a = let e : [] ≡ ds = cc in rw (← e) tt
  assign_identities-Pairwise R left right (c ∷ cs) ds h a =
      let (i, e0, h0) = bind_ok (known_identity files ctx c qs) _ h in
      let (rest, e1, h1) = bind_ok (assign_identities files ctx qs cs) _ h0 in
      let e : record c { queue_identity = i } ∷ rest ≡ ds = cc in
      rw (← e) (
        assign_identities-All (R (record c { queue_identity = i })) (λ d j p. right _ d j p) cs rest
            e1 (All_mono (R c) (R (record c { queue_identity = i })) (λ d p. left c d i p) cs a.0),
        assign_identities-Pairwise R left right cs rest e1 a.1,
      )

-- Two candidates that can run beside one another.
abbrev pub AreApart : Candidate → Candidate → Type 0
AreApart c d = (c.config_identity ≢ d.config_identity) × (c.database_path ≢ d.database_path)

Pairwise-both :
    (cs : List Candidate)
    → Pairwise OtherConfig cs
    → Pairwise OtherDatabase cs
    → Pairwise AreApart cs
Pairwise-both [] h k = tt
Pairwise-both (c ∷ cs) h k =
    (All_both (OtherConfig c) (OtherDatabase c) cs h.0 k.0, Pairwise-both cs h.1 k.1)

pub preflight-AreApart :
    (q : Request) (known : List KnownQueue) (ds : List Candidate)
    → preflight q known ≡ ok ds
    → Pairwise AreApart ds
unfolding preflight
preflight-AreApart q known ds h =
    let (cs, loads, h0) = bind_ok (load_candidates q.files q.context [] q.paths) _ h in
    let (u, first, h1) = bind_ok (validate_databases q.files q.context [] [] [] cs) _ h0 in
    let (v, waited, h2) = bind_ok (check q.context waits) _ h1 in
    let (y, alive, h2') = bind_ok (refuse q.closed_at_gate shutting_down) _ h2 in
    let (w, second, h3) =
      bind_ok (validate_databases q.files_at_gate q.context [] [] [] cs) _ h2' in
    let (x, expected, h4) =
      bind_ok (validate_expected q.files_at_gate q.context cs q.expected) _ h3 in
    assign_identities-Pairwise q.files_at_gate q.context known AreApart (λ c d i p. p)
      (λ c d i p. p) cs ds h4
      (Pairwise-both cs (load_candidates-OtherConfig q.files q.context [] q.paths cs loads).1
        (validate_databases-OtherDatabase q.files_at_gate q.context [] [] [] cs second).1)
