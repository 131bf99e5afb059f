-- ===== src/Control/Manager/Invariant/Accepting.antt =====
-- What a start of internal/control/manager.go has found out of each path that it was given, and of what
-- is active already.
use slipway.Common.{
  Text, ◌≡◌, sym, true, false, Option, none, some, List, [], ◌∷◌, ◌++◌, All, Result, ok, bind_ok,
  ◌>>=◌, map_err, map_err-eq-ok, ok_injective, arith, ℕ, ◌∙◌, ap, Dict, get, Option-cases,
  Bool-cases, inl, inr, if◌then◌else◌,
}
use slipway.Control.Manager.Types.{KnownQueue, Error, failed_at, shutting_down}
use slipway.Control.Manager.Preflight.{
  Files, Context, compares, waits, check, refuse, same_file, Candidate, ConfigOwner, absolute_path,
  canonical_path, load_candidate, load_candidates,
}
use slipway.Control.Manager.Databases.{
  scan_configs, active_config_owner, scan_databases, active_database_owner, validate_active,
  assign_identities, known_identity, validate_databases, validate_expected,
}
use slipway.Control.Manager.Start.{Request, preflight}
use slipway.Control.Manager.Invariant.Candidates.{validate_active-head}

-- The candidate that a path leads to: its absolute and canonical path, what the loader made of it,
-- the fingerprint of that, and the canonical path of its database.
pub record IsCandidateOf (files : Files) (path : Text) (c : Candidate) : Type 0 where
  pub absolute : absolute_path files path ≡ ok c.config_path
  pub canonical : canonical_path files c.config_path ≡ ok c.config_identity
  pub read : files.load c.config_path ≡ ok (some c.config)
  pub hashed : files.fingerprint c.config ≡ ok c.config_hash
  pub database : files.canonical c.config.database_path ≡ ok c.database_path

-- One candidate for each path, in their order.
pub data AreCandidatesOf (files : Files) : List Text → List Candidate → Type 0 where
  done : AreCandidatesOf files [] []
  next :
      {p : Text} {ps : List Text} {c : Candidate} {cs : List Candidate}
      → IsCandidateOf files p c
      → AreCandidatesOf files ps cs
      → AreCandidatesOf files (p ∷ ps) (c ∷ cs)

module _ (files : Files) (ctx : Context) where
  load_candidate-ok :
      (os : List ConfigOwner) (p : Text) (c : Candidate) (o : ConfigOwner)
      → load_candidate files ctx os p ≡ ok (c, o)
      → (absolute_path files p ≡ ok c.config_path)
        × (canonical_path files c.config_path ≡ ok c.config_identity)
        × (files.load c.config_path ≡ ok (some c.config))
        × (files.fingerprint c.config ≡ ok c.config_hash)
        × (files.canonical c.config.database_path ≡ ok c.database_path)
  unfolding load_candidate
  load_candidate-ok os p c o h = ground arith

  load_candidate-IsCandidateOf :
      (os : List ConfigOwner) (p : Text) (x : Candidate × ConfigOwner)
      → load_candidate files ctx os p ≡ ok x
      → IsCandidateOf files p x.0
  load_candidate-IsCandidateOf os p (c, o) h =
      let (a, i, l, f, d) = load_candidate-ok os p c o h in
      record { absolute = a; canonical = i; read = l; hashed = f; database = d }

  load_candidates-AreCandidatesOf :
      (os : List ConfigOwner) (ps : List Text) (cs : List Candidate)
      → load_candidates files ctx os ps ≡ ok cs
      → AreCandidatesOf files ps cs
  unfolding load_candidates
  load_candidates-AreCandidatesOf os [] cs h =
      let e = ok_injective h in rw (← e) AreCandidatesOf.done
  load_candidates-AreCandidatesOf os (p ∷ ps) cs h =
      let (x, first, h1) = bind_ok (load_candidate files ctx os p) _ h in
      let (rest, later, h2) = bind_ok (load_candidates files ctx (os ++ x.1 ∷ []) ps) _ h1 in
      let e = ok_injective h2 in
      rw (← e) (
        AreCandidatesOf.next (load_candidate-IsCandidateOf os p x first)
          (load_candidates-AreCandidatesOf (os ++ x.1 ∷ []) ps rest later))

  -- No active configuration is the one of a path, under another name or another case.
  abbrev pub IsOtherConfig : Text → Option ℕ → Text × Text → Type 0
  IsOtherConfig path info (active, owner) =
      (files.equal_fold path active ≡ true → files.equivalent path active ≡ ok false)
      × ((i : ℕ)
          → info ≡ some i
          → (other : Option ℕ) × (files.stat active ≡ ok other)
            × (same_file (some i) other ≡ false))

  -- The comparison of names that differ in their case alone.
  folded_none :
      (path active owner : Text) (following : Result Error (Option Text))
      → (if files.equal_fold path active
          then (do
            equal ← map_err (failed_at []) (files.equivalent path active)
            if equal then ok (some owner) else following)
          else following)
        ≡ ok none
      → (files.equal_fold path active ≡ true → files.equivalent path active ≡ ok false)
        × (following ≡ ok none)
  folded_none path active owner following h = elim (Bool-cases (files.equal_fold path active)) [
    | inr e ↦ ((λ f. absurd (cc (e, f))), rw e at h)
    | inl e ↦
        let (equal, asked, h1) =
          bind_ok (map_err (failed_at []) (files.equivalent path active)) _ (rw e at h) in
        elim (Bool-cases equal) [
          | inl q ↦ absurd (cc (rw q at h1))
          | inr q ↦ ((λ f. map_err-eq-ok _ _ asked ∙ ap ok q), rw q at h1)
        ]
  ]

  scan_configs-none :
      (path : Text) (info : Option ℕ) (active : Dict Text)
      → scan_configs files ctx path info active ≡ ok none
      → All (IsOtherConfig path info) active
  unfolding scan_configs
  scan_configs-none path info [] h = tt
  scan_configs-none path none ((active, owner) ∷ rest) h =
      let (u, checked, h0) = bind_ok (check ctx (compares active)) _ h in
      let (folded, h1) = folded_none path active owner _ h0 in
      ((folded, (λ i none_is. absurd (cc))), scan_configs-none path none rest h1)
  scan_configs-none path (some i) ((active, owner) ∷ rest) h =
      let (u, checked, h0) = bind_ok (check ctx (compares active)) _ h in
      let (other, stat, h1) = bind_ok (map_err (failed_at []) (files.stat active)) _ h0 in
      elim (Bool-cases (same_file (some i) other)) [
        | inl e ↦ absurd (cc (rw e at h1))
        | inr e ↦
            let (folded, h2) = folded_none path active owner _ (rw e at h1) in
            (
              (
                folded,
                λ j same.
                    (other, map_err-eq-ok _ _ stat, ap (λ o. same_file o other) (sym same) ∙ e),
              ),
              scan_configs-none path (some i) rest h2,
            )
      ]

  -- No active database is the one of a path.
  abbrev pub IsOtherDatabase : Text → Option ℕ → Text × Text → Type 0
  IsOtherDatabase path info (active, owner) =
      (files.equivalent path active ≡ ok false)
      × (other : Option ℕ) × (files.stat active ≡ ok other)
      × (same_file info other ≡ false)

  scan_databases-none :
      (path : Text) (info : Option ℕ) (active : Dict Text)
      → scan_databases files ctx path info active ≡ ok none
      → All (IsOtherDatabase path info) active
  unfolding scan_databases
  scan_databases-none path info [] h = tt
  scan_databases-none path info ((active, owner) ∷ rest) h =
      let (u, checked, h0) = bind_ok (check ctx (compares active)) _ h in
      let (other, stat, h1) = bind_ok (map_err _ (files.stat active)) _ h0 in
      elim (Bool-cases (same_file info other)) [
        | inl e ↦ absurd (cc (rw e at h1))
        | inr e ↦
            let (equal, asked, h2) =
              bind_ok (map_err _ (files.equivalent path active)) _ (rw e at h1) in
            elim (Bool-cases equal) [
              | inl q ↦ absurd (cc (rw q at h2))
              | inr q ↦ (
                (map_err-eq-ok _ _ asked ∙ ap ok q, other, map_err-eq-ok _ _ stat, e),
                scan_databases-none path info rest (rw q at h2),
              )
            ]
      ]

  -- What is active is neither the configuration nor the database of a candidate, by no alias.
  pub record IsUnaliased (configs databases : Dict Text) (c : Candidate) : Type 0 where
    pub config_info : Option ℕ
    pub config_stat : files.stat c.config_identity ≡ ok config_info
    pub other_configs : All (IsOtherConfig c.config_identity config_info) configs
    pub database_info : Option ℕ
    pub database_stat : files.stat c.database_path ≡ ok database_info
    pub other_databases : All (IsOtherDatabase c.database_path database_info) databases

  no_config :
      (path : Text) (active : Dict Text)
      → active_config_owner files ctx path active ≡ ok none
      → (info : Option ℕ) × (files.stat path ≡ ok info) × All (IsOtherConfig path info) active
  unfolding active_config_owner
  no_config path active h = elim (Option-cases (get path active)) [
    | inr (owner, e) ↦ absurd (cc (rw (e, active_config_owner) at h))
    | inl e ↦
        let (info, stat, h1) =
          bind_ok (map_err (failed_at []) (files.stat path)) _ (rw (e, active_config_owner) at h) in
        (info, map_err-eq-ok _ _ stat, scan_configs-none path info active h1)
  ]

  no_database :
      (path : Text) (active : Dict Text)
      → active_database_owner files ctx path active ≡ ok none
      → (info : Option ℕ) × (files.stat path ≡ ok info) × All (IsOtherDatabase path info) active
  unfolding active_database_owner
  no_database path active h = elim (Option-cases (get path active)) [
    | inr (owner, e) ↦ absurd (cc (rw (e, active_database_owner) at h))
    | inl e ↦
        let (info, stat, h1) =
          bind_ok (map_err (failed_at []) (files.stat path)) _
            (rw (e, active_database_owner) at h) in
        (info, map_err-eq-ok _ _ stat, scan_databases-none path info active h1)
  ]

  pub validate_active-AreUnaliased :
      (cs : List Candidate) (configs databases : Dict Text)
      → validate_active files ctx cs configs databases ≡ ok tt
      → All (IsUnaliased configs databases) cs
  validate_active-AreUnaliased [] configs databases h = tt
  validate_active-AreUnaliased (c ∷ cs) configs databases h =
      let (config, database, rest) = validate_active-head files ctx c cs configs databases h in
      let (i, i_stat, others) = no_config c.config_identity configs config in
      let (j, j_stat, other_databases) = no_database c.database_path databases database in
      (
        record {
          config_info = i;
          config_stat = i_stat;
          other_configs = others;
          database_info = j;
          database_stat = j_stat;
          other_databases = other_databases;
        },
        validate_active-AreUnaliased cs configs databases rest,
      )

-- The queue that a candidate belongs to makes no difference to its path.
assign_identities-AreCandidatesOf :
    (files at_gate : Files) (ctx : Context) (qs : List KnownQueue) (ps : List Text)
    (cs ds : List Candidate)
    → assign_identities at_gate ctx qs cs ≡ ok ds
    → AreCandidatesOf files ps cs
    → AreCandidatesOf files ps ds
unfolding assign_identities
assign_identities-AreCandidatesOf files at_gate ctx qs [] [] ds h AreCandidatesOf.done =
    let e = ok_injective h in rw (← e) AreCandidatesOf.done
assign_identities-AreCandidatesOf files at_gate ctx qs (p ∷ ps) (c ∷ cs) ds h
      (AreCandidatesOf.next first later) =
    let (i, e0, h0) = bind_ok (known_identity at_gate ctx c qs) _ h in
    let (rest, e1, h1) = bind_ok (assign_identities at_gate ctx qs cs) _ h0 in
    let e = ok_injective h1 in
    rw (← e) (
      AreCandidatesOf.next
        (record {
          absolute = first.absolute;
          canonical = first.canonical;
          read = first.read;
          hashed = first.hashed;
          database = first.database;
        })
        (assign_identities-AreCandidatesOf files at_gate ctx qs ps cs rest e1 later))
assign_identities-AreCandidatesOf files at_gate ctx qs [] (c ∷ cs) ds h x = elim x [ ]
assign_identities-AreCandidatesOf files at_gate ctx qs (p ∷ ps) [] ds h x = elim x [ ]

pub preflight-AreCandidatesOf :
    (q : Request) (known : List KnownQueue) (ds : List Candidate)
    → preflight q known ≡ ok ds
    → AreCandidatesOf q.files q.paths ds
unfolding preflight
preflight-AreCandidatesOf q known ds h =
    let (cs, loads, h0) = bind_ok (load_candidates q.files q.context [] q.paths) _ h in
    let (u, first, h1) = bind_ok (validate_databases q.files q.context [] [] [] cs) _ h0 in
    let (v, waited, h2) = bind_ok (check q.context waits) _ h1 in
    let (y, alive, h2') = bind_ok (refuse q.closed_at_gate shutting_down) _ h2 in
    let (w, second, h3) =
      bind_ok (validate_databases q.files_at_gate q.context [] [] [] cs) _ h2' in
    let (x, expected, h4) =
      bind_ok (validate_expected q.files_at_gate q.context cs q.expected) _ h3 in
    assign_identities-AreCandidatesOf q.files q.files_at_gate q.context known q.paths cs ds h4
      (load_candidates-AreCandidatesOf q.files q.context [] q.paths cs loads)
