-- ===== src/Control/Manager/Databases.antt =====
-- internal/control/manager.go: the checks that no two configurations of a start share a database,
-- that none is in use, and which known queue each belongs to.
use slipway.Common.{
  ℕ, Text, codes, text_eq, is_blank, Bool, true, false, Option, none, some, List, [], ◌∷◌, ◌++◌,
  if◌then◌else◌, Dict, get, Result, ok, err, ◌>>=◌, ◌>>◌, map_err,
}
use slipway.Control.Manager.Types.{
  KnownQueue, Error, duplicate_database, failed_at, within, config_active, database_active,
  known_queue_one, queue_changed,
}
use slipway.Control.Manager.Preflight.{
  Files, inspects, compares, reserves, Context, check, refuse, Candidate, same_file,
}

abbrev shares : Candidate → Candidate → Error
shares owner c = duplicate_database owner.config_path c.config_path c.database_path

unfoldable pub same_path : List Candidate → Candidate → Result Error (Unit {0})
same_path [] c = ok tt
same_path (o ∷ os) c =
    if text_eq o.database_path c.database_path then err (shares o c) else same_path os c

unfoldable pub same_missing : Files → List Candidate → Candidate → Result Error (Unit {0})
same_missing files [] c = ok tt
same_missing files (o ∷ os) c = do
  equal ←
      map_err (failed_at (codes "compare databases"))
        (files.equivalent o.database_path c.database_path)
  refuse equal (shares o c)
  same_missing files os c

unfoldable pub same_existing :
    List (Candidate × Option ℕ) → Candidate → Option ℕ → Result Error (Unit {0})
same_existing [] c info = ok tt
same_existing ((o, known) ∷ os) c info =
    if same_file known info then err (shares o c) else same_existing os c info

-- `validateDatabaseCandidates`, with the candidates before, those whose database is there, and
-- those whose database is not.
unfoldable pub validate_databases :
    Files
    → Context
    → List Candidate
    → List (Candidate × Option ℕ)
    → List Candidate
    → List Candidate
    → Result Error (Unit {0})
validate_databases files ctx seen existing missing [] = ok tt
validate_databases files ctx seen existing missing (c ∷ cs) = do
  check ctx (inspects c.config_path)
  same_path seen c
  info ← map_err (failed_at (codes "inspect database")) (files.stat c.database_path)
  elim info [
    | none ↦
        same_missing files missing c
        >> validate_databases files ctx (seen ++ c ∷ []) existing (missing ++ c ∷ []) cs
    | some i ↦
        same_existing existing c (some i)
        >> validate_databases files ctx (seen ++ c ∷ []) (existing ++ (c, some i) ∷ []) missing cs
  ]

-- The loop of `activeConfigOwner` over the active configurations.
unfoldable pub scan_configs :
    Files → Context → Text → Option ℕ → Dict Text → Result Error (Option Text)
scan_configs files ctx path info [] = ok none
scan_configs files ctx path info ((active, owner) ∷ rest) =
    let next = scan_configs files ctx path info rest in
    let by_name =
      if files.equal_fold path active
      then (do
        equal ← map_err (failed_at []) (files.equivalent path active)
        if equal then ok (some owner) else next)
      else next in
    check ctx (compares active) >> elim info [
      | none ↦ by_name
      | some i ↦ map_err (failed_at []) (files.stat active) >>= λ other.
          if same_file (some i) other then ok (some owner) else by_name
    ]

-- `activeConfigOwner`
unfoldable pub active_config_owner : Files → Context → Text → Dict Text → Result Error (Option Text)
active_config_owner files ctx path active = elim (get path active) [
  | some owner ↦ ok (some owner)
  | none ↦
      map_err (failed_at []) (files.stat path) >>= λ info. scan_configs files ctx path info active
]

-- The loop of `activeDatabaseOwner` over the active databases.
unfoldable pub scan_databases :
    Files → Context → Text → Option ℕ → Dict Text → Result Error (Option Text)
scan_databases files ctx path info [] = ok none
scan_databases files ctx path info ((active, owner) ∷ rest) =
    let next = scan_databases files ctx path info rest in
    (do
      check ctx (compares active)
      other ← map_err (failed_at []) (files.stat active)
      equal ←
          if same_file info other
          then ok true
          else map_err (failed_at []) (files.equivalent path active)
      if equal then ok (some owner) else next)

-- `activeDatabaseOwner`
unfoldable pub active_database_owner :
    Files → Context → Text → Dict Text → Result Error (Option Text)
active_database_owner files ctx path active = elim (get path active) [
  | some owner ↦ ok (some owner)
  | none ↦
      map_err (failed_at []) (files.stat path) >>= λ info. scan_databases files ctx path info active
]

abbrev pub unowned : (Text → Error) → Option Text → Result Error (Unit {0})
unowned refused none = ok tt
unowned refused (some owner) = err (refused owner)

-- `validateActiveCandidates`
unfoldable pub validate_active :
    Files → Context → List Candidate → Dict Text → Dict Text → Result Error (Unit {0})
validate_active files ctx [] configs databases = ok tt
validate_active files ctx (c ∷ cs) configs databases = do
  check ctx (reserves c.config_path)
  by_config ←
      map_err (within (codes "compare config"))
        (active_config_owner files ctx c.config_identity configs)
  unowned (config_active c.config_path) by_config
  by_database ←
      map_err (within (codes "compare database"))
        (active_database_owner files ctx c.database_path databases)
  unowned (database_active c.database_path) by_database
  validate_active files ctx cs configs databases

-- The paths that stand for the database of a known queue.
abbrev pub queue_paths : KnownQueue → List Text
queue_paths q = q.identity ∷ q.database_path ∷ q.database_aliases

-- Whether a database is reached by one of the paths.
unfoldable pub is_reached : Files → Context → Text → List Text → Result Error Bool
is_reached files ctx database [] = ok false
is_reached files ctx database (p ∷ ps) =
    let rest = is_reached files ctx database ps in
    if is_blank p then rest else (do
      check ctx (compares p)
      equal ←
          map_err (failed_at (codes "compare known queue database")) (files.equivalent database p)
      if equal then ok true else rest)

-- `validateExpectedQueue`
unfoldable pub validate_expected :
    Files → Context → List Candidate → Option KnownQueue → Result Error (Unit {0})
validate_expected files ctx cs none = ok tt
validate_expected files ctx [] (some q) = err known_queue_one
validate_expected files ctx (c ∷ d ∷ cs) (some q) = err known_queue_one
validate_expected files ctx (c ∷ []) (some q) =
    if text_eq c.config_identity q.config_identity
    then (do
      reached ← is_reached files ctx c.database_path (queue_paths q)
      refuse (if reached then false else true) (queue_changed c.config_path))
    else err (queue_changed c.config_path)

unfoldable pub known_identity : Files → Context → Candidate → List KnownQueue → Result Error Text
known_identity files ctx c [] = ok c.database_path
known_identity files ctx c (q ∷ qs) =
    let rest = known_identity files ctx c qs in
    (do
      reached ← is_reached files ctx c.database_path (queue_paths q)
      if reached then ok q.identity else rest)

-- `assignKnownQueueIdentities`
unfoldable pub assign_identities :
    Files → Context → List KnownQueue → List Candidate → Result Error (List Candidate)
assign_identities files ctx qs [] = ok []
assign_identities files ctx qs (c ∷ cs) = do
  identity ← known_identity files ctx c qs
  rest ← assign_identities files ctx qs cs
  ok (record c { queue_identity = identity } ∷ rest)
