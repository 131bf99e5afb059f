-- ===== src/Control/Manager/Preflight.antt =====
-- internal/control/manager.go: what a start finds out about its configurations before it reserves
-- anything. The file system, the loader and the other parts of the program are parameters.
use slipway.Common.{
  ℕ, Text, codes, text_eq, is_blank, clean, Bool, true, false, ◌==◌, Option, none, some, List, [],
  ◌∷◌, ◌++◌, if◌then◌else◌, Result, ok, err, ◌>>=◌, ◌>>◌, map_err,
}
use slipway.Control.Manager.Types.{
  Config, Error, context_ended, duplicate_config, failed_at, nil_config,
}

-- `filepath.Abs`, `config.CanonicalDatabasePath`, `os.Stat` (`none` for a file that does not exist,
-- and else what `os.SameFile` compares), `config.PathsEquivalent`, `strings.ToLower`,
-- `strings.EqualFold`, the loader, and `config.EffectiveFingerprint`.
pub record Files : Type 0 where
  pub abs : Text → Result Text Text
  pub canonical : Text → Result Text Text
  pub stat : Text → Result Text (Option ℕ)
  pub equivalent : Text → Text → Result Text Bool
  pub fold : Text → Text
  pub equal_fold : Text → Text → Bool
  pub load : Text → Result Text (Option Config)
  pub fingerprint : Config → Result Text Text

-- Where a start asks whether its context has ended, and the answers.
pub data Check : Type 0 where
  entered waits loops locked launches : Check
  reads loaded inspects compares reserves : Text → Check

abbrev pub Context : Type 0
Context = Check → Option ℕ

abbrev pub check : Context → Check → Result Error (Unit {0})
check ctx c = elim (ctx c) [ none ↦ ok tt | some cause ↦ err (context_ended cause) ]

abbrev pub refuse : Bool → Error → Result Error (Unit {0})
refuse true e = err e
refuse false e = ok tt

pub record Candidate : Type 0 where
  pub config_path : Text
  pub config_identity : Text
  pub config_hash : Text
  pub database_path : Text
  pub queue_identity : Text
  pub config : Config

-- A configuration that the same start named before.
pub record ConfigOwner : Type 0 where
  pub requested : Text
  pub identity : Text
  pub info : Option ℕ

-- Whether `os.Stat` found the same file twice.
abbrev pub same_file : Option ℕ → Option ℕ → Bool
same_file (some a) (some b) = a == b
same_file (some a) none = false
same_file none o = false

-- `absolutePath` and `canonicalPath`
abbrev pub absolute_path : Files → Text → Result Text Text
absolute_path files value =
    if is_blank value then err (codes "path is empty") else (do a ← files.abs value; ok (clean a))

abbrev pub canonical_path : Files → Text → Result Text Text
canonical_path files value =
    if is_blank value then err (codes "path is empty") else files.canonical value

abbrev duplicate_of : ConfigOwner → Text → Text → Error
duplicate_of owner requested identity = duplicate_config owner.requested requested identity

-- The three ways in which a configuration is one that the start named before.
unfoldable pub same_identity : List ConfigOwner → Text → Text → Result Error (Unit {0})
same_identity [] requested identity = ok tt
same_identity (o ∷ os) requested identity =
    if text_eq o.identity identity
    then err (duplicate_of o requested identity)
    else same_identity os requested identity

unfoldable pub same_object : List ConfigOwner → Text → Text → Option ℕ → Result Error (Unit {0})
same_object [] requested identity info = ok tt
same_object (o ∷ os) requested identity info =
    if same_file o.info info
    then err (duplicate_of o requested identity)
    else same_object os requested identity info

unfoldable pub same_folded : Files → List ConfigOwner → Text → Text → Result Error (Unit {0})
same_folded files [] requested identity = ok tt
same_folded files (o ∷ os) requested identity =
    let rest = same_folded files os requested identity in
    if text_eq (files.fold o.identity) (files.fold identity)
    then (do
      equal ←
          map_err (failed_at (codes "compare config paths")) (files.equivalent o.identity identity)
      refuse equal (duplicate_of o requested identity)
      rest)
    else rest

abbrev pub loaded_config : Text → Option Config → Result Error Config
loaded_config path none = err (nil_config path)
loaded_config path (some cfg) = ok cfg

-- One pass of the loop over the paths of a start.
unfoldable pub load_candidate :
    Files → Context → List ConfigOwner → Text → Result Error (Candidate × ConfigOwner)
load_candidate files ctx owners requested = do
  check ctx (reads requested)
  path ← map_err (failed_at (codes "resolve config path")) (absolute_path files requested)
  identity ← map_err (failed_at (codes "canonicalize config path")) (canonical_path files path)
  same_identity owners requested identity
  info ← map_err (failed_at (codes "inspect config path")) (files.stat identity)
  same_object owners requested identity info
  same_folded files owners requested identity
  found ← map_err (failed_at (codes "load config")) (files.load path)
  check ctx (loaded requested)
  cfg ← loaded_config path found
  hash ← map_err (failed_at (codes "fingerprint config")) (files.fingerprint cfg)
  database ← map_err (failed_at (codes "resolve database")) (files.canonical cfg.database_path)
  ok (
    record {
      config_path = path;
      config_identity = identity;
      config_hash = hash;
      database_path = database;
      queue_identity = database;
      config = cfg;
    },
    record { requested = requested; identity = identity; info = info },
  )

unfoldable pub load_candidates :
    Files → Context → List ConfigOwner → List Text → Result Error (List Candidate)
load_candidates files ctx owners [] = ok []
load_candidates files ctx owners (p ∷ ps) = do
  loaded_pair ← load_candidate files ctx owners p
  rest ← load_candidates files ctx (owners ++ loaded_pair.1 ∷ []) ps
  ok (loaded_pair.0 ∷ rest)
