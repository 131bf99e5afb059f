-- ===== src/Control/Manager/Invariant/Defs.antt =====
-- The maps of the supervisor of internal/control/manager.go agree with one another.
use slipway.Common.{Text, ◌≡◌, true, none, some, Dict, get, HasEntry, IsMap}
use slipway.Control.Manager.Types.{RuntimeInstance, Manager, is_live}

-- `instances`, `names`, `activeConfigs` and `activeDatabases`.
pub record AreSound (instances : Dict RuntimeInstance) (names configs databases : Dict Text)
    : Type 0 where
  pub unique : IsMap instances
  -- Every instance stands at its id and owns its name, and every name is that of an instance.
  pub keyed : (k : Text) (r : RuntimeInstance) → get k instances ≡ some r → r.view.id ≡ k
  pub named :
      (k : Text) (r : RuntimeInstance) → get k instances ≡ some r → get r.view.name names ≡ some k
  pub owned : (n k : Text) → get n names ≡ some k → HasEntry (λ r. r.view.name ≡ n) k instances
  -- No name is an id.
  pub apart : (n k : Text) → get n names ≡ some k → get n instances ≡ none
  -- An active instance holds its configuration and its database, and nothing else holds any.
  pub holds_config :
      (k : Text) (r : RuntimeInstance)
      → get k instances ≡ some r
      → is_live r ≡ true
      → get r.config_identity configs ≡ some k
  pub holds_database :
      (k : Text) (r : RuntimeInstance)
      → get k instances ≡ some r
      → is_live r ≡ true
      → get r.view.database_path databases ≡ some k
  pub config_held :
      (p k : Text)
      → get p configs ≡ some k
      → HasEntry (λ r. (is_live r ≡ true) × (r.config_identity ≡ p)) k instances
  pub database_held :
      (p k : Text)
      → get p databases ≡ some k
      → HasEntry (λ r. (is_live r ≡ true) × (r.view.database_path ≡ p)) k instances

abbrev pub IsSound : Manager → Type 0
IsSound m = AreSound m.instances m.names m.active_configs m.active_databases

-- Two states of one instance, with what the other maps say of it unchanged.
pub record IsSameInstance (r r' : RuntimeInstance) : Type 0 where
  pub same_id : r'.view.id ≡ r.view.id
  pub same_name : r'.view.name ≡ r.view.name
  pub same_identity : r'.config_identity ≡ r.config_identity
  pub same_database : r'.view.database_path ≡ r.view.database_path
