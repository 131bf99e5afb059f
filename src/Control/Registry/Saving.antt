-- ===== src/Control/Registry/Saving.antt =====
-- internal/control/registered.go: `startRegistered`, and `save` of internal/control/registry.go.
use slipway.Common.{
  ℕ, ◌+◌, Text, codes, text_eq, Bool, true, false, not, ◌&&◌, ◌||◌, Option, none, some, List, [],
  ◌∷◌, ◌++◌, if◌then◌else◌, Dict, put, Result, ok, err, ◌>>=◌, ◌>>◌, map_err,
}
use slipway.Control.Manager.Types.{
  Instance, Config, RuntimeInstance, Row, Registry, Error, duplicate_config, failed_at,
}
use slipway.Control.Manager.Names.{Runes, Generator}
use slipway.Control.Manager.Preflight.{
  Files, Context, reads, check, refuse, absolute_path, canonical_path, loaded_config,
}
use slipway.Control.Manager.Lifecycle.{refusal}
use slipway.Control.Registry.Registered.{Gate}

pub record Registration : Type 0 where
  pub view : Instance
  pub identity : Text
  pub config : Config

abbrev pub row_of : Registration → Row
row_of r = record { name = r.view.name; identity = r.identity; view = r.view; config = r.config }

-- The constraints of the table: no other id has the name or the identity.
unfoldable pub clashes : Registration → Dict Row → Bool
clashes r [] = false
clashes r ((id, w) ∷ rows) =
    not (text_eq id r.view.id) && (text_eq w.name r.view.name || text_eq w.identity r.identity)
    || clashes r rows

-- The statements of `save` by their numbers, and what the database refuses them with.
abbrev pub Refusals : Type 0
Refusals = ℕ → Option Text

-- The loop of `save` over the registrations, with the commit at its end.
unfoldable pub save_rows : Refusals → ℕ → List Registration → Dict Row → Result Error (Dict Row)
save_rows refusals i [] rows = elim (refusals i) [
  | some e ↦ err (failed_at (codes "commit registrations") e)
  | none ↦ ok rows
]
save_rows refusals i (r ∷ rs) rows = elim (refusals i) [
  | some e ↦ err (failed_at (codes "persist instance") e)
  | none ↦ elim (clashes r rows) [
    | true ↦ err (failed_at (codes "persist instance") (codes "UNIQUE constraint failed"))
    | false ↦ save_rows refusals (i + 1) rs (put r.view.id (row_of r) rows)
  ]
]

-- `save`: all the registrations, or none.
unfoldable pub save : Refusals → List Registration → Registry → Result Error Registry
save refusals rs g = elim (refusal (refusals 0) g) [
  | some e ↦ err (failed_at (codes "persist registrations") e)
  | none ↦ do rows ← save_rows refusals 1 rs g.rows; ok (record g { rows = rows })
]

-- What a registered start is given. `validate` is `config.Validate`, `hash` `EffectiveFingerprint`
-- and `queue_path` the file of a queue in the state directory, by the id.
pub record RegisteredStart : Type 0 where
  pub paths : List Text
  pub name : Text
  pub gate : Gate
  pub files : Files
  pub context : Context
  pub working_directory : Result Text Text
  pub runes : Runes
  pub generate : Generator
  pub clock : ℕ → ℕ
  pub validate : Config → Option Text
  pub queue_path : Text → Text → Text
  pub refusals : Refusals

-- A configuration that was read, with the id of the instance that has it.
pub record Item : Type 0 where
  pub path : Text
  pub identity : Text
  pub existing_id : Option Text
  pub config : Config

-- `identities`: the ids by the identities of their configurations.
unfoldable pub identities_of : Dict RuntimeInstance → Dict Text → Dict Text
identities_of [] known = known
identities_of ((id, r) ∷ rest) known = identities_of rest (put r.config_identity id known)

-- The loop over what the same start named before.
unfoldable pub not_twice : Files → Text → Text → List Item → Result Error (Unit {0})
not_twice files path identity [] = ok tt
not_twice files path identity (item ∷ items) = do
  equal ← map_err (failed_at []) (files.equivalent identity item.identity)
  refuse equal (duplicate_config item.path path identity)
  not_twice files path identity items

-- The loop for an instance that has the configuration: its identity and its id.
unfoldable pub existing : Files → Text → Dict Text → Result Error (Option (Text × Text))
existing files identity [] = ok none
existing files identity ((other, id) ∷ known) = do
  equal ← map_err (failed_at []) (files.equivalent identity other)
  (if equal then ok (some (other, id)) else existing files identity known)

abbrev pub item_of : Text → Text → Config → Option (Text × Text) → Item
item_of path identity cfg none = record {
  path = path;
  identity = identity;
  existing_id = none;
  config = cfg;
}
item_of path identity cfg (some (other, id)) = record {
  path = path;
  identity = other;
  existing_id = some id;
  config = cfg;
}

-- One pass of the loop over the paths. The copy by JSON keeps what is modelled of a configuration,
-- and so does the working directory that steps without one are given.
unfoldable pub load_item : RegisteredStart → Dict Text → List Item → Text → Result Error Item
load_item q known items path = do
  check q.context (reads path)
  absolute ← map_err (failed_at []) (absolute_path q.files path)
  identity ← map_err (failed_at []) (canonical_path q.files absolute)
  not_twice q.files path identity items
  found ← existing q.files identity known
  read ← map_err (failed_at (codes "load config")) (q.files.load absolute)
  cfg ← loaded_config absolute read
  cwd ← map_err (failed_at []) q.working_directory
  ok (item_of absolute identity cfg found)

unfoldable pub load_items :
    RegisteredStart → Dict Text → List Item → List Text → Result Error (List Item)
load_items q known items [] = ok items
load_items q known items (p ∷ ps) = do
  item ← load_item q known items p
  load_items q known (items ++ item ∷ []) ps
