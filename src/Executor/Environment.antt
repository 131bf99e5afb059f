-- ===== src/Executor/Environment.antt =====
-- internal/executor/executor.go: the environment of a child. A Go map is a list of its entries, in
-- the order in which an iteration happens to visit them.
use slipway.Common.{
  Text, codes, text_eq, text_leb, cut_at, Option, none, some, List, [], ◌∷◌, ◌++◌, map,
  if◌then◌else◌,
}

abbrev pub Env : Type 0
Env = List (Text × Text)

abbrev pub entry : Text × Text → Text
entry kv = kv.0 ++ codes "=" ++ kv.1

unfoldable pub insert_text : Text → List Text → List Text
insert_text s [] = s ∷ []
insert_text s (t ∷ ts) = if text_leb s t then s ∷ t ∷ ts else t ∷ insert_text s ts

-- `sort.Strings`
unfoldable pub sort_texts : List Text → List Text
sort_texts [] = []
sort_texts (s ∷ ss) = insert_text s (sort_texts ss)

unfoldable pub environment : Env → List Text
environment values = sort_texts (map entry values)

-- `values[key] = value`
unfoldable pub set : Text → Text → Env → Env
set key value [] = (key, value) ∷ []
set key value (kv ∷ env) = if text_eq kv.0 key then (key, value) ∷ env else kv ∷ set key value env

-- The second value of Go's look-up is whether there is one.
unfoldable pub get : Text → Env → Option Text
get key [] = none
get key (kv ∷ env) = if text_eq kv.0 key then some kv.1 else get key env

unfoldable pub set_all : Env → Env → Env
set_all [] env = env
set_all (kv ∷ kvs) env = set_all kvs (set kv.0 kv.1 env)

-- The entries of the parent's environment that have an equals sign.
pub settings : List Text → Env
settings [] = []
settings (item ∷ items) = elim (cut_at 61 item) [
  | none ↦ settings items
  | some kv ↦ kv ∷ settings items
]

unfoldable pub merge_environment : List Text → Env → List Text
merge_environment base [] = base
merge_environment base (kv ∷ overrides) =
    environment (set_all (kv ∷ overrides) (set_all (settings base) []))
