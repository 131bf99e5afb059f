-- ===== src/Executor/Environments.antt =====
-- The environment of internal/executor/executor.go does not depend on the order in which Go visits
-- a map, and the overrides win over what the parent has.
use slipway.Common.{
  ◌≤◌, count_where, Text, text_eq, text_eq_iff, text_leb, text_leb_total, text_leb_antisym,
  text_leb_trans, Bool, false, Option, none, some, List, [], ◌∷◌, map, ◌≡◌, refl, ◌∙◌, arith,
  if◌then◌else◌, Bool-cases, inl, inr,
}
use mathlib.Core.List.{Permᴰ}
use slipway.Executor.Environment.{
  Env, entry, insert_text, sort_texts, environment, set, get, set_all, settings, merge_environment,
}

insert_text_same :
    (s t : Text) (us : List Text)
    → s ≡ t
    → insert_text s (insert_text t us) ≡ insert_text t (insert_text s us)
insert_text_same s t us e = rw e

insert_text_comm :
    (s t : Text) (us : List Text)
    → insert_text s (insert_text t us) ≡ insert_text t (insert_text s us)
unfolding insert_text
insert_text_comm s t [] = elim (Bool-cases (text_leb s t)) [
  | inl e ↦ elim (Bool-cases (text_leb t s)) [
    | inl e' ↦ insert_text_same s t [] (text_leb_antisym s t e e')
    | inr e' ↦ rw (e, e')
  ]
  | inr e ↦ rw (e, text_leb_total s t e)
]
insert_text_comm s t (u ∷ us) = elim (Bool-cases (text_leb s u)) [
  | inl a ↦ elim (Bool-cases (text_leb t u)) [
    | inl b ↦ elim (Bool-cases (text_leb s t)) [
      | inl e ↦ elim (Bool-cases (text_leb t s)) [
        | inl e' ↦ insert_text_same s t (u ∷ us) (text_leb_antisym s t e e')
        | inr e' ↦ rw (a, b, e, e')
      ]
      | inr e ↦ rw (a, b, e, text_leb_total s t e, a)
    ]
    | inr b ↦
        let no : text_leb t s ≡ false = ground (arith, text_leb_trans t s u, a, b) in
        rw (a, b, a, no)
  ]
  | inr a ↦ elim (Bool-cases (text_leb t u)) [
    | inl b ↦
        let no : text_leb s t ≡ false = ground (arith, text_leb_trans s t u, a, b) in
        rw (a, b, no, a)
    | inr b ↦ rw (a, b, a, insert_text_comm s t us)
  ]
]

-- However Go visits the entries of a map, the environment is the same.
pub environment-permuted :
    {values values' : Env} → Permᴰ values values' → environment values ≡ environment values'
unfolding environment sort_texts
environment-permuted Permᴰ.nil = refl
environment-permuted (Permᴰ.cons e p) = rw (e, environment-permuted p)
environment-permuted (Permᴰ.swap {a} {b} {l = l} e e') =
    rw (← e, ← e') (insert_text_comm (entry a) (entry b) (sort_texts (map entry l)))
environment-permuted (Permᴰ.trans p q) = environment-permuted p ∙ environment-permuted q

get-set :
    (key value other : Text) (env : Env)
    → get other (set key value env) ≡ (if text_eq key other then some value else get other env)
unfolding get set
get-set key value other [] = refl
get-set key value other (kv ∷ env) = ground (
  arith,
  text_eq_iff kv.0 key,
  text_eq_iff kv.0 other,
  text_eq_iff key other,
  get-set key value other env,
)

-- What the last entry of a list of settings says of a key.
abbrev pub last_of : Text → Env → Option Text → Option Text
last_of key [] before = before
last_of key (kv ∷ kvs) before = last_of key kvs (if text_eq kv.0 key then some kv.1 else before)

get-set_all :
    (key : Text) (kvs env : Env) → get key (set_all kvs env) ≡ last_of key kvs (get key env)
unfolding set_all
get-set_all key [] env = refl
get-set_all key (kv ∷ kvs) env =
    rw (get-set_all key kvs (set kv.0 kv.1 env), get-set kv.0 kv.1 key env)

abbrev pub has_key : Text → Text × Text → Bool
has_key key kv = text_eq kv.0 key

set_absent :
    (key value other : Text) (env : Env)
    → text_eq key other ≡ false
    → count_where (has_key other) (set key value env) ≡ count_where (has_key other) env
unfolding set count_where
set_absent key value other [] h = ground (arith, h)
set_absent key value other (kv ∷ env) h = ground (
  arith,
  h,
  text_eq_iff kv.0 key,
  text_eq_iff kv.0 other,
  text_eq_iff key other,
  set_absent key value other env,
)

count_where-set :
    (key value other : Text) (env : Env)
    → count_where (has_key other) env ≤ 1
    → count_where (has_key other) (set key value env) ≤ 1
unfolding set count_where
count_where-set key value other [] h = ground arith
count_where-set key value other (kv ∷ env) h = ground (
  arith,
  text_eq_iff kv.0 key,
  text_eq_iff kv.0 other,
  text_eq_iff key other,
  count_where-set key value other env,
  set_absent key value other env,
)

count_where-set_all :
    (other : Text) (kvs env : Env)
    → count_where (has_key other) env ≤ 1
    → count_where (has_key other) (set_all kvs env) ≤ 1
unfolding set_all
count_where-set_all other [] env h = h
count_where-set_all other (kv ∷ kvs) env h =
    count_where-set_all other kvs (set kv.0 kv.1 env) (count_where-set kv.0 kv.1 other env h)

no_entry : (key : Text) → count_where (has_key key) [] ≤ 1
unfolding count_where
no_entry key = omega arith

get-empty : (key : Text) → get key [] ≡ none
unfolding get
get-empty key = refl

-- With at least one override, the child's environment is that of a map in which no key has two
-- entries: the value of a key is that of its last override, and without one that of its last entry
-- in the parent's environment; a key of neither has no entry.
pub merge_environment_lem :
    (parent : List Text) (kv : Text × Text) (overrides : Env)
    → (values : Env) × (merge_environment parent (kv ∷ overrides) ≡ environment values)
      × ((key : Text)
          → (count_where (has_key key) values ≤ 1)
            × (get key values ≡ last_of key (kv ∷ overrides) (last_of key (settings parent) none)))
unfolding merge_environment
merge_environment_lem parent kv overrides = (
  set_all (kv ∷ overrides) (set_all (settings parent) []),
  refl,
  λ key. (
    count_where-set_all key (kv ∷ overrides) (set_all (settings parent) [])
        (count_where-set_all key (settings parent) [] (no_entry key)),
    rw (
      get-set_all key (kv ∷ overrides) (set_all (settings parent) []),
      get-set_all key (settings parent) [],
      get-empty key,
    ),
  ),
)
