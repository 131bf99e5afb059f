-- ===== src/Control/Manager/Names.antt =====
-- internal/control/manager.go: the ids and names of instances, and how a selector finds one.
use slipway.Common.{
  reverse, trim_suffix, ext, base, not, ℕ, zero, suc, ◌+◌, ◌==◌, Text, codes, text_eq, has_prefix,
  trim_space, decimal, Bool, true, false, ◌&&◌, ◌||◌, Option, none, some, List, [], ◌∷◌, ◌++◌, leb,
  ltb, length, map, if◌then◌else◌, Dict, get, has, Result, ok, err,
}
use slipway.Control.Manager.Types.{
  Manager, RuntimeInstance, Error, not_found, ambiguous, empty_selector, failed_at, invalid_id,
  no_id, nil_pointer,
}

-- Whether a set of strings holds one.
unfoldable pub contains : Text → List Text → Bool
contains k [] = false
contains k (j ∷ js) = text_eq j k || contains k js

-- The loop of `resolveLocked` over the instances, with the match so far.
unfoldable pub match_prefix :
    Text → Option RuntimeInstance → Dict RuntimeInstance → Result Error RuntimeInstance
match_prefix selector none [] = err (not_found selector)
match_prefix selector (some r) [] = ok r
match_prefix selector matched ((id, r) ∷ rest) = elim (has_prefix selector id) [
  | false ↦ match_prefix selector matched rest
  | true ↦ elim matched [
    | none ↦ match_prefix selector (some r) rest
    | some q ↦ err (ambiguous selector)
  ]
]

abbrev pub instance_of : Option RuntimeInstance → Result Error RuntimeInstance
instance_of none = err nil_pointer
instance_of (some r) = ok r

-- The part of `resolveLocked` behind the trimming of the selector. Its callers read the instance at
-- once: one that is not there is a panic.
unfoldable pub look_up : Manager → Text → Result Error RuntimeInstance
look_up m selector =
    if text_eq selector [] then err empty_selector else (elim (get selector m.names) [
      | some id ↦ instance_of (get id m.instances)
      | none ↦ match_prefix selector none m.instances
    ])

unfoldable pub resolve : Manager → Text → Result Error RuntimeInstance
resolve m text = look_up m (trim_space text)

-- The names of a start that were handed out already, and the ids.
pub record Reserved : Type 0 where
  pub names : List Text
  pub ids : List Text

-- Whether a name or an id is in use, or about to be.
unfoldable pub is_taken : Manager → Reserved → Text → Bool
is_taken m reserved k =
    has k m.names || has k m.instances || contains k reserved.names || contains k reserved.ids

abbrev pub max_id_generation_attempts : ℕ
max_id_generation_attempts = 128

abbrev lower : ℕ → ℕ
lower c = if leb 65 c && leb c 90 then c + 32 else c

-- `strings.ToLower`, as far as an id can be valid behind it.
abbrev pub to_lower : Text → Text
to_lower s = map lower s

abbrev is_hex : ℕ → Bool
is_hex c = leb 48 c && leb c 57 || leb 97 c && leb c 102 || leb 65 c && leb c 70

unfoldable pub all_hex : Text → Bool
all_hex [] = true
all_hex (c ∷ s) = is_hex c && all_hex s

unfoldable pub valid_id : Text → Bool
valid_id id = length id == 12 && all_hex id

-- The generator of ids: what each of its calls returns.
abbrev pub Generator : Type 0
Generator = ℕ → Result Text Text

-- `availableIDLocked`, with the attempts left and the number of the generator's next call.
unfoldable pub available_id : Generator → Manager → Reserved → ℕ → ℕ → Result Error Text × ℕ
available_id generate m reserved zero call = (err no_id, call)
available_id generate m reserved (suc left) call = elim (generate call) [
  | err e ↦ (err (failed_at (codes "generate instance ID") e), call + 1)
  | ok text ↦
      let id = to_lower (trim_space text) in
      elim (valid_id id) [
        | false ↦ (err (invalid_id id), call + 1)
        | true ↦ elim (is_taken m reserved id) [
          | true ↦ available_id generate m reserved left (call + 1)
          | false ↦ (ok id, call + 1)
        ]
      ]
]

-- The candidate for a name with a suffix.
unfoldable pub suffixed : Text → ℕ → Text
suffixed base suffix = if ltb 1 suffix then base ++ codes "-" ++ decimal suffix else base

-- `availableNameLocked`, whose loop has no bound: `none` says that the fuel ran out.
unfoldable pub available_name : ℕ → Manager → Reserved → Text → ℕ → Option Text
available_name zero m reserved base suffix = none
available_name (suc fuel) m reserved base suffix =
    elim (is_taken m reserved (suffixed base suffix)) [
      | true ↦ available_name fuel m reserved base (suffix + 1)
      | false ↦ some (suffixed base suffix)
    ]

-- `unicode.IsLetter` or `unicode.IsDigit`, of a rune as its bytes.
abbrev pub Runes : Type 0
Runes = Text → Bool

abbrev is_continuation : ℕ → Bool
is_continuation c = leb 128 c && ltb c 192

abbrev attach_byte : ℕ → List Text → List Text
attach_byte c [] = (c ∷ []) ∷ []
attach_byte c ([] ∷ rs) = (c ∷ []) ∷ rs
attach_byte c ((d ∷ r) ∷ rs) =
    if is_continuation d then (c ∷ d ∷ r) ∷ rs else (c ∷ []) ∷ (d ∷ r) ∷ rs

-- The runes of valid UTF-8.
unfoldable pub runes_of : Text → List Text
runes_of [] = []
runes_of (c ∷ s) = attach_byte c (runes_of s)

abbrev is_mark : Text → Bool
is_mark r = text_eq r (codes "_") || text_eq r (codes ".") || text_eq r (codes "-")

unfoldable pub normalized : Runes → Bool → List Text → Text
normalized is_word separated [] = []
normalized is_word separated (r ∷ rs) =
    let kept = is_word r || is_mark r in
    let rest = normalized is_word (not kept) rs in
    if kept then r ++ rest else if separated then rest else codes "-" ++ rest

abbrev is_edge : ℕ → Bool
is_edge c = c == 46 || c == 45

unfoldable pub trim_edge : Text → Text
trim_edge [] = []
trim_edge (c ∷ s) = if is_edge c then trim_edge s else c ∷ s

abbrev or_default_name : Text → Text
or_default_name [] = codes "onderzeeer"
or_default_name (c ∷ s) = c ∷ s

-- `automaticName`
unfoldable pub automatic_name : Runes → Text → Text
automatic_name is_word path =
    let stem = trim_suffix (ext (base path)) (base path) in
    or_default_name
      (reverse (trim_edge (reverse (trim_edge (normalized is_word false (runes_of stem))))))

unfoldable pub rest_valid : Runes → List Text → Bool
rest_valid is_word [] = true
rest_valid is_word (r ∷ rs) = (is_word r || is_mark r) && rest_valid is_word rs

abbrev display_runes : Runes → List Text → Bool
display_runes is_word [] = false
display_runes is_word (r ∷ rs) = is_word r && rest_valid is_word rs

-- `validDisplayName`
unfoldable pub valid_display_name : Runes → Text → Bool
valid_display_name is_word name = display_runes is_word (runes_of name)
