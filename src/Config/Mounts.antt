-- ===== src/Config/Mounts.antt =====
-- What the checks of internal/config/config.go guarantee of a step that runs in a container.
use slipway.Common.{
  ◌≢◌, ap, ◌∙◌, not, has_prefix, and_true, ==_iff, ℕ, suc, Text, codes, is_blank, text_eq, Bool,
  true, false, Option, none, some, List, [], ◌∷◌, ◌++◌, All, ◌≡◌, refl, ◌⊎◌, inl, inr, Bool-cases,
}
use slipway.Config.Commands.{
  MountConfig, CommandConfig, is_shell, uses_structured_container, runtime_options, command_word,
  execution_args,
}
use slipway.Config.Validation.{
  ◌then_check◌, reject_if, option_key, reserved_bind_mount_option_key, validate_option,
  validate_options, container_target_can_be_absolute, validate_mount, validate_mounts,
  validate_container_args, validate_structured_container, validate_execution,
}

-- Of two checks that pass together, both pass.
pub both_pass : {a b : Option Text} → (a then_check b) ≡ none → (a ≡ none) × (b ≡ none)
unfolding ◌then_check◌
both_pass {a = none} h = (refl, h)
both_pass {a = some e} h = cc

pub reject_if-none : {b : Bool} (e : Text) → reject_if b e ≡ none → b ≡ false
unfolding reject_if
reject_if-none {b = true} e h = cc
reject_if-none {b = false} e h = refl

-- The words that a mount uses for its type, its source and its target.
abbrev pub mount_words : List Text
mount_words =
    codes "type"
    ∷ codes "source"
    ∷ codes "src"
    ∷ codes "target"
    ∷ codes "destination"
    ∷ codes "dest"
    ∷ codes "dst"
    ∷ []

-- The option is neither the word nor an assignment to it.
abbrev pub IsOther : Text → Text → Type 0
IsOther option word = (option ≢ word) × ((value : Text) → option ≢ word ++ 61 ∷ value)

abbrev pub IsOptionSafe : Text → Type 0
IsOptionSafe option = (is_blank option ≡ false) × All (IsOther option) mount_words

-- The target begins at the root, or with a template of a path.
abbrev pub IsRooted : Text → Type 0
IsRooted t =
    (u : Text) × ((t ≡ codes "/" ++ u) ⊎ (t ≡ codes "{{file}}" ++ u) ⊎ (t ≡ codes "{{dir}}" ++ u))

-- The source and the target are given, and no option sets the type, the source or the target again.
pub record IsMountSafe (m : MountConfig) : Type 0 where
  pub source : is_blank m.source ≡ false
  pub target : is_blank m.target ≡ false
  pub absolute : IsRooted m.target
  pub options : All IsOptionSafe m.options

module _ (option : Text) (free : reserved_bind_mount_option_key (option_key option) ≡ false) where
  not_reserved :
      (word : Text) → reserved_bind_mount_option_key word ≡ true → option_key option ≢ word
  not_reserved word reserved same = cc (ap reserved_bind_mount_option_key same, reserved, free)

  word-IsOther :
      (word : Text)
      → option_key word ≡ word
      → ((value : Text) → option_key (word ++ 61 ∷ value) ≡ word)
      → reserved_bind_mount_option_key word ≡ true
      → IsOther option word
  word-IsOther word alone assigned reserved = (
    λ e. not_reserved word reserved (ap option_key e ∙ alone),
    λ value e. not_reserved word reserved (ap option_key e ∙ assigned value),
  )

  words-IsOther : All (IsOther option) mount_words
  unfolding reserved_bind_mount_option_key text_eq
  words-IsOther = (
    word-IsOther (codes "type") refl (λ v. refl) refl,
    (
      word-IsOther (codes "source") refl (λ v. refl) refl,
      (
        word-IsOther (codes "src") refl (λ v. refl) refl,
        (
          word-IsOther (codes "target") refl (λ v. refl) refl,
          (
            word-IsOther (codes "destination") refl (λ v. refl) refl,
            (
              word-IsOther (codes "dest") refl (λ v. refl) refl,
              (word-IsOther (codes "dst") refl (λ v. refl) refl, tt),
            ),
          ),
        ),
      ),
    ),
  )

safe_option : (place option : Text) → validate_option place option ≡ none → IsOptionSafe option
unfolding validate_option
safe_option place option h =
    let (blank, h1) = both_pass h in
    let (nul, h2) = both_pass h1 in
    let (key, h3) = both_pass h2 in
    (reject_if-none _ blank, words-IsOther option (reject_if-none _ h3))

safe_options :
    (place : Text) (i : ℕ) (options : List Text)
    → validate_options place i options ≡ none
    → All IsOptionSafe options
unfolding validate_options
safe_options place i [] h = tt
safe_options place i (o ∷ os) h =
    let (first, rest) = both_pass h in (safe_option _ o first, safe_options place (suc i) os rest)

has_prefix_lem : (p t : Text) → has_prefix p t ≡ true → (u : Text) × (t ≡ p ++ u)
has_prefix_lem [] t h = (t, refl)
has_prefix_lem (b ∷ p) [] h = absurd (cc)
has_prefix_lem (b ∷ p) (c ∷ t) h =
    let (same, rest) = and_true h in
    let (u, e) = has_prefix_lem p t rest in let first : b ≡ c = (==_iff b c).0 same in (u, cc)

rooted : (t : Text) → container_target_can_be_absolute t ≡ true → IsRooted t
unfolding container_target_can_be_absolute
rooted t h = elim (Bool-cases (has_prefix (codes "/") t)) [
  | inl e ↦ let (u, at) = has_prefix_lem (codes "/") t e in (u, inl at)
  | inr no_root ↦ elim (Bool-cases (has_prefix (codes "{{file}}") t)) [
    | inl e ↦ let (u, at) = has_prefix_lem (codes "{{file}}") t e in (u, inr (inl at))
    | inr no_file ↦
        let (u, at) = has_prefix_lem (codes "{{dir}}") t (rw (no_root, no_file) at h) in
        (u, inr (inr at))
  ]
]

not-false : {b : Bool} → not b ≡ false → b ≡ true
not-false {b = true} h = refl
not-false {b = false} h = cc

safe_mount : (place : Text) (m : MountConfig) → validate_mount place m ≡ none → IsMountSafe m
unfolding validate_mount
safe_mount place m h =
    let (source, h1) = both_pass h in
    let (target, h2) = both_pass h1 in
    let (absolute, h3) = both_pass h2 in
    record {
      source = reject_if-none _ source;
      target = reject_if-none _ target;
      absolute = rooted m.target (not-false (reject_if-none _ absolute));
      options = safe_options place 0 m.options h3;
    }

safe_mounts : (i : ℕ) (ms : List MountConfig) → validate_mounts i ms ≡ none → All IsMountSafe ms
unfolding validate_mounts
safe_mounts i [] h = tt
safe_mounts i (m ∷ ms) h =
    let (first, rest) = both_pass h in (safe_mount _ m first, safe_mounts (suc i) ms rest)

-- The word that would end the options of the runtime.
abbrev pub IsNoEnd : Text → Type 0
IsNoEnd argument = text_eq argument (codes "--") ≡ false

safe_args : (i : ℕ) (args : List Text) → validate_container_args i args ≡ none → All IsNoEnd args
unfolding validate_container_args
safe_args i [] h = tt
safe_args i (a ∷ args) h =
    let (first, rest) = both_pass h in (reject_if-none _ first, safe_args (suc i) args rest)

-- A step that runs in a container and passes the checks has an image that is not blank, which the
-- runtime gets behind its own options; none of the configured arguments ends these options; of each
-- mount the source and the target are given, the target absolute or by the template of a path; and
-- no option of a mount is blank or sets the type, the source or the target again, under any of their
-- names.
pub validate_execution_lem :
    (c : CommandConfig)
    → is_shell c.executor ≡ false
    → uses_structured_container c ≡ true
    → validate_execution c ≡ none
    → (is_blank c.image ≡ false)
      × (execution_args c ≡ runtime_options c ++ c.image ∷ command_word c ++ c.command_args)
      × All IsNoEnd c.container_args
      × All IsMountSafe c.mounts
unfolding validate_execution validate_structured_container execution_args
validate_execution_lem c s u h =
    let (args, h1) = both_pass (rw (s, u) at h) in
    let (image, h2) = both_pass h1 in
    let (word, h3) = both_pass h2 in
    let (mounts, h4) = both_pass h3 in
    let (env, h5) = both_pass h4 in
    (
      reject_if-none _ image,
      rw (s, u) refl,
      safe_args 0 c.container_args h5,
      safe_mounts 0 c.mounts mounts,
    )
