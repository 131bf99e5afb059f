-- ===== src/Config/RunOptions/Parsing.antt =====
-- internal/config/container_options.go: one option of a command line, and how many arguments it takes.
use slipway.Common.{
  ℕ, ◌+◌, ◌/◌, ◌%◌, Text, codes, has_prefix, cut_at, Bool, true, false, not, ◌&&◌, Option, none,
  some, List, [], ◌∷◌, ◌++◌, ltb, ◌==◌, if◌then◌else◌, drop,
}
use slipway.Config.Commands.{ExecutorType, executor_podman, any_entry}
use slipway.Config.RunOptions.{
  RunOptionArity, run_option_boolean, run_option_value, RunOptionGrammar, ContainerRunOption,
  blank_option, record_terminal_boolean, long_arity, short_arity, docker_run_grammar,
  podman_run_grammar,
}

abbrev is_podman : ExecutorType → Bool
is_podman executor_podman = true
is_podman _ = false

abbrev pub grammar_of : ExecutorType → RunOptionGrammar
grammar_of executor = if is_podman executor then podman_run_grammar else docker_run_grammar

-- An option and no reason, or no option and a reason.
abbrev pub Parsed : Type 0
Parsed = ContainerRunOption × Text

abbrev pub fail_with : Text → Parsed
fail_with reason = (blank_option, reason)

-- The value of a long option is the next argument.
unfoldable pub long_value : Text → List Text → Parsed
long_value name [] = fail_with (codes "value is missing")
long_value name (value ∷ others) =
    (record blank_option { name = name; value = value; consumed = 2; known = true }, [])

-- `--name` of an arity, and the arguments behind it.
unfoldable pub parse_arity : Text → Option RunOptionArity → List Text → Parsed
parse_arity name none rest = fail_with (codes "unknown option arity")
parse_arity name (some run_option_boolean) rest = (
  record_terminal_boolean name (codes "true")
      (record blank_option { name = name; consumed = 1; known = true }),
  [],
)
parse_arity name (some run_option_value) rest = long_value name rest

unfoldable pub parse_long_name : RunOptionGrammar → Text → List Text → Parsed
parse_long_name grammar name rest = parse_arity name (long_arity name grammar.long) rest

abbrev is_known : Option RunOptionArity → Bool
is_known none = false
is_known (some arity) = true

-- What stands behind `--`, cut at its first equals sign.
unfoldable pub parse_cut : RunOptionGrammar → Text → Option (Text × Text) → List Text → Parsed
parse_cut grammar name_value none rest = parse_long_name grammar name_value rest
parse_cut grammar name_value (some (name, value)) rest =
    if not (any_entry name) then fail_with (codes "option name is blank") else (
      record_terminal_boolean name value (record blank_option {
        name = name;
        value = value;
        consumed = 1;
        known = is_known (long_arity name grammar.long);
      }),
      [],
    )

unfoldable pub parse_long : RunOptionGrammar → Text → List Text → Parsed
parse_long grammar name_value rest =
    if not (any_entry name_value)
    then fail_with (codes "option name is blank")
    else parse_cut grammar name_value (cut_at 61 name_value) rest

-- The UTF-8 encoding of a rune that a byte is converted to.
abbrev pub rune_text : ℕ → Text
rune_text c = if ltb c 128 then c ∷ [] else (0xC0 + c / 64) ∷ (0x80 + c % 64) ∷ []

-- The values that a short name has a meaning for.
abbrev short_value_name : ℕ → Text
short_value_name c = if c == 101 then codes "env" else if c == 118 then codes "volume" else []

abbrev strip_equals : Text → Text
strip_equals s = if has_prefix (codes "=") s then drop 1 s else s

-- A short name that takes a value: the bytes attached to it, or the next argument.
unfoldable pub parse_short_value : ContainerRunOption → Bool → ℕ → Text → List Text → Parsed
parse_short_value option later c attached rest =
    let name = short_value_name c in
    let done = record option { name = name; clustered = any_entry name && later } in
    if any_entry attached
    then (record done { value = strip_equals attached; consumed = 1 }, [])
    else (elim rest [
      | [] ↦ fail_with (codes "value for -" ++ rune_text c ++ codes " is missing")
      | value ∷ others ↦ (record done { value = value; consumed = 2 }, [])
    ])

-- The short names behind `-`; the Boolean says that some went before.
unfoldable pub parse_short :
    RunOptionGrammar → ContainerRunOption → Bool → Text → List Text → Parsed
parse_short grammar option later [] rest = (option, [])
parse_short grammar option later (c ∷ s) rest = elim (short_arity c grammar.short) [
  | none ↦ fail_with (codes "unknown shorthand -" ++ rune_text c)
  | some run_option_boolean ↦ elim (has_prefix (codes "=") s) [
    | true ↦ (record_terminal_boolean (rune_text c) (drop 1 s) option, [])
    | false ↦
        parse_short grammar (record_terminal_boolean (rune_text c) (codes "true") option) true s
          rest
  ]
  | some run_option_value ↦ parse_short_value option later c s rest
]

unfoldable pub parse_container_run_option : ExecutorType → List Text → Parsed
parse_container_run_option executor [] = fail_with (codes "option is missing")
parse_container_run_option executor (argument ∷ rest) =
    if has_prefix (codes "--") argument
    then parse_long (grammar_of executor) (drop 2 argument) rest
    else (let shorthands = if has_prefix (codes "-") argument then drop 1 argument else argument in
        if not (any_entry shorthands)
        then fail_with (codes "option name is blank")
        else parse_short (grammar_of executor) (record blank_option { consumed = 1; known = true })
            false shorthands rest)
