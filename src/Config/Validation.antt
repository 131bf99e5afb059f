-- ===== src/Config/Validation.antt =====
-- internal/config/config.go: the checks on one step of a pipeline, before it runs.
use slipway.Common.{
  ℕ, suc, Text, codes, is_blank, text_eq, text_leb, has_prefix, cut_at, decimal, quote, Bool, not,
  ◌&&◌, ◌||◌, Option, none, some, List, [], ◌∷◌, ◌++◌, if◌then◌else◌,
}
use slipway.Executor.Environment.{Env}
use slipway.Config.Commands.{
  MountConfig, CommandConfig, is_shell, any_entry, has_byte, uses_structured_container,
  uses_container_fields,
}

-- The first error of two checks.
infixr 30 ◌then_check◌
unfoldable pub ◌then_check◌ : Option Text → Option Text → Option Text
none then_check next = next
(some e) then_check next = some e

unfoldable pub reject_if : Bool → Text → Option Text
reject_if b e = if b then some e else none

-- `strings.Contains(value, template)`
abbrev pub contains : Text → Text → Bool
contains t [] = has_prefix t []
contains t (c ∷ s) = has_prefix t (c ∷ s) || contains t s

abbrev pub per_job_templates : List Text
per_job_templates =
    codes "{{file}}"
    ∷ codes "{{dir}}"
    ∷ codes "{{basename}}"
    ∷ codes "{{stem}}"
    ∷ codes "{{ext}}"
    ∷ codes "{{job_id}}"
    ∷ []

-- The least of the templates that the value contains, empty without one. Go visits them in any
-- order, which makes no difference to the least.
unfoldable pub least_template : Text → List Text → Text → Text
least_template value [] first = first
least_template value (t ∷ ts) first =
    least_template value ts
      (if contains t value && (not (any_entry first) || not (text_leb first t)) then t else first)

unfoldable pub built_in_per_job_template : Text → Text
built_in_per_job_template value = least_template value per_job_templates []

unfoldable pub validate_shell : CommandConfig → Option Text
validate_shell c =
    reject_if (c.raw_args_set || any_entry c.args) (
      codes
        "args are not supported by the shell executor; use command_args for positional arguments")
    then_check reject_if (uses_container_fields c)
        (codes "container fields are not supported by the shell executor")
    then_check reject_if (is_blank c.command)
        (codes "command is required and must not be blank for the shell executor")
    then_check reject_if (any_entry (built_in_per_job_template c.command)) (
        codes "command must not contain the built-in per-job template "
        ++ built_in_per_job_template c.command
        ++ codes "; pass per-job values through command_args or env")

unfoldable pub reserved_bind_mount_option_key : Text → Bool
reserved_bind_mount_option_key key =
    text_eq key (codes "type")
    || text_eq key (codes "source")
    || text_eq key (codes "src")
    || text_eq key (codes "target")
    || text_eq key (codes "destination")
    || text_eq key (codes "dest")
    || text_eq key (codes "dst")

unfoldable pub container_target_can_be_absolute : Text → Bool
container_target_can_be_absolute target =
    has_prefix (codes "/") target
    || has_prefix (codes "{{file}}") target
    || has_prefix (codes "{{dir}}") target

abbrev indexed : Text → ℕ → Text
indexed name index = name ++ codes "[" ++ decimal index ++ codes "]"

-- What stands before the first equals sign, all of it without one.
abbrev pub option_key : Text → Text
option_key option = elim (cut_at 61 option) [ none ↦ option | some kv ↦ kv.0 ]

unfoldable pub validate_option : Text → Text → Option Text
validate_option place option =
    reject_if (is_blank option) (place ++ codes " must not be blank")
    then_check reject_if (has_byte 0 option) (place ++ codes " must not contain a NUL byte")
    then_check reject_if (is_blank (option_key option))
        (place ++ codes " must have a non-blank key")
    then_check reject_if (reserved_bind_mount_option_key (option_key option)) (
        place ++ codes " must not override reserved bind mount field " ++ quote (option_key option))

unfoldable pub validate_options : Text → ℕ → List Text → Option Text
validate_options place index [] = none
validate_options place index (option ∷ options) =
    validate_option (indexed (place ++ codes ".options") index) option
    then_check validate_options place (suc index) options

unfoldable pub validate_mount : Text → MountConfig → Option Text
validate_mount place m =
    reject_if (is_blank m.source) (place ++ codes ".source is required")
    then_check reject_if (is_blank m.target) (place ++ codes ".target is required")
    then_check reject_if (not (container_target_can_be_absolute m.target))
        (place ++ codes ".target must be an absolute container path")
    then_check validate_options place 0 m.options

unfoldable pub validate_mounts : ℕ → List MountConfig → Option Text
validate_mounts index [] = none
validate_mounts index (m ∷ ms) =
    validate_mount (indexed (codes "mounts") index) m then_check validate_mounts (suc index) ms

unfoldable pub validate_env : Env → Option Text
validate_env [] = none
validate_env (kv ∷ env) =
    reject_if (not (any_entry kv.0) || has_byte 61 kv.0 || has_byte 0 kv.0)
      (codes "container_env contains invalid variable name " ++ quote kv.0)
    then_check validate_env env

unfoldable pub validate_container_args : ℕ → List Text → Option Text
validate_container_args index [] = none
validate_container_args index (argument ∷ arguments) =
    reject_if (text_eq argument (codes "--")) (
      indexed (codes "container_args") index
      ++ codes
          " must not be -- because generated mount and environment options follow container_args")
    then_check validate_container_args (suc index) arguments

unfoldable pub validate_structured_container : CommandConfig → Option Text
validate_structured_container c =
    reject_if (any_entry c.args) (
      codes
        "args cannot be combined with structured container fields; use container_args and command_args")
    then_check reject_if (is_blank c.image)
        (codes "image is required for structured container execution")
    then_check reject_if ((c.container_command_set || any_entry c.command) && is_blank c.command)
        (codes "command must not be blank")
    then_check validate_mounts 0 c.mounts
    then_check validate_env c.container_env
    then_check validate_container_args 0 c.container_args

unfoldable pub validate_execution : CommandConfig → Option Text
validate_execution c =
    if is_shell c.executor
    then validate_shell c
    else if not (uses_structured_container c)
    then none
    else validate_structured_container c
