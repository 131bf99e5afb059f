-- ===== src/Config/Examples.antt =====
-- A step that runs in a container (internal/config): the theorems at inputs that meet their
-- hypotheses.
use slipway.Common.{
  ◌++◌, Text, codes, is_blank, text_eq, pos, true, false, none, some, List, [], ◌∷◌, All, ◌≡◌, refl,
}
use slipway.Config.Commands.{
  MountConfig, CommandConfig, executor_docker, uses_structured_container, runtime_options,
  command_word, execution_args,
}
use slipway.Config.Validation.{
  validate_execution, validate_structured_container, reserved_bind_mount_option_key, ◌then_check◌,
  reject_if, validate_mounts, validate_mount, validate_options, validate_option,
  container_target_can_be_absolute, validate_env, validate_container_args,
}
use slipway.Config.RunOptions.{
  short_arity, docker_run_grammar, record_terminal_boolean, set_terminal, parse_bool,
}
use slipway.Config.RunOptions.Parsing.{parse_short, parse_short_value, parse_container_run_option}
use slipway.Config.RunOptions.Consumption.{IsWithin, parse_container_run_option-IsWithin}
use slipway.Config.Mounts.{IsNoEnd, IsMountSafe, validate_execution_lem}

abbrev data_mount : MountConfig
data_mount = record {
  source = codes "/srv/a,b";
  target = codes "/data";
  options = codes "readonly" ∷ [];
}

abbrev contained : CommandConfig
contained = record {
  name = codes "convert";
  executor = executor_docker;
  program = codes "docker";
  args = [];
  image = codes "tools";
  mounts = data_mount ∷ [];
  container_env = (codes "LANG", codes "C") ∷ [];
  container_args = codes "--rm" ∷ [];
  command = [];
  command_args = [];
  timeout = pos 0;
  working_dir = [];
  output = [];
  env = [];
  structured_container = true;
  container_command_set = false;
  raw_args_set = false;
  container_fields_set = true;
}

validate_execution_lem_example :
    (is_blank contained.image ≡ false)
    × (execution_args contained
        ≡ runtime_options contained
          ++ contained.image ∷ command_word contained
          ++ contained.command_args)
    × All IsNoEnd contained.container_args
    × All IsMountSafe contained.mounts
unfolding validate_mounts validate_mount validate_options validate_option
    container_target_can_be_absolute validate_env validate_container_args uses_structured_container
    validate_execution validate_structured_container is_blank text_eq reserved_bind_mount_option_key
    ◌then_check◌ reject_if
validate_execution_lem_example = validate_execution_lem contained refl refl refl

abbrev run_args : List Text
run_args = codes "-itv" ∷ codes "/srv:/data" ∷ codes "tools" ∷ []

-- The clustered short names take the next argument for the volume.
run_args_parsed : parse_container_run_option executor_docker run_args ≡ (
  record {
    name = codes "volume";
    value = codes "/srv:/data";
    consumed = 2;
    known = true;
    clustered = true;
    interactive = some true;
    tty = some true;
    detach = none;
  },
  [],
)
unfolding parse_container_run_option parse_short parse_short_value short_arity docker_run_grammar
    record_terminal_boolean set_terminal parse_bool text_eq
run_args_parsed = refl

parse_container_run_option-IsWithin_example :
    IsWithin run_args (parse_container_run_option executor_docker run_args)
parse_container_run_option-IsWithin_example =
    parse_container_run_option-IsWithin executor_docker run_args
