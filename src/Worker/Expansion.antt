-- ===== src/Worker/Expansion.antt =====
-- internal/worker/worker.go: a configured step for one job. A nil slice or map is an empty one.
use slipway.Common.{Text, List, map, if◌then◌else◌}
use slipway.Executor.Expander.{Expander, expand}
use slipway.Executor.Environment.{Env}
use slipway.Executor.Execute.{Command}
use slipway.Config.Commands.{MountConfig, CommandConfig, is_shell, execution_args}

abbrev pub expand_configured_strings : Expander → List Text → List Text
expand_configured_strings x values = map (expand x) values

abbrev pub expand_configured_environment : Expander → Env → Env
expand_configured_environment x values = map (λ kv. (kv.0, expand x kv.1)) values

abbrev pub expand_mount : Expander → MountConfig → MountConfig
expand_mount x m = record {
  source = expand x m.source;
  target = expand x m.target;
  options = expand_configured_strings x m.options;
}

unfoldable pub expand_configured_command : Expander → CommandConfig → CommandConfig
expand_configured_command x c = record c {
  args = expand_configured_strings x c.args;
  image = expand x c.image;
  container_args = expand_configured_strings x c.container_args;
  command = if is_shell c.executor then c.command else expand x c.command;
  command_args = expand_configured_strings x c.command_args;
  working_dir = expand x c.working_dir;
  output = expand x c.output;
  mounts = map (expand_mount x) c.mounts;
  container_env = expand_configured_environment x c.container_env;
  env = expand_configured_environment x c.env;
}

unfoldable pub command_from_config : CommandConfig → Command
command_from_config c = record {
  name = c.name;
  program = c.program;
  args = execution_args c;
  timeout = c.timeout;
  working_dir = c.working_dir;
  output = c.output;
  env = c.env;
}
