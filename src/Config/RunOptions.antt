-- ===== src/Config/RunOptions.antt =====
-- internal/config/container_options.go: the options of `docker run` and `podman run`, and which of
-- them take a value.
pub mod Parsing
pub mod Consumption
use slipway.Common.{
  ℕ, suc, ◌+◌, ◌/◌, ◌%◌, Text, codes, text_eq, has_prefix, split_at, cut_at, Bool, true, false, not,
  ◌&&◌, ◌||◌, Option, none, some, List, [], ◌∷◌, ◌++◌, map, ltb, ◌==◌, if◌then◌else◌, drop,
}
use slipway.Config.Commands.{ExecutorType, executor_podman, any_entry}

pub data RunOptionArity : Type 0 where
  run_option_boolean run_option_value : RunOptionArity

-- The maps as lists, in which the last addition comes first.
pub record RunOptionGrammar : Type 0 where
  pub long : List (Text × RunOptionArity)
  pub short : List (ℕ × RunOptionArity)

pub record ContainerRunOption : Type 0 where
  pub name : Text
  pub value : Text
  pub consumed : ℕ
  pub known : Bool
  pub clustered : Bool
  pub interactive : Option Bool
  pub tty : Option Bool
  pub detach : Option Bool

abbrev pub blank_option : ContainerRunOption
blank_option = record {
  name = [];
  value = [];
  consumed = 0;
  known = false;
  clustered = false;
  interactive = none;
  tty = none;
  detach = none;
}

abbrev pub is_any : Text → List Text → Bool
is_any s [] = false
is_any s (t ∷ ts) = text_eq s t || is_any s ts

-- `strings.Fields` of words with one space between them.
abbrev pub words : Text → List Text
words s = split_at 32 s

-- `strconv.ParseBool`
unfoldable pub parse_bool : Text → Option Bool
parse_bool s =
    if is_any s (words (codes "1 t T TRUE true True"))
    then some true
    else if is_any s (words (codes "0 f F FALSE false False"))
    then some false
    else none

unfoldable pub set_terminal : Text → Option Bool → ContainerRunOption → ContainerRunOption
set_terminal name none o = o
set_terminal name (some enabled) o =
    if is_any name (words (codes "interactive i"))
    then record o { interactive = some enabled }
    else if is_any name (words (codes "tty t"))
    then record o { tty = some enabled }
    else if is_any name (words (codes "detach d"))
    then record o { detach = some enabled }
    else o

unfoldable pub record_terminal_boolean : Text → Text → ContainerRunOption → ContainerRunOption
record_terminal_boolean name value o = set_terminal name (parse_bool value) o

abbrev pub add_long_run_options :
    List Text → RunOptionArity → List (Text × RunOptionArity) → List (Text × RunOptionArity)
add_long_run_options [] arity options = options
add_long_run_options (name ∷ names) arity options =
    add_long_run_options names arity ((name, arity) ∷ options)

abbrev add_short_run_options :
    Text → RunOptionArity → List (ℕ × RunOptionArity) → List (ℕ × RunOptionArity)
add_short_run_options [] arity options = options
add_short_run_options (c ∷ s) arity options = add_short_run_options s arity ((c, arity) ∷ options)

abbrev pub new_run_option_grammar : List Text → List Text → Text → Text → RunOptionGrammar
new_run_option_grammar value_long boolean_long value_short boolean_short = record {
  long =
      add_long_run_options boolean_long run_option_boolean
        (add_long_run_options value_long run_option_value []);
  short =
      add_short_run_options boolean_short run_option_boolean
        (add_short_run_options value_short run_option_value []);
}

abbrev pub extend_run_option_grammar : RunOptionGrammar → List Text → List Text → RunOptionGrammar
extend_run_option_grammar base value_long boolean_long = record base {
  long =
      add_long_run_options boolean_long run_option_boolean
        (add_long_run_options value_long run_option_value base.long);
}

pub long_arity : Text → List (Text × RunOptionArity) → Option RunOptionArity
long_arity name [] = none
long_arity name (entry ∷ options) =
    if text_eq entry.0 name then some entry.1 else long_arity name options

unfoldable pub short_arity : ℕ → List (ℕ × RunOptionArity) → Option RunOptionArity
short_arity name [] = none
short_arity name (entry ∷ options) =
    if entry.0 == name then some entry.1 else short_arity name options

abbrev docker_value_options : List Text
docker_value_options =
    words (codes "add-host annotation attach blkio-weight blkio-weight-device cap-add cap-drop")
    ++ words (codes "cgroup-parent cgroupns cidfile cpu-count cpu-percent cpu-period cpu-quota")
    ++ words (codes "cpu-rt-period cpu-rt-runtime cpu-shares cpus cpuset-cpus cpuset-mems")
    ++ words (codes "detach-keys device device-cgroup-rule device-read-bps device-read-iops")
    ++ words (codes "device-write-bps device-write-iops dns dns-opt dns-option dns-search")
    ++ words (codes "domainname entrypoint env env-file expose gpus group-add health-cmd")
    ++ words (codes "health-interval health-retries health-start-interval health-start-period")
    ++ words (codes "health-timeout hostname io-maxbandwidth io-maxiops ip ip6 ipc isolation")
    ++ words (codes "kernel-memory label label-file link link-local-ip log-driver log-opt")
    ++ words
        (codes "mac-address memory memory-reservation memory-swap memory-swappiness mount name")
    ++ words (codes "net net-alias network network-alias oom-score-adj pid pids-limit platform")
    ++ words (codes "publish pull restart runtime security-opt shm-size stop-signal stop-timeout")
    ++ words (codes "storage-opt sysctl tmpfs ulimit user userns uts volume volume-driver")
    ++ words (codes "volumes-from workdir")

abbrev docker_boolean_options : List Text
docker_boolean_options =
    words (codes "detach disable-content-trust help init interactive no-healthcheck")
    ++ words (codes "oom-kill-disable privileged publish-all quiet read-only rm sig-proxy tty")
    ++ words (codes "use-api-socket")

unfoldable pub docker_run_grammar : RunOptionGrammar
docker_run_grammar =
    new_run_option_grammar docker_value_options docker_boolean_options (codes "acehlmpuvw")
      (codes "diPqt")

abbrev podman_value_options : List Text
podman_value_options =
    words (codes "arch authfile cert-dir cgroup-conf cgroups chrootdirs conmon-pidfile creds")
    ++ words (codes "decryption-key env-merge gidmap group-entry health-log-destination")
    ++ words (codes "health-max-log-count health-max-log-size health-on-failure health-startup-cmd")
    ++ words (codes "health-startup-interval health-startup-retries health-startup-success")
    ++ words (codes "health-startup-timeout hosts-file hostuser image-volume init-path os")
    ++ words (codes "passwd-entry personality pidfile pod pod-id-file preserve-fd preserve-fds")
    ++ words (codes "rdt-class requires retry retry-delay sdnotify seccomp-policy secret")
    ++ words (codes "shm-size-systemd signature-policy subgidname subuidname systemd timeout tz")
    ++ words (codes "uidmap umask unsetenv variant")

abbrev podman_boolean_options : List Text
podman_boolean_options =
    words (codes "env-host http-proxy no-hostname no-hosts read-only-tmpfs replace rmi rootfs")
    ++ words (codes "passwd tls-verify unsetenv-all")

pub podman_run_grammar : RunOptionGrammar
unfolding docker_run_grammar
podman_run_grammar =
    extend_run_option_grammar docker_run_grammar podman_value_options podman_boolean_options
