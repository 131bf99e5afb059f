-- ===== src/Config/Commands.antt =====
-- internal/config/config.go: one step of a pipeline, and the arguments that its process gets.
use slipway.Common.{
  ℕ, ℤ, suc, Text, codes, Bool, true, false, not, ◌&&◌, ◌||◌, Option, none, some, List, [], ◌∷◌,
  ◌++◌, map, ◌==◌, if◌then◌else◌,
}
use slipway.Executor.Environment.{Env, sort_texts, get}
use slipway.Config.Csv.{format_csv_fields}

pub data ExecutorType : Type 0 where
  executor_command executor_shell executor_docker executor_podman executor_apptainer : ExecutorType

pub record MountConfig : Type 0 where
  pub source : Text
  pub target : Text
  pub options : List Text

pub record CommandConfig : Type 0 where
  pub name : Text
  pub executor : ExecutorType
  pub program : Text
  pub args : List Text
  pub image : Text
  pub mounts : List MountConfig
  pub container_env : Env
  pub container_args : List Text
  pub command : Text
  pub command_args : List Text
  pub timeout : ℤ
  pub working_dir : Text
  pub output : Text
  pub env : Env
  pub structured_container : Bool
  pub container_command_set : Bool
  pub raw_args_set : Bool
  pub container_fields_set : Bool

abbrev pub is_shell : ExecutorType → Bool
is_shell executor_shell = true
is_shell _ = false

abbrev pub is_apptainer : ExecutorType → Bool
is_apptainer executor_apptainer = true
is_apptainer _ = false

abbrev pub any_entry {ℓ} : {A : Type ℓ} → List A → Bool
any_entry [] = false
any_entry (x ∷ xs) = true

unfoldable pub uses_structured_container : CommandConfig → Bool
uses_structured_container c =
    c.structured_container
    || any_entry c.image
    || any_entry c.mounts
    || any_entry c.container_env
    || any_entry c.container_args
    || any_entry c.command
    || any_entry c.command_args

unfoldable pub uses_container_fields : CommandConfig → Bool
uses_container_fields c =
    c.container_fields_set
    || any_entry c.image
    || any_entry c.mounts
    || any_entry c.container_env
    || any_entry c.container_args

-- `strings.Count(environment, "=")`, and whether a byte occurs.
abbrev pub count_byte : ℕ → Text → ℕ
count_byte b [] = 0
count_byte b (c ∷ s) = let n = count_byte b s in if c == b then suc n else n

abbrev pub has_byte : ℕ → Text → Bool
has_byte b [] = false
has_byte b (c ∷ s) = c == b || has_byte b s

pub apptainer_fields : Text → List Text
apptainer_fields environment =
    if count_byte 61 environment == 1 && has_byte 34 environment
    then environment ∷ environment ∷ []
    else environment ∷ []

pub format_apptainer_environment : Text → Text
format_apptainer_environment environment = format_csv_fields (apptainer_fields environment)

abbrev pub mount_fields : MountConfig → List Text
mount_fields m =
    codes "type=bind" ∷ (codes "source=" ++ m.source) ∷ (codes "target=" ++ m.target) ∷ m.options

pub format_bind_mount : MountConfig → Text
format_bind_mount m = format_csv_fields (mount_fields m)

abbrev or_blank : Option Text → Text
or_blank none = []
or_blank (some s) = s

abbrev environment_value : ExecutorType → Text → Text
environment_value executor s = if is_apptainer executor then format_apptainer_environment s else s

abbrev env_args : ExecutorType → Env → List Text → List Text
env_args executor env [] = []
env_args executor env (key ∷ keys) =
    codes "--env"
    ∷ environment_value executor (key ++ codes "=" ++ or_blank (get key env))
    ∷ env_args executor env keys

abbrev mount_args : List MountConfig → List Text
mount_args [] = []
mount_args (m ∷ ms) = codes "--mount" ∷ format_bind_mount m ∷ mount_args ms

-- The keys in their order.
abbrev sorted_keys : Env → List Text
sorted_keys env = sort_texts (map (λ kv. kv.0) env)

abbrev operation : CommandConfig → Text
operation c = if is_apptainer c.executor && any_entry c.command then codes "exec" else codes "run"

abbrev no_eval : ExecutorType → List Text
no_eval executor = if is_apptainer executor then codes "--no-eval" ∷ [] else []

-- The options of the runtime, in front of the image.
abbrev pub runtime_options : CommandConfig → List Text
runtime_options c =
    operation c ∷ no_eval c.executor
    ++ c.container_args
    ++ mount_args c.mounts
    ++ env_args c.executor c.container_env (sorted_keys c.container_env)

abbrev pub command_word : CommandConfig → List Text
command_word c = if any_entry c.command then c.command ∷ [] else []

unfoldable pub execution_args : CommandConfig → List Text
execution_args c =
    if is_shell c.executor
    then codes "-c" ∷ c.command ∷ c.name ∷ c.command_args
    else if not (uses_structured_container c)
    then c.args
    else runtime_options c ++ c.image ∷ command_word c ++ c.command_args
