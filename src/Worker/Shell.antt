-- ===== src/Worker/Shell.antt =====
-- What reaches a shell of a job's values (internal/worker/worker.go, internal/config/config.go).
use slipway.Common.{
  Text, codes, true, false, none, List, [], ◌∷◌, map, All, ◌≡◌, refl, sym, ◌∙◌, arith,
}
use slipway.Executor.Expander.{Expander, expand}
use slipway.Config.Commands.{CommandConfig, any_entry, is_shell, execution_args}
use slipway.Config.Validation.{
  contains, least_template, per_job_templates, built_in_per_job_template, validate_shell,
  validate_execution,
}
use slipway.Config.Mounts.{both_pass, reject_if-none}
use slipway.Worker.Expansion.{expand_configured_command, command_from_config}

abbrev pub IsAbsent : Text → Text → Type 0
IsAbsent value template = contains template value ≡ false

-- The least template is only empty if nothing was found.
least_template-empty :
    (value : Text) (ts : List Text) (first : Text)
    → All (λ t. any_entry t ≡ true) ts
    → any_entry (least_template value ts first) ≡ false
    → (any_entry first ≡ false) × All (IsAbsent value) ts
unfolding least_template
least_template-empty value [] first full h = (h, tt)
least_template-empty value (t ∷ ts) first full h =
    let (kept, absent) = least_template-empty value ts _ full.1 h in
    (ground (arith, kept, full.0), (ground (arith, kept, full.0), absent))

no_template :
    (c : CommandConfig) → validate_shell c ≡ none → All (IsAbsent c.command) per_job_templates
unfolding validate_shell built_in_per_job_template
no_template c h =
    let (args, h1) = both_pass h in
    let (fields, h2) = both_pass h1 in
    let (blank, h3) = both_pass h2 in
    (least_template-empty c.command per_job_templates []
      (refl, (refl, (refl, (refl, (refl, (refl, tt)))))) (reject_if-none _ h3)).1

module _ (x : Expander) (c : CommandConfig) (s : is_shell c.executor ≡ true) where
  script_kept : (expand_configured_command x c).command ≡ c.command
  unfolding expand_configured_command
  script_kept = rw s refl

  validated :
      validate_execution (expand_configured_command x c)
      ≡ validate_shell (expand_configured_command x c)
  unfolding expand_configured_command validate_execution
  validated = rw s refl

  shell_args :
      (command_from_config (expand_configured_command x c)).args
      ≡ codes "-c" ∷ c.command ∷ c.name ∷ map (expand x) c.command_args
  unfolding expand_configured_command command_from_config execution_args
  shell_args = rw s refl

  -- However the values of a job look, a shell step that passes the checks hands its script to the
  -- shell as it is configured, under `-c` and before the step's name; the script contains no
  -- template, and the job's values are only in the arguments behind the name.
  pub shell_script_fixed :
      validate_execution (expand_configured_command x c) ≡ none
      → ((command_from_config (expand_configured_command x c)).args
          ≡ codes "-c" ∷ c.command ∷ c.name ∷ map (expand x) c.command_args)
        × All (IsAbsent c.command) per_job_templates
  shell_script_fixed h = (
    shell_args,
    rw (← script_kept) (no_template (expand_configured_command x c) (sym validated ∙ h)),
  )
