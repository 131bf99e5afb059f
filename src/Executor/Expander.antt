-- ===== src/Executor/Expander.antt =====
-- internal/executor/executor.go: the expansion of templates for one job, with `strings.Replacer`'s
-- single pass from left to right (the first of its keys that the rest begins with is replaced, and
-- the replacement is not scanned again).
use slipway.Common.{
  ℕ, zero, suc, ◌-◌, Text, codes, decimal, ext, base, dir, trim_suffix, has_prefix, Option, none,
  some, List, [], ◌∷◌, ◌++◌, length, if◌then◌else◌,
}

-- A job's id is positive.
pub record TemplateData : Type 0 where
  pub file : Text
  pub job_id : ℕ

abbrev pub Pairs : Type 0
Pairs = List (Text × Text)

-- The pairs of the replacer; `none` is the zero value of `Expander`.
pub record Expander : Type 0 where
  pub replacer : Option Pairs

abbrev pub stem : Text → Text
stem file = trim_suffix (ext file) (base file)

abbrev pub template_pairs : TemplateData → Pairs
template_pairs t =
    (codes "{{file}}", t.file)
    ∷ (codes "{{dir}}", dir t.file)
    ∷ (codes "{{basename}}", base t.file)
    ∷ (codes "{{stem}}", stem t.file)
    ∷ (codes "{{ext}}", ext t.file)
    ∷ (codes "{{job_id}}", decimal t.job_id)
    ∷ []

unfoldable pub new_expander : TemplateData → Expander
new_expander t = record { replacer = some (template_pairs t) }

-- The first pair whose key the text begins with.
abbrev pub key_at : Pairs → Text → Option (Text × Text)
key_at [] s = none
key_at ((key, value) ∷ ps) s = if has_prefix key s then some (key, value) else key_at ps s

-- The number is that of the bytes of a replaced key still to pass over.
unfoldable pub replace_from : Pairs → ℕ → Text → Text
replace_from ps skip [] = []
replace_from ps (suc skip) (c ∷ s) = replace_from ps skip s
replace_from ps zero (c ∷ s) = elim (key_at ps (c ∷ s)) [
  | none ↦ c ∷ replace_from ps zero s
  | some (key, value) ↦ value ++ replace_from ps (length key - 1) s
]

unfoldable pub expand : Expander → Text → Text
expand x value = elim x.replacer [ none ↦ value | some ps ↦ replace_from ps zero value ]
