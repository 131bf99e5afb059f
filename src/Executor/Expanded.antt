-- ===== src/Executor/Expanded.antt =====
-- What the expansion of templates (internal/executor/executor.go) makes of a value.
use slipway.Common.{
  ℕ, zero, Text, codes, decimal, ext, base, dir, none, List, [], ◌∷◌, ◌++◌, ◌≡◌, refl,
}
use slipway.Executor.Expander.{
  Pairs, TemplateData, stem, template_pairs, new_expander, key_at, replace_from, expand,
}

-- What a configured value is made of.
pub data Piece : Type 0 where
  byte : ℕ → Piece
  file_name directory base_name stem_name extension job_number : Piece

abbrev pub template : Piece → Text
template (byte c) = c ∷ []
template file_name = codes "{{file}}"
template directory = codes "{{dir}}"
template base_name = codes "{{basename}}"
template stem_name = codes "{{stem}}"
template extension = codes "{{ext}}"
template job_number = codes "{{job_id}}"

abbrev pub value_of : TemplateData → Piece → Text
value_of t (byte c) = c ∷ []
value_of t file_name = t.file
value_of t directory = dir t.file
value_of t base_name = base t.file
value_of t stem_name = stem t.file
value_of t extension = ext t.file
value_of t job_number = decimal t.job_id

unfoldable pub written : List Piece → Text
written [] = []
written (p ∷ ps) = template p ++ written ps

pub meaning : TemplateData → List Piece → Text
meaning t [] = []
meaning t (p ∷ ps) = value_of t p ++ meaning t ps

-- No template begins at a byte that stands for itself.
abbrev IsPlain : TemplateData → Piece → Text → Type 0
IsPlain t (byte c) s = key_at (template_pairs t) (c ∷ s) ≡ none
IsPlain t _ s = Unit

unfoldable pub IsPlainText : TemplateData → List Piece → Type 0
IsPlainText t [] = Unit
IsPlainText t (p ∷ ps) = IsPlain t p (written ps) × IsPlainText t ps

replace_byte :
    (ps : Pairs) (c : ℕ) (s : Text)
    → key_at ps (c ∷ s) ≡ none
    → replace_from ps zero (c ∷ s) ≡ c ∷ replace_from ps zero s
unfolding replace_from
replace_byte ps c s h = rw (h, replace_from)

replace_piece :
    (t : TemplateData) (p : Piece) (s : Text)
    → IsPlain t p s
    → replace_from (template_pairs t) zero (template p ++ s)
      ≡ value_of t p ++ replace_from (template_pairs t) zero s
unfolding replace_from
replace_piece t (byte c) s h = replace_byte (template_pairs t) c s h
replace_piece t file_name s h = refl
replace_piece t directory s h = refl
replace_piece t base_name s h = refl
replace_piece t stem_name s h = refl
replace_piece t extension s h = refl
replace_piece t job_number s h = refl

replace_written :
    (t : TemplateData) (ps : List Piece)
    → IsPlainText t ps
    → replace_from (template_pairs t) zero (written ps) ≡ meaning t ps
unfolding written meaning IsPlainText replace_from
replace_written t [] h = refl
replace_written t (p ∷ ps) h = rw (replace_piece t p (written ps) h.0, replace_written t ps h.1)

-- A value that is written from the six templates and from bytes at which no template begins expands
-- to the same bytes with each template replaced by the job's value for it. The values are not
-- expanded again, whatever a file is called.
pub expand-written :
    (t : TemplateData) (ps : List Piece)
    → IsPlainText t ps
    → expand (new_expander t) (written ps) ≡ meaning t ps
unfolding expand new_expander
expand-written t ps h = replace_written t ps h
