-- ===== src/Config/RunOptions/Consumption.antt =====
-- What the parser of internal/config/container_options.go takes from a command line.
use slipway.Common.{
  ℕ, ◌≤◌, Text, codes, has_prefix, cut_at, Bool, true, false, not, Option, none, some, List, [],
  ◌∷◌, ◌++◌, if_both, drop, length, ◌≡◌, refl, ◌∙◌, arith, ◌⊎◌, inl, inr, Bool-cases, Option-cases,
}
use slipway.Config.Commands.{ExecutorType, any_entry}
use slipway.Config.RunOptions.{
  RunOptionArity, run_option_boolean, run_option_value, RunOptionGrammar, ContainerRunOption,
  blank_option, parse_bool, set_terminal, is_any, words, record_terminal_boolean, long_arity,
  short_arity,
}
use slipway.Config.RunOptions.Parsing.{
  Parsed, fail_with, grammar_of, long_value, parse_arity, parse_cut, rune_text, parse_long_name,
  parse_long, parse_short_value, parse_short, parse_container_run_option,
}

-- A refusal, with a reason and no option.
abbrev pub IsRefused : Parsed → Type 0
IsRefused x = (x.0 ≡ blank_option) × (any_entry x.1 ≡ true)

-- An option that takes some of the arguments, or a refusal.
abbrev pub IsWithin : List Text → Parsed → Type 0
IsWithin args x = ((x.1 ≡ []) × (1 ≤ x.0.consumed) × (x.0.consumed ≤ length args)) ⊎ IsRefused x

consumed-set_terminal :
    (name : Text) (b : Option Bool) (o : ContainerRunOption)
    → (set_terminal name b o).consumed ≡ o.consumed
unfolding set_terminal
consumed-set_terminal name none o = refl
consumed-set_terminal name (some b) o =
    if_both (λ (x : ContainerRunOption). x.consumed ≡ o.consumed)
      (is_any name (words (codes "interactive i"))) _ _ refl
      (if_both (λ (x : ContainerRunOption). x.consumed ≡ o.consumed)
        (is_any name (words (codes "tty t"))) _ _ refl
        (if_both (λ (x : ContainerRunOption). x.consumed ≡ o.consumed)
          (is_any name (words (codes "detach d"))) _ _ refl refl))

consumed-record_terminal_boolean :
    (name value : Text) (o : ContainerRunOption)
    → (record_terminal_boolean name value o).consumed ≡ o.consumed
unfolding record_terminal_boolean
consumed-record_terminal_boolean name value o = consumed-set_terminal name (parse_bool value) o

-- An option of one argument, with the terminal's Booleans recorded.
recorded :
    (argument name value : Text) (rest : List Text) (o : ContainerRunOption)
    → o.consumed ≡ 1
    → IsWithin (argument ∷ rest) (record_terminal_boolean name value o, [])
recorded argument name value rest o h =
    let same = consumed-record_terminal_boolean name value o in
    inl (refl, omega (arith, same, h), omega (arith, same, h))

IsWithin-parse_arity :
    (argument name : Text) (arity : Option RunOptionArity) (rest : List Text)
    → IsWithin (argument ∷ rest) (parse_arity name arity rest)
unfolding parse_arity long_value
IsWithin-parse_arity argument name none rest = inr (refl, refl)
IsWithin-parse_arity argument name (some run_option_boolean) rest =
    recorded argument name (codes "true") rest _ refl
IsWithin-parse_arity argument name (some run_option_value) [] = inr (refl, refl)
IsWithin-parse_arity argument name (some run_option_value) (value ∷ rest) =
    inl (refl, omega arith, omega arith)

IsWithin-parse_long_name :
    (g : RunOptionGrammar) (argument name : Text) (rest : List Text)
    → IsWithin (argument ∷ rest) (parse_long_name g name rest)
unfolding parse_long_name
IsWithin-parse_long_name g argument name rest =
    IsWithin-parse_arity argument name (long_arity name g.long) rest

IsWithin-parse_cut :
    (g : RunOptionGrammar) (argument name_value : Text) (cut : Option (Text × Text))
    (rest : List Text)
    → IsWithin (argument ∷ rest) (parse_cut g name_value cut rest)
unfolding parse_cut
IsWithin-parse_cut g argument name_value none rest =
    IsWithin-parse_long_name g argument name_value rest
IsWithin-parse_cut g argument name_value (some (name, value)) rest =
    if_both (IsWithin (argument ∷ rest)) (not (any_entry name)) _ _ (inr (refl, refl))
      (recorded argument name value rest _ refl)

IsWithin-parse_long :
    (g : RunOptionGrammar) (argument name_value : Text) (rest : List Text)
    → IsWithin (argument ∷ rest) (parse_long g name_value rest)
unfolding parse_long
IsWithin-parse_long g argument name_value rest =
    if_both (IsWithin (argument ∷ rest)) (not (any_entry name_value)) _ _ (inr (refl, refl))
      (IsWithin-parse_cut g argument name_value (cut_at 61 name_value) rest)

IsWithin-parse_short_value :
    (o : ContainerRunOption) (later : Bool) (c : ℕ) (argument attached : Text) (rest : List Text)
    → IsWithin (argument ∷ rest) (parse_short_value o later c attached rest)
unfolding parse_short_value
IsWithin-parse_short_value o later c argument attached [] =
    if_both (IsWithin (argument ∷ [])) (any_entry attached) _ _
      (inl (refl, omega arith, omega arith)) (inr (refl, refl))
IsWithin-parse_short_value o later c argument attached (value ∷ rest) =
    if_both (IsWithin (argument ∷ value ∷ rest)) (any_entry attached) _ _
      (inl (refl, omega arith, omega arith)) (inl (refl, omega arith, omega arith))

module _ (g : RunOptionGrammar) (argument : Text) (rest : List Text) where
  module _ (c : ℕ) (s : Text) (o : ContainerRunOption) (later : Bool) where
    short_unknown :
        short_arity c g.short ≡ none
        → parse_short g o later (c ∷ s) rest
          ≡ fail_with (codes "unknown shorthand -" ++ rune_text c)
    unfolding parse_short
    short_unknown e = rw (e, parse_short)

    short_assigned :
        short_arity c g.short ≡ some run_option_boolean
        → has_prefix (codes "=") s ≡ true
        → parse_short g o later (c ∷ s) rest
          ≡ (record_terminal_boolean (rune_text c) (drop 1 s) o, [])
    unfolding parse_short
    short_assigned e b = rw (e, parse_short, b)

    short_boolean :
        short_arity c g.short ≡ some run_option_boolean
        → has_prefix (codes "=") s ≡ false
        → parse_short g o later (c ∷ s) rest
          ≡ parse_short g (record_terminal_boolean (rune_text c) (codes "true") o) true s rest
    unfolding parse_short
    short_boolean e b = rw (e, parse_short, b)

    short_valued :
        short_arity c g.short ≡ some run_option_value
        → parse_short g o later (c ∷ s) rest ≡ parse_short_value o later c s rest
    unfolding parse_short
    short_valued e = rw (e, parse_short)

  IsWithin-parse_short :
      (s : Text) (o : ContainerRunOption) (later : Bool)
      → o.consumed ≡ 1
      → IsWithin (argument ∷ rest) (parse_short g o later s rest)
  unfolding parse_short
  IsWithin-parse_short [] o later h = inl (refl, omega (arith, h), omega (arith, h))
  IsWithin-parse_short (c ∷ s) o later h = elim (Option-cases (short_arity c g.short)) [
    | inl e ↦ rw (short_unknown c s o later e) (inr (refl, refl))
    | inr (run_option_boolean, e) ↦ elim (Bool-cases (has_prefix (codes "=") s)) [
      | inl b ↦
          rw (short_assigned c s o later e b) (recorded argument (rune_text c) (drop 1 s) rest o h)
      | inr b ↦ rw (short_boolean c s o later e b) (
          IsWithin-parse_short s (record_terminal_boolean (rune_text c) (codes "true") o) true
            (consumed-record_terminal_boolean (rune_text c) (codes "true") o ∙ h))
    ]
    | inr (run_option_value, e) ↦
        rw (short_valued c s o later e) (IsWithin-parse_short_value o later c argument s rest)
  ]

-- The parser either takes one or more arguments for an option, and no more than there are, or refuses
-- with a reason and no option.
pub parse_container_run_option-IsWithin :
    (executor : ExecutorType) (args : List Text)
    → IsWithin args (parse_container_run_option executor args)
unfolding parse_container_run_option
parse_container_run_option-IsWithin executor [] = inr (refl, refl)
parse_container_run_option-IsWithin executor (argument ∷ rest) =
    if_both (IsWithin (argument ∷ rest)) (has_prefix (codes "--") argument) _ _
      (IsWithin-parse_long (grammar_of executor) argument (drop 2 argument) rest)
      (if_both (IsWithin (argument ∷ rest)) _ _ _ (inr (refl, refl))
        (IsWithin-parse_short (grammar_of executor) argument rest _ _ false refl))
