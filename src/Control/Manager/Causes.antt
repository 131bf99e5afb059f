-- ===== src/Control/Manager/Causes.antt =====
-- internal/control/manager.go: whether an error is a cancellation and nothing else.
use slipway.Common.{
  ℕ, ◌==◌, ==_iff, ◌≡◌, refl, ◌↔◌, Bool, true, false, ◌&&◌, Option, none, some, List, [], ◌∷◌, ◌++◌,
  All, All-append, arith, and_true, length, ◌≤◌,
}

-- A Go error: a value of its own with no `Unwrap`, one that wraps an error (or nil), and one that
-- joins several.
mutual
  pub data GoError : Type 0 where
    leaf : ℕ → GoError
    wrapped : GoError → GoError
    wrapped_nil : GoError
    joined : Causes → GoError

  pub data Causes : Type 0 where
    nil : Causes
    cons : GoError → Causes → Causes

abbrev pub not_empty : Causes → Bool
not_empty nil = false
not_empty (cons e es) = true

-- `cancellationFrom` of errors that are not nil.
unfoldable mutual
  pub cancellation_from : GoError → ℕ → Bool
  cancellation_from (leaf n) cause = n == cause
  cancellation_from (wrapped e) cause = cancellation_from e cause
  cancellation_from wrapped_nil cause = false
  cancellation_from (joined es) cause = not_empty es && all_cancelled es cause

  pub all_cancelled : Causes → ℕ → Bool
  all_cancelled nil cause = true
  all_cancelled (cons e es) cause = cancellation_from e cause && all_cancelled es cause

abbrev or_nothing : List (Option ℕ) → List (Option ℕ)
or_nothing [] = none ∷ []
or_nothing (x ∷ xs) = x ∷ xs

-- The errors at the ends of all wrappers; `none` is a wrapper of nothing.
mutual
  pub ends : GoError → List (Option ℕ)
  ends (leaf n) = some n ∷ []
  ends (wrapped e) = ends e
  ends wrapped_nil = none ∷ []
  ends (joined es) = or_nothing (all_ends es)

  pub all_ends : Causes → List (Option ℕ)
  all_ends nil = []
  all_ends (cons e es) = ends e ++ all_ends es

abbrev pub IsAll : ℕ → List (Option ℕ) → Type 0
IsAll cause xs = All (λ x. x ≡ some cause) xs

All-split :
    (cause : ℕ) (xs ys : List (Option ℕ)) → IsAll cause (xs ++ ys) → IsAll cause xs × IsAll cause ys
All-split cause [] ys h = (tt, h)
All-split cause (x ∷ xs) ys h = let (hx, hy) = All-split cause xs ys h.1 in ((h.0, hx), hy)

nothing : (cause : ℕ) (xs : List (Option ℕ)) → IsAll cause (or_nothing xs) → IsAll cause xs
nothing cause [] h = tt
nothing cause (x ∷ xs) h = h

or_nothing_pos : (xs : List (Option ℕ)) → 1 ≤ length (or_nothing xs)
or_nothing_pos [] = omega arith
or_nothing_pos (x ∷ xs) = omega arith

-- Every error has an end.
ends_pos : (e : GoError) → 1 ≤ length (ends e)
unfolding ends
ends_pos (leaf n) = omega arith
ends_pos (wrapped e) = ends_pos e
ends_pos wrapped_nil = omega arith
ends_pos (joined es) = or_nothing_pos (all_ends es)

something :
    (cause : ℕ) (xs ys : List (Option ℕ))
    → 1 ≤ length xs
    → IsAll cause (xs ++ ys)
    → IsAll cause (or_nothing (xs ++ ys))
something cause [] ys p h = absurd (omega arith)
something cause (x ∷ xs) ys p h = h

mutual
  unfolding cancellation_from ends

  sound : (e : GoError) (cause : ℕ) → cancellation_from e cause ≡ true → IsAll cause (ends e)
  sound (leaf n) cause h = (ground (arith, ==_iff n cause), tt)
  sound (wrapped e) cause h = sound e cause h
  sound wrapped_nil cause h = cc
  sound (joined nil) cause h = cc
  sound (joined (cons e es)) cause h =
      something cause (ends e) (all_ends es) (ends_pos e) (sounds (cons e es) cause h)

  sounds : (es : Causes) (cause : ℕ) → all_cancelled es cause ≡ true → IsAll cause (all_ends es)
  sounds nil cause h = tt
  sounds (cons e es) cause h =
      All-append (λ x. x ≡ some cause) (ends e) (all_ends es) (sound e cause (and_true h).0)
        (sounds es cause (and_true h).1)

mutual
  unfolding cancellation_from ends

  complete : (e : GoError) (cause : ℕ) → IsAll cause (ends e) → cancellation_from e cause ≡ true
  complete (leaf n) cause h = ground (arith, h.0)
  complete (wrapped e) cause h = complete e cause h
  complete wrapped_nil cause h = cc
  complete (joined nil) cause h = cc
  complete (joined (cons e es)) cause h = completes (cons e es) cause (nothing cause _ h)

  completes : (es : Causes) (cause : ℕ) → IsAll cause (all_ends es) → all_cancelled es cause ≡ true
  completes nil cause h = refl
  completes (cons e es) cause h =
      let (he, hes) = All-split cause (ends e) (all_ends es) h in
      rw (complete e cause he, completes es cause hes)

-- An error counts as the cancellation of a context exactly when every error at the end of its
-- wrappers and joins is the context's error: a joined failure, a wrapper of nil and an empty join
-- are not hidden.
pub cancellation_from_lem :
    (e : GoError) (cause : ℕ) → (cancellation_from e cause ≡ true) ↔ IsAll cause (ends e)
cancellation_from_lem e cause = (sound e cause, complete e cause)
