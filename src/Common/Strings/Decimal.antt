-- ===== src/Common/Strings/Decimal.antt =====
-- The fuel of the decimal digits is enough: they are those of the number.
use Prim.Native.Nat.{ℕ, zero, suc, ◌+◌, ◌*◌, ◌-◌, ◌/◌, ◌%◌, ◌<◌}
use mathlib.Core.Path.{◌≡◌, ap, ◌∙◌}
use mathlib.Core.Bool.{true, false}
use mathlib.Core.Logic.{inl, inr}
use mathlib.Core.List.{[], ◌∷◌}
use native.Mathlib.Omega.{arith}
use slipway.Common.Tests.{ltb, Bool-cases}
use slipway.Common.Bytes.{Text}
use slipway.Common.Strings.{digits, decimal}

-- The number that digits stand for behind those of another.
abbrev pub read_digits : ℕ → Text → ℕ
read_digits n [] = n
read_digits n (c ∷ s) = read_digits (n * 10 + (c - 48)) s

last_digit : (fuel n : ℕ) (s : Text) → ltb n 10 ≡ true → digits (suc fuel) n s ≡ (48 + n) ∷ s
last_digit fuel n s e = rw (e, digits)

next_digit :
    (fuel n : ℕ) (s : Text)
    → ltb n 10 ≡ false
    → digits (suc fuel) n s ≡ digits fuel (n / 10) ((48 + n % 10) ∷ s)
next_digit fuel n s e = rw (e, digits)

read_digits-digits :
    (fuel n : ℕ) (s : Text) → n < fuel → read_digits 0 (digits fuel n s) ≡ read_digits n s
read_digits-digits zero n s h = absurd (omega arith)
read_digits-digits (suc fuel) n s h = elim (Bool-cases (ltb n 10)) [
  | inl e ↦
      let same : 0 * 10 + ((48 + n) - 48) ≡ n = omega arith in
      ap (read_digits 0) (last_digit fuel n s e) ∙ ap (λ m. read_digits m s) same
  | inr e ↦
      let same : n / 10 * 10 + ((48 + n % 10) - 48) ≡ n = omega arith in
      ap (read_digits 0) (next_digit fuel n s e)
      ∙ read_digits-digits fuel (n / 10) ((48 + n % 10) ∷ s) (ground (arith, e, h))
      ∙ ap (λ m. read_digits m s) same
]

pub read_digits-decimal : (n : ℕ) → read_digits 0 (decimal n) ≡ n
read_digits-decimal n = read_digits-digits (suc n) n [] (omega arith)
