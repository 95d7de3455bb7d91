-- ===== src/Prelude/Decimal.antt =====
-- Numbers in decimal, as printf writes them and scanf reads them.
use cyrenus.Prelude.Tests.{Bool-cases}
use mathlib.Core.Logic.{inl, inr}
use Prim.Native.Nat.{ℕ, zero, suc, ◌+◌, ◌-◌, ◌*◌, ◌/◌, ◌%◌, ◌^◌, ◌≤◌, ◌<◌}
use mathlib.Core.Path.{◌≡◌, refl, ap, ◌∙◌}
use mathlib.Core.Option.{Option, none, some}
use mathlib.Core.List.{[], ◌∷◌}
use native.Mathlib.Omega.{arith}
use cyrenus.Prelude.Tests.{ltb, ◌==◌, if◌then◌else◌}
use cyrenus.Prelude.Lists.{length}
use cyrenus.Prelude.Strings.{Text, digits, is_digit, skip_space}

-- The digits of "%ld" of a number of at most `fuel` digits, in front of `acc`.
unfoldable pub decimal_digits : ℕ → ℕ → Text → Text
decimal_digits zero n acc = acc
decimal_digits (suc fuel) n acc =
    let rest = decimal_digits fuel (n / 10) ((48 + n % 10) ∷ acc) in
    if ltb n 10 then (48 + n) ∷ acc else rest

-- No number of 64 bits has more than 20 digits.
abbrev pub decimal : ℕ → Text → Text
decimal n acc = decimal_digits 20 n acc

-- A number has at most as many digits as there is fuel.
pub length-decimal_digits :
    (fuel n : ℕ) (acc : Text) → length (decimal_digits fuel n acc) ≤ fuel + length acc
unfolding decimal_digits
length-decimal_digits zero n acc = omega arith
length-decimal_digits (suc fuel) n acc = elim (Bool-cases (ltb n 10)) [
  | inl e ↦ rw e (omega arith)
  | inr e ↦ rw e (omega (arith, length-decimal_digits fuel (n / 10) ((48 + n % 10) ∷ acc)))
]

-- The text behind the digits in front.
unfoldable pub after_digits : Text → Text
after_digits [] = []
after_digits (c ∷ cs) = let rest = after_digits cs in if is_digit c then rest else c ∷ cs

-- What "%d" reads, once a digit is there: the number, and the text behind it.
unfoldable pub scan_digits : (ℕ → ℕ) → Text → Option (ℕ × Text)
scan_digits sign [] = none
scan_digits sign (c ∷ cs) =
    if is_digit c then some (sign (digits 0 (c ∷ cs)), after_digits (c ∷ cs)) else none

abbrev pub negate : ℕ → ℕ
negate n = (2 ^ 32 - n % 2 ^ 32) % 2 ^ 32

unfoldable pub scan_signed : Text → Option (ℕ × Text)
scan_signed [] = none
scan_signed (c ∷ cs) =
    if c == 45
    then scan_digits negate cs
    else if c == 43
    then scan_digits (λ n. n % 2 ^ 32) cs
    else scan_digits (λ n. n % 2 ^ 32) (c ∷ cs)

-- "%d": the 32 bits of the `int`, behind white space and a sign. Out of range it wraps, where C
-- leaves open what it is.
unfoldable pub scan_int : Text → Option (ℕ × Text)
scan_int text = scan_signed (skip_space text)

digits-digit : (a d : ℕ) (cs : Text) → d < 10 → digits a ((48 + d) ∷ cs) ≡ digits (a * 10 + d) cs
unfolding digits
digits-digit a d cs h = ground arith

abbrev pub pow10 : ℕ → ℕ
pow10 zero = 1
pow10 (suc n) = 10 * pow10 n

fuel-positive : (fuel n : ℕ) → n < pow10 (suc fuel) → 10 ≤ n → 1 ≤ fuel
fuel-positive zero n h k = absurd (omega arith)
fuel-positive (suc fuel) n h k = omega arith

digits-last : (n : ℕ) (acc : Text) → digits (n / 10) ((48 + n % 10) ∷ acc) ≡ digits n acc
digits-last n acc =
    digits-digit (n / 10) (n % 10) acc (omega arith) ∙ ap (λ m. digits m acc) (omega arith)

digits-decimal_digits :
    (fuel n : ℕ) (acc : Text)
    → n < pow10 fuel
    → 1 ≤ fuel
    → digits 0 (decimal_digits fuel n acc) ≡ digits n acc
unfolding decimal_digits
digits-decimal_digits zero n acc h f = absurd (omega arith)
digits-decimal_digits (suc fuel) n acc h f = elim (Bool-cases (ltb n 10)) [
  | inl e ↦ rw e (digits-digit 0 n acc (ground arith) ∙ ap (λ m. digits m acc) (omega arith))
  | inr e ↦ rw e (
      digits-decimal_digits fuel (n / 10) ((48 + n % 10) ∷ acc) (omega arith)
        (fuel-positive fuel n h (ground arith))
      ∙ digits-last n acc)
]

after_digits-digit : (d : ℕ) (cs : Text) → d < 10 → after_digits ((48 + d) ∷ cs) ≡ after_digits cs
unfolding after_digits
after_digits-digit d cs h = ground arith

after_digits-decimal_digits :
    (fuel n : ℕ) (acc : Text) → after_digits (decimal_digits fuel n acc) ≡ after_digits acc
unfolding decimal_digits
after_digits-decimal_digits zero n acc = refl
after_digits-decimal_digits (suc fuel) n acc = elim (Bool-cases (ltb n 10)) [
  | inl e ↦ rw e (after_digits-digit n acc (ground arith))
  | inr e ↦ rw e (
      after_digits-decimal_digits fuel (n / 10) ((48 + n % 10) ∷ acc)
      ∙ after_digits-digit (n % 10) acc (omega arith))
]

-- The text starts with a digit.
abbrev pub StartsWithDigit : Text → Type 0
StartsWithDigit [] = ⊥
StartsWithDigit (c ∷ cs) = (48 ≤ c) × (c ≤ 57)

decimal_digits-StartsWithDigit :
    (fuel n : ℕ) (acc : Text)
    → 1 ≤ fuel
    → n < pow10 fuel
    → StartsWithDigit (decimal_digits fuel n acc)
unfolding decimal_digits
decimal_digits-StartsWithDigit zero n acc f h = absurd (omega arith)
decimal_digits-StartsWithDigit (suc fuel) n acc f h = elim (Bool-cases (ltb n 10)) [
  | inl e ↦ rw e (ground arith, ground arith)
  | inr e ↦ rw e (
      decimal_digits-StartsWithDigit fuel (n / 10) ((48 + n % 10) ∷ acc)
        (fuel-positive fuel n h (ground arith)) (omega arith))
]

scan_int-digits :
    (text : Text)
    → StartsWithDigit text
    → scan_int text ≡ some (digits 0 text % 2 ^ 32, after_digits text)
unfolding scan_int skip_space scan_signed scan_digits
scan_int-digits [] h = absurd h
scan_int-digits (c ∷ cs) h = ground arith

-- No digit stands in front.
abbrev pub EndsNumber : Text → Type 0
EndsNumber [] = Unit
EndsNumber (c ∷ cs) = 57 < c

digits-end : (n : ℕ) (rest : Text) → EndsNumber rest → digits n rest ≡ n
unfolding digits
digits-end n [] h = refl
digits-end n (c ∷ cs) h = ground arith

after_digits-end : (rest : Text) → EndsNumber rest → after_digits rest ≡ rest
unfolding after_digits
after_digits-end [] h = refl
after_digits-end (c ∷ cs) h = ground arith

-- "%d" reads what "%d" wrote, where no digit follows.
pub scan_int-decimal :
    (n : ℕ) (rest : Text)
    → n < 2147483648
    → EndsNumber rest
    → scan_int (decimal n rest) ≡ some (n, rest)
scan_int-decimal n rest h k =
    scan_int-digits (decimal n rest)
      (decimal_digits-StartsWithDigit 20 n rest (omega arith) (omega arith))
    ∙ rw
        (
          digits-decimal_digits 20 n rest (omega arith) (omega arith),
          digits-end n rest k,
          after_digits-decimal_digits 20 n rest,
          after_digits-end rest k,
        )
        (ap (λ m. some (m, rest)) (omega arith))
