-- ===== src/Prelude/Texts.antt =====
-- Python's `str` as the list of its code points, and equality of texts.
use Prim.Native.Nat.{ℕ, zero, suc, ◌+◌, ◌-◌, ◌*◌, ◌/◌, ◌%◌, ◌≤◌}
use Prim.Native.Char.{code}
use Prim.Native.String.{String}
use mathlib.Core.Path.{◌≡◌, refl, ap, ◌∙◌}
use mathlib.Core.Logic.{◌↔◌, inl, inr}
use mathlib.Core.Bool.{Bool, true, false, ◌&&◌}
use mathlib.Core.List.{List, [], ◌∷◌}
use native.Mathlib.Omega.{arith}
use flow_speckit.Prelude.Tests.{Bool-cases, ◌==◌, leb, if◌then◌else◌}

abbrev pub Text : Type 0
Text = List ℕ

abbrev pub codes : String → Text
codes String.[] = []
codes (String.◌∷◌ c s) = code c ∷ codes s

unfoldable pub text_eq : Text → Text → Bool
text_eq [] [] = true
text_eq (x ∷ xs) (y ∷ ys) = (x == y) && text_eq xs ys
text_eq _ _ = false

text_eq_sound : (a b : Text) → text_eq a b ≡ true → a ≡ b
unfolding text_eq
text_eq_sound [] [] h = refl
text_eq_sound [] (y ∷ ys) h = ground arith
text_eq_sound (x ∷ xs) [] h = ground arith
text_eq_sound (x ∷ xs) (y ∷ ys) h = ground (arith, text_eq_sound xs ys)

pub text_eq_refl : (a : Text) → text_eq a a ≡ true
unfolding text_eq
text_eq_refl [] = refl
text_eq_refl (x ∷ xs) = ground (arith, text_eq_refl xs)

pub text_eq_iff : (a b : Text) → (text_eq a b ≡ true) ↔ (a ≡ b)
text_eq_iff a b = (text_eq_sound a b, λ e. rw e (text_eq_refl b))

-- `str.isdigit`, for the ASCII digits.
abbrev pub is_digit : ℕ → Bool
is_digit c = leb b'0' c && leb c b'9'

abbrev pub all_digits : Text → Bool
all_digits [] = true
all_digits (c ∷ cs) = is_digit c && all_digits cs

abbrev pub is_digits : Text → Bool
is_digits [] = false
is_digits (c ∷ cs) = all_digits (c ∷ cs)

-- `str(n)`: the decimal digits, least significant first in the accumulator's order. A number has
-- fewer digits than it has units, so `n + 1` rounds are enough.
digits_on : ℕ → ℕ → Text → Text
digits_on zero n acc = acc
digits_on (suc fuel) n acc =
    let rest = digits_on fuel (n / 10) ((b'0' + n % 10) ∷ acc) in
    if leb n 9 then (b'0' + n % 10) ∷ acc else rest

unfoldable pub decimal : ℕ → Text
unfolding digits_on
decimal n = digits_on (suc n) n []

-- `int(s)` of a text of digits.
unfoldable pub read_decimal : ℕ → Text → ℕ
read_decimal acc [] = acc
read_decimal acc (c ∷ cs) = read_decimal (acc * 10 + (c - b'0')) cs

-- `s.startswith(prefix)`.
unfoldable pub starts_with : Text → Text → Bool
starts_with s [] = true
starts_with [] (p ∷ ps) = false
starts_with (c ∷ s) (p ∷ ps) = (c == p) && starts_with s ps

digits_on-is_digits :
    (fuel n : ℕ) (acc : Text)
    → n ≤ fuel
    → all_digits acc ≡ true
    → is_digits (digits_on (suc fuel) n acc) ≡ true
unfolding digits_on
digits_on-is_digits zero n acc le h = ground (arith, h)
digits_on-is_digits (suc fuel) n acc le h = elim (Bool-cases (leb n 9)) [
  | inl small ↦ rw small (ground (arith, h))
  | inr large ↦
      rw large (
        digits_on-is_digits fuel (n / 10) ((b'0' + n % 10) ∷ acc) (ground arith)
          (ground (arith, h)))
]

read-digits_on :
    (fuel n : ℕ) (acc : Text)
    → n ≤ fuel
    → read_decimal 0 (digits_on (suc fuel) n acc) ≡ read_decimal n acc
unfolding digits_on read_decimal
read-digits_on zero n acc le = ground arith
read-digits_on (suc fuel) n acc le = elim (Bool-cases (leb n 9)) [
  | inl small ↦ rw small (ap (λ k. read_decimal k acc) (ground arith))
  | inr large ↦ rw large (
      read-digits_on fuel (n / 10) ((b'0' + n % 10) ∷ acc) (ground arith)
      ∙ ap (λ k. read_decimal k acc) (ground arith))
]

-- The digits of a number are digits, and it is read back from them.
pub is_digits-decimal : (n : ℕ) → is_digits (decimal n) ≡ true
unfolding decimal
is_digits-decimal n = digits_on-is_digits n n [] (omega arith) refl

pub read_decimal-decimal : (n : ℕ) → read_decimal 0 (decimal n) ≡ n
unfolding decimal read_decimal
read_decimal-decimal n = read-digits_on n n [] (omega arith)
