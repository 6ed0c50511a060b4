-- ===== src/Prelude/Decimal.antt =====
-- `str(n)` of a natural number, and the number that a text of decimal digits writes.
use Prim.Native.Nat.{ℕ, zero, suc, ◌+◌, ◌-◌, ◌*◌, ◌/◌, ◌%◌, ◌<◌}
use Prim.Native.Char.{Char, code}
use Prim.Native.String.{String}
use mathlib.Core.Path.{◌≡◌, refl, sym, ap, ◌∙◌}
use mathlib.Core.Logic.{◌≢◌, inl, inr}
use mathlib.Core.Bool.{Bool, true, false, ◌&&◌, false≢true}
use native.Mathlib.Omega.{arith}
use zaynor.Prelude.Tests.{ltb, leb, if◌then◌else◌, Bool-cases}

digit : ℕ → Char
digit zero = "0"
digit (suc zero) = "1"
digit (suc (suc zero)) = "2"
digit (suc (suc (suc zero))) = "3"
digit (suc (suc (suc (suc zero)))) = "4"
digit (suc (suc (suc (suc (suc zero))))) = "5"
digit (suc (suc (suc (suc (suc (suc zero)))))) = "6"
digit (suc (suc (suc (suc (suc (suc (suc zero))))))) = "7"
digit (suc (suc (suc (suc (suc (suc (suc (suc zero)))))))) = "8"
digit _ = "9"

decimal_onto : ℕ → ℕ → String → String
decimal_onto zero n s = s
decimal_onto (suc f) n s =
    let rest = decimal_onto f (n / 10) (String.◌∷◌ (digit (n % 10)) s) in
    if ltb n 10 then String.◌∷◌ (digit n) s else rest

-- str(n)
unfoldable pub decimal : ℕ → String
unfolding decimal_onto digit
decimal n = decimal_onto (suc n) n String.[]

-- int(s) of a text of ASCII digits, from what stands before them.
value_from : ℕ → String → ℕ
value_from a String.[] = a
value_from a (String.◌∷◌ c s) = value_from (a * 10 + (code c - 48)) s

-- int(s)
unfoldable pub value : String → ℕ
unfolding value_from
value s = value_from 0 s

all_digits : String → Bool
all_digits String.[] = true
all_digits (String.◌∷◌ c s) = leb 48 (code c) && leb (code c) 57 && all_digits s

-- s.isdigit()
unfoldable pub is_digit : String → Bool
unfolding all_digits
is_digit String.[] = false
is_digit (String.◌∷◌ c s) = all_digits (String.◌∷◌ c s)

code-digit : (k : ℕ) → k < 10 → code (digit k) - 48 ≡ k
unfolding digit
code-digit zero h = refl
code-digit (suc zero) h = refl
code-digit (suc (suc zero)) h = refl
code-digit (suc (suc (suc zero))) h = refl
code-digit (suc (suc (suc (suc zero)))) h = refl
code-digit (suc (suc (suc (suc (suc zero))))) h = refl
code-digit (suc (suc (suc (suc (suc (suc zero)))))) h = refl
code-digit (suc (suc (suc (suc (suc (suc (suc zero))))))) h = refl
code-digit (suc (suc (suc (suc (suc (suc (suc (suc zero)))))))) h = refl
code-digit (suc (suc (suc (suc (suc (suc (suc (suc (suc zero))))))))) h = refl
code-digit (suc (suc (suc (suc (suc (suc (suc (suc (suc (suc k)))))))))) h = absurd (omega arith)

value-decimal_onto :
    (f n : ℕ) (s : String) → n < f → value_from 0 (decimal_onto f n s) ≡ value_from n s
unfolding value_from decimal_onto
value-decimal_onto zero n s h = absurd (omega arith)
value-decimal_onto (suc f) n s h = elim (Bool-cases (ltb n 10)) [
  | inl small ↦ rw small (ap (λ k. value_from k s) (omega (arith, code-digit n (ground arith))))
  | inr big ↦ rw big (
      value-decimal_onto f (n / 10) (String.◌∷◌ (digit (n % 10)) s) (ground arith)
      ∙ ap (λ k. value_from k s) (omega (arith, code-digit (n % 10) (omega arith))))
]

pub value-decimal : (n : ℕ) → value (decimal n) ≡ n
unfolding value decimal value_from
value-decimal n = value-decimal_onto (suc n) n String.[] (omega arith)

-- `str` writes nothing but digits.

digit-all_digits :
    (k : ℕ) (s : String) → all_digits s ≡ true → all_digits (String.◌∷◌ (digit k) s) ≡ true
unfolding digit all_digits
digit-all_digits zero s h = h
digit-all_digits (suc zero) s h = h
digit-all_digits (suc (suc zero)) s h = h
digit-all_digits (suc (suc (suc zero))) s h = h
digit-all_digits (suc (suc (suc (suc zero)))) s h = h
digit-all_digits (suc (suc (suc (suc (suc zero))))) s h = h
digit-all_digits (suc (suc (suc (suc (suc (suc zero)))))) s h = h
digit-all_digits (suc (suc (suc (suc (suc (suc (suc zero))))))) s h = h
digit-all_digits (suc (suc (suc (suc (suc (suc (suc (suc zero)))))))) s h = h
digit-all_digits (suc (suc (suc (suc (suc (suc (suc (suc (suc k))))))))) s h = h

decimal_onto-all_digits :
    (f n : ℕ) (s : String) → all_digits s ≡ true → all_digits (decimal_onto f n s) ≡ true
unfolding decimal_onto all_digits
decimal_onto-all_digits zero n s h = h
decimal_onto-all_digits (suc f) n s h = elim (Bool-cases (ltb n 10)) [
  | inl small ↦ rw small (digit-all_digits n s h)
  | inr big ↦ rw big (decimal_onto-all_digits f (n / 10) _ (digit-all_digits (n % 10) s h))
]

starts_with_minus : (n : ℕ) (s : String) → decimal n ≢ String.◌∷◌ "-" s
unfolding decimal all_digits
starts_with_minus n s h =
    false≢true (ap all_digits (sym h) ∙ decimal_onto-all_digits (suc n) n String.[] refl)

pub decimal-inj : (m n : ℕ) → decimal m ≡ decimal n → m ≡ n
decimal-inj m n h = sym (value-decimal m) ∙ ap value h ∙ value-decimal n

-- A text with a sign before it is not that of a natural number.
pub decimal-minus : (n : ℕ) (s : String) → decimal n ≡ String.◌∷◌ "-" s → ⊥
decimal-minus n s h = starts_with_minus n s h
