-- ===== src/Prelude/Decimal.antt =====
-- Python's `str(n)` and `int(s)` of decimal numerals, and how they go together.
use Prim.Native.Nat.{ℕ, zero, suc, ◌+◌, ◌*◌, ◌/◌, ◌%◌, ◌≤◌, ◌<◌}
use Prim.Native.Char.{code}
use Prim.Native.String.{String}
use mathlib.Core.Path.{◌≡◌, refl, ap, ◌∙◌}
use mathlib.Core.Bool.{Bool, true, false}
use mathlib.Core.Option.{some}
use mathlib.Core.Logic.{inl, inr}
use native.Mathlib.Omega.{arith}
use chat_app_csd.Prelude.Tests.{leb, Bool-cases}
use chat_app_csd.Prelude.Int.{ℤ, pos, negsuc}
use chat_app_csd.Prelude.Texts.{
  is_space, lstrip, rstrip, strip, digit_char, decimal_from, str_nat, str_int, digits_value, signed,
  numeral_value, int_of_text, is_empty,
}

abbrev pub Digits : String → Type 0
Digits String.[] = Unit
Digits (String.◌∷◌ c s) = (48 ≤ code c) × (code c ≤ 57) × Digits s

digit-Digits : (d : ℕ) (s : String) → Digits s → Digits (String.◌∷◌ (digit_char d) s)
digit-Digits zero s h = (omega arith, omega arith, h)
digit-Digits (suc zero) s h = (omega arith, omega arith, h)
digit-Digits (suc (suc zero)) s h = (omega arith, omega arith, h)
digit-Digits (suc (suc (suc zero))) s h = (omega arith, omega arith, h)
digit-Digits (suc (suc (suc (suc zero)))) s h = (omega arith, omega arith, h)
digit-Digits (suc (suc (suc (suc (suc zero))))) s h = (omega arith, omega arith, h)
digit-Digits (suc (suc (suc (suc (suc (suc zero)))))) s h = (omega arith, omega arith, h)
digit-Digits (suc (suc (suc (suc (suc (suc (suc zero))))))) s h = (omega arith, omega arith, h)
digit-Digits (suc (suc (suc (suc (suc (suc (suc (suc zero)))))))) s h =
    (omega arith, omega arith, h)
digit-Digits (suc (suc (suc (suc (suc (suc (suc (suc (suc n))))))))) s h =
    (omega arith, omega arith, h)

-- A digit read after `n` makes ten times `n` and the digit.
digit_read :
    (d : ℕ) (after : Bool) (n : ℕ) (s : String)
    → d ≤ 9
    → digits_value after n (String.◌∷◌ (digit_char d) s) ≡ digits_value true (n * 10 + d) s
unfolding digits_value
digit_read zero after n s h = refl
digit_read (suc zero) after n s h = refl
digit_read (suc (suc zero)) after n s h = refl
digit_read (suc (suc (suc zero))) after n s h = refl
digit_read (suc (suc (suc (suc zero)))) after n s h = refl
digit_read (suc (suc (suc (suc (suc zero))))) after n s h = refl
digit_read (suc (suc (suc (suc (suc (suc zero)))))) after n s h = refl
digit_read (suc (suc (suc (suc (suc (suc (suc zero))))))) after n s h = refl
digit_read (suc (suc (suc (suc (suc (suc (suc (suc zero)))))))) after n s h = refl
digit_read (suc (suc (suc (suc (suc (suc (suc (suc (suc zero))))))))) after n s h = refl
digit_read (suc (suc (suc (suc (suc (suc (suc (suc (suc (suc d)))))))))) after n s h =
    absurd (omega arith)

decimal-Digits : (f n : ℕ) (acc : String) → Digits acc → Digits (decimal_from f n acc)
unfolding decimal_from
decimal-Digits zero n acc h = h
decimal-Digits (suc f) n acc h = elim (Bool-cases (leb n 9)) [
  | inl last ↦ rw last (digit-Digits (n % 10) acc h)
  | inr more ↦ rw more (decimal-Digits f (n / 10) _ (digit-Digits (n % 10) acc h))
]

decimal_read :
    (f n : ℕ) (acc : String)
    → n < f
    → digits_value false 0 (decimal_from f n acc) ≡ digits_value true n acc
unfolding decimal_from
decimal_read zero n acc h = absurd (omega arith)
decimal_read (suc f) n acc h = elim (Bool-cases (leb n 9)) [
  | inl last ↦ rw last (
      digit_read (n % 10) false 0 acc (omega arith)
      ∙ ap (λ (m : ℕ). digits_value true m acc) (ground arith))
  | inr more ↦ rw more (
      decimal_read f (n / 10) _ (ground arith)
      ∙ digit_read (n % 10) true (n / 10) acc (omega arith)
      ∙ ap (λ (m : ℕ). digits_value true m acc) (omega arith))
]

pub digit_not_space : (c : ℕ) → 48 ≤ c → c ≤ 57 → is_space c ≡ false
unfolding is_space
digit_not_space c lo hi = ground arith

lstrip-Digits : (s : String) → Digits s → lstrip s ≡ s
unfolding lstrip
lstrip-Digits String.[] h = refl
lstrip-Digits (String.◌∷◌ c s) h = rw (digit_not_space (code c) h.0 h.1)

rstrip-Digits : (s : String) → Digits s → rstrip s ≡ s
unfolding rstrip
rstrip-Digits String.[] h = refl
rstrip-Digits (String.◌∷◌ c s) h =
    rw (rstrip-Digits s h.2) (rw (digit_not_space (code c) h.0 h.1) (ground arith))

numeral-Digits : (s : String) → Digits s → numeral_value s ≡ signed false (digits_value false 0 s)
unfolding numeral_value
numeral-Digits String.[] h = refl
numeral-Digits (String.◌∷◌ c s) h = ground arith

pub str_nat-Digits : (n : ℕ) → Digits (str_nat n)
unfolding str_nat
str_nat-Digits n = decimal-Digits (suc n) n "" tt

read-str_nat : (n : ℕ) → digits_value false 0 (str_nat n) ≡ some n
unfolding str_nat digits_value
read-str_nat n = decimal_read (suc n) n "" (omega arith)

strip-Digits : (s : String) → Digits s → strip s ≡ s
unfolding strip
strip-Digits s h = rw (lstrip-Digits s h) (rstrip-Digits s h)

read_plain :
    (s : String) (n : ℕ) → Digits s → digits_value false 0 s ≡ some n → int_of_text s ≡ some (pos n)
unfolding int_of_text
read_plain s n h v = rw (strip-Digits s h) (numeral-Digits s h ∙ ap (signed false) v)

strip_minus : (s : String) → Digits s → strip (String.◌∷◌ "-" s) ≡ String.◌∷◌ "-" s
unfolding strip lstrip rstrip
strip_minus s h = rw (rstrip-Digits s h) (ground arith)

read_minus :
    (s : String) (n : ℕ)
    → Digits s
    → digits_value false 0 s ≡ some n
    → int_of_text (String.◌∷◌ "-" s) ≡ signed true (some n)
unfolding int_of_text numeral_value
read_minus s n h v = rw (strip_minus s h) (ap (signed true) v)

-- Reading back what `str` wrote gives the integer.
pub int_of_text-str_int : (n : ℤ) → int_of_text (str_int n) ≡ some n
unfolding str_int
int_of_text-str_int (pos n) = read_plain (str_nat n) n (str_nat-Digits n) (read-str_nat n)
int_of_text-str_int (negsuc n) =
    read_minus (str_nat (suc n)) (suc n) (str_nat-Digits (suc n)) (read-str_nat (suc n))

not_empty_of_read : (s : String) (n : ℤ) → int_of_text s ≡ some n → is_empty s ≡ false
unfolding int_of_text
not_empty_of_read String.[] n h = cc h
not_empty_of_read (String.◌∷◌ c s) n h = refl

pub is_empty-str_int : (n : ℤ) → is_empty (str_int n) ≡ false
is_empty-str_int n = not_empty_of_read (str_int n) n (int_of_text-str_int n)

pub is_empty-str_nat : (n : ℕ) → is_empty (str_nat n) ≡ false
unfolding str_int
is_empty-str_nat n = is_empty-str_int (pos n)

-- A numeral without a sign is read back.
pub int_of_text-str_nat : (n : ℕ) → int_of_text (str_nat n) ≡ some (pos n)
unfolding str_int
int_of_text-str_nat n = int_of_text-str_int (pos n)
