-- ===== src/Prelude/Texts.antt =====
-- Texts as the program uses them: equality, membership in a list of texts, `strip`, the slice
-- `s[:n]`, and the decimal numerals that `str` and `int` write and read.
use Prim.Native.Nat.{ℕ, zero, suc, ◌+◌, ◌-◌, ◌*◌, ◌/◌, ◌%◌, ◌≤◌}
use Prim.Native.Char.{Char, code}
use Prim.Native.String.{String, count, ◌++◌ as append}
use mathlib.Core.Path.{◌≡◌, refl}
use mathlib.Core.Bool.{Bool, true, false, ◌&&◌, ◌||◌}
use mathlib.Core.List.{List, [], ◌∷◌, ◌++◌}
use mathlib.Core.Option.{Option, none, some}
use native.Mathlib.Omega.{arith}
use text.Mathlib.Text.{◌==◌}
use text.Mathlib.TextEquality.{eq_iff}
use text.Mathlib.TextLemmas.{length-nil, length-cons}
use chat_app_csd.Prelude.Tests.{if◌then◌else◌, nat_eq, leb}
use chat_app_csd.Prelude.Int.{ℤ, pos, negsuc}

-- An f-string, by its parts.
abbrev pub f_string : List String → String
f_string [] = ""
f_string (s ∷ parts) = append s (f_string parts)

-- `k in s`, for a set of texts kept as a list
abbrev pub contains : List String → String → Bool
contains [] k = false
contains (x ∷ xs) k = x == k || contains xs k

pub contains-append :
    (xs ys : List String) (k : String) → contains (xs ++ ys) k ≡ (contains xs k || contains ys k)
contains-append [] ys k = refl
contains-append (x ∷ xs) ys k = ground (arith, contains-append xs ys k)

-- No text stands twice in the list.
abbrev pub Distinct : List String → Type 0
Distinct [] = Unit
Distinct (x ∷ xs) = (contains xs x ≡ false) × Distinct xs

pub Distinct-snoc :
    (xs : List String) (k : String) → contains xs k ≡ false → Distinct xs → Distinct (xs ++ k ∷ [])
Distinct-snoc [] k h d = (refl, tt)
Distinct-snoc (x ∷ xs) k h d = ground (
  arith,
  Distinct-snoc xs k (ground arith) d.1,
  contains-append xs (k ∷ []) x,
  eq_iff x k,
  eq_iff k x,
)

-- `bool(s)`
abbrev pub is_empty : String → Bool
is_empty String.[] = true
is_empty (String.◌∷◌ c s) = false

-- the characters that `str.isspace` accepts
unfoldable pub is_space : ℕ → Bool
is_space c =
    (leb 9 c && leb c 13)
    || (leb 28 c && leb c 32)
    || nat_eq c 133
    || nat_eq c 160
    || nat_eq c 5760
    || (leb 8192 c && leb c 8202)
    || (leb 8232 c && leb c 8233)
    || nat_eq c 8239
    || nat_eq c 8287
    || nat_eq c 12288

unfoldable pub lstrip : String → String
unfolding is_space
lstrip String.[] = ""
lstrip (String.◌∷◌ c s) = if is_space (code c) then lstrip s else String.◌∷◌ c s

unfoldable pub rstrip : String → String
unfolding is_space
rstrip String.[] = ""
rstrip (String.◌∷◌ c s) =
    let rest = rstrip s in if is_empty rest && is_space (code c) then "" else String.◌∷◌ c rest

-- `s.strip()`
unfoldable pub strip : String → String
unfolding lstrip rstrip
strip s = rstrip (lstrip s)

-- `s[:n]`
unfoldable pub prefix : ℕ → String → String
prefix zero s = ""
prefix (suc n) String.[] = ""
prefix (suc n) (String.◌∷◌ c s) = String.◌∷◌ c (prefix n s)

pub count-prefix-le : (n : ℕ) (s : String) → count (prefix n s) ≤ n
unfolding prefix
count-prefix-le zero s = omega (arith, length-nil)
count-prefix-le (suc n) String.[] = omega (arith, length-nil)
count-prefix-le (suc n) (String.◌∷◌ c s) =
    omega (arith, length-cons c (prefix n s), count-prefix-le n s)

-- The character of a digit.
abbrev pub digit_char : ℕ → Char
digit_char zero = "0"
digit_char (suc zero) = "1"
digit_char (suc (suc zero)) = "2"
digit_char (suc (suc (suc zero))) = "3"
digit_char (suc (suc (suc (suc zero)))) = "4"
digit_char (suc (suc (suc (suc (suc zero))))) = "5"
digit_char (suc (suc (suc (suc (suc (suc zero)))))) = "6"
digit_char (suc (suc (suc (suc (suc (suc (suc zero))))))) = "7"
digit_char (suc (suc (suc (suc (suc (suc (suc (suc zero)))))))) = "8"
digit_char _ = "9"

-- The fuel `suc n` is enough: each round divides `n` by ten.
unfoldable pub decimal_from : ℕ → ℕ → String → String
decimal_from zero n acc = acc
decimal_from (suc f) n acc =
    let text = String.◌∷◌ (digit_char (n % 10)) acc in
    let rest = decimal_from f (n / 10) text in if leb n 9 then text else rest

unfoldable pub str_nat : ℕ → String
unfolding decimal_from
str_nat n = decimal_from (suc n) n ""

-- `str(n)` of an integer
unfoldable pub str_int : ℤ → String
unfolding str_nat
str_int (pos n) = str_nat n
str_int (negsuc n) = String.◌∷◌ "-" (str_nat (suc n))

-- The digits of a numeral; one `_` may stand between two digits.
unfoldable pub digits_value : Bool → ℕ → String → Option ℕ
digits_value after_digit n String.[] = if after_digit then some n else none
digits_value after_digit n (String.◌∷◌ c s) =
    let d = code c in
    let next = digits_value true (n * 10 + (d - 48)) s in
    let gap = digits_value false n s in
    if leb 48 d && leb d 57 then next else if nat_eq d 95 && after_digit then gap else none

abbrev pub signed : Bool → Option ℕ → Option ℤ
signed minus none = none
signed false (some n) = some (pos n)
signed true (some zero) = some (pos 0)
signed true (some (suc n)) = some (negsuc n)

unfoldable pub numeral_value : String → Option ℤ
unfolding digits_value
numeral_value String.[] = none
numeral_value (String.◌∷◌ c s) =
    if nat_eq (code c) 45
    then signed true (digits_value false 0 s)
    else if nat_eq (code c) 43
    then signed false (digits_value false 0 s)
    else signed false (digits_value false 0 (String.◌∷◌ c s))

-- `int(s)`, `none` where it raises ValueError
unfoldable pub int_of_text : String → Option ℤ
unfolding numeral_value strip
int_of_text s = numeral_value (strip s)

int_of_text_tests :
    (int_of_text " -1_0\n" ≡ some (negsuc 9))
    × (int_of_text "1__0" ≡ none)
    × (int_of_text "_1" ≡ none)
    × (int_of_text "" ≡ none)
    × (str_int (negsuc 1234) ≡ "-1235")
    × (str_int (pos 0) ≡ "0")
    × (strip "  a b " ≡ "a b")
    × (prefix 2 "abc" ≡ "ab")
unfolding int_of_text str_int strip prefix
int_of_text_tests = (refl, refl, refl, refl, refl, refl, refl, refl)
