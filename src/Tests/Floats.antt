-- ===== src/Tests/Floats.antt =====
-- Floats as whole numbers of hundredths, for the examples.
use chat_app_csd.Prelude.{
  ℕ, zero, suc, ◌+◌, ◌-◌, ◌*◌, ◌/◌, ◌≤◌, ◌<◌, ◌≡◌, refl, sym, ap, ◌∙◌, true, Option, none, some,
  arith, leb, nat_eq, ℤ, pos, negsuc,
}
use native.Mathlib.Nat.{mul-le-mul, div-le_of_le-mul, mul_assoc, mul_comm}
use chat_app_csd.Value.{whole}
use chat_app_csd.App.Metrics.Numbers.{Floats}

abbrev toy_of_int : ℤ → Option ℕ
toy_of_int (pos n) = some (n * 100)
toy_of_int (negsuc n) = some 0

abbrev toy_div : ℕ → ℕ → Option ℕ
toy_div x zero = none
toy_div x (suc y) = some (x * 100 / suc y)

abbrev toy_div_int : ℤ → ℤ → Option ℕ
toy_div_int (pos m) (pos (suc n)) = some (m * 100 / suc n)
toy_div_int _ _ = none

pub toy_div_lem : (x n : ℕ) → 0 < n → toy_div x n ≡ some (x * 100 / n)
toy_div_lem x zero h = absurd (omega arith)
toy_div_lem x (suc n) h = refl

pub toy_div_int_lem : (m n : ℕ) → 0 < n → toy_div_int (pos m) (pos n) ≡ some (m * 100 / n)
toy_div_int_lem m zero h = absurd (omega arith)
toy_div_int_lem m (suc n) h = refl

pub leb_of_le : (m n : ℕ) → m ≤ n → leb m n ≡ true
leb_of_le m n h = ground (arith, h)

pub le_of_leb : (m n : ℕ) → leb m n ≡ true → m ≤ n
le_of_leb m n h = ground (arith, h)

pub toy_le_refl : (n : ℕ) → leb 0 n ≡ true → leb n n ≡ true
toy_le_refl n h = leb_of_le n n (omega arith)

pub toy_le_trans : (x y z : ℕ) → leb x y ≡ true → leb y z ≡ true → leb x z ≡ true
toy_le_trans x y z h k = leb_of_le x z (omega (arith, le_of_leb x y h, le_of_leb y z k))

pub toy_add_le : (x x' y y' : ℕ) → leb x x' ≡ true → leb y y' ≡ true → leb (x + y) (x' + y') ≡ true
toy_add_le x x' y y' h k = leb_of_le _ _ (omega (arith, le_of_leb x x' h, le_of_leb y y' k))

pub toy_sub_le : (x y n : ℕ) → leb x y ≡ true → leb (n - y) (n - x) ≡ true
toy_sub_le x y n h = leb_of_le _ _ (omega (arith, le_of_leb x y h))

pub toy_mul_le :
    (x x' y y' : ℕ) → leb x x' ≡ true → leb y y' ≡ true → leb (x * y / 100) (x' * y' / 100) ≡ true
toy_mul_le x x' y y' h k =
    leb_of_le _ _ (omega (arith, mul-le-mul (le_of_leb x x' h) (le_of_leb y y' k)))

hundreds : (n : ℕ) → 100 * (n * 100) ≡ n * 10000
hundreds n = omega arith

scaled : (m n : ℕ) → m * 100 * (n * 100) ≡ m * n * 10000
scaled m n =
    mul_assoc m 100 (n * 100) ∙ ap (λ (k : ℕ). m * k) (hundreds n) ∙ sym (mul_assoc m n 10000)

pub toy_mul_literal : (m n : ℕ) → m * 100 * (n * 100) / 100 ≡ m * n * 100
toy_mul_literal m n = omega (arith, scaled m n)

pub toy_quotient_le : (k m n : ℕ) → m ≤ k * n → m * 100 * 100 / (n * 100) ≤ k * 100
toy_quotient_le k m n h = div-le_of_le-mul (n * 100) (omega (arith, h, scaled n k, mul_comm n k))

pub toy_div_le :
    (k m n q : ℕ)
    → 0 < n
    → m ≤ k * n
    → toy_div (m * 100) (n * 100) ≡ some q
    → (leb 0 q ≡ true) × (leb q (k * 100) ≡ true)
toy_div_le k m n q h le e =
    let same : some (m * 100 * 100 / (n * 100)) ≡ some q =
      sym (toy_div_lem (m * 100) (n * 100) (omega (arith, h))) ∙ e in
    (
      leb_of_le 0 q (omega arith),
      leb_of_le q (k * 100) (ground (arith, toy_quotient_le k m n le, same)),
    )

pub toy_ratio_le : (m n : ℕ) → m ≤ n → m * 100 / n ≤ 100
toy_ratio_le m n h = div-le_of_le-mul n (omega (arith, h))

abbrev pub floats : Floats
floats = record {
  Number = ℕ;
  literal = λ n. n * 100;
  half = 50;
  fifth = 20;
  of_int = toy_of_int;
  add = λ x y. x + y;
  sub = λ x y. x - y;
  mul = λ x y. x * y / 100;
  div = toy_div;
  div_int = toy_div_int;
  round = λ d x. x;
  milliseconds = λ t. t;
  observed = λ x. record { shown = "1.0"; is_zero = nat_eq x 0; trunc = whole (pos 1) };
  le = leb;
  le_refl = toy_le_refl;
  le_trans = toy_le_trans;
  literal_le = λ m n h. leb_of_le (m * 100) (n * 100) (omega (arith, h));
  of_int_literal = λ n h. refl;
  add_le = λ x x' y y' h1 h2 h3 h4 h5 h6. toy_add_le x x' y y' h3 h4;
  add_literal = λ m n h. omega arith;
  sub_le = λ x y n h1 h2 h3 h4. toy_sub_le x y (n * 100) h2;
  sub_literal = λ m n h k. omega arith;
  mul_le = λ x x' y y' h1 h2 h3 h4 h5 h6. toy_mul_le x x' y y' h3 h4;
  mul_literal = λ m n h. toy_mul_literal m n;
  le_half = refl;
  le_fifth = refl;
  half_le = refl;
  fifth_le = refl;
  mul_half = λ n h. omega arith;
  mul_fifth = λ n h. omega arith;
  div_literal = λ x n h k. (x * 100 / (n * 100), toy_div_lem x (n * 100) (omega (arith, h)));
  div_le = λ k m n q h le small e. toy_div_le k m n q h le e;
  div_int_le = λ m n h le. (
    m * 100 / n,
    toy_div_int_lem m n h,
    leb_of_le 0 _ (omega arith),
    leb_of_le _ 100 (toy_ratio_le m n le),
  );
  round_le = λ d x y h1 h2 h3. h2;
  round_literal = λ d n h. refl;
}
