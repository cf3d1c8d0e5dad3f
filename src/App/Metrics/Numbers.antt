-- ===== src/App/Metrics/Numbers.antt =====
-- Python's floats as `/health` uses them. The record states what IEEE 754 says of correctly rounded
-- operations: between 0 and 2^53 they are monotone, and exact on whole numbers.
use chat_app_csd.Prelude.{ℕ, ◌+◌, ◌-◌, ◌*◌, ◌≤◌, ◌<◌, ◌≡◌, Bool, true, Option, some, arith, ℤ, pos}
use chat_app_csd.Value.{Float}

-- The whole numbers up to this one are floats.
abbrev pub exact : ℕ
exact = 9007199254740992

pub record Floats : Type 1 where
  pub Number : Type 0
  -- A literal such as `100.0`.
  pub literal : ℕ → Number
  -- `0.5` and `0.2`
  pub half : Number
  pub fifth : Number
  -- The conversion of an integer; `none` is an OverflowError.
  pub of_int : ℤ → Option Number
  pub add : Number → Number → Number
  pub sub : Number → Number → Number
  pub mul : Number → Number → Number
  -- `none` is a ZeroDivisionError.
  pub div : Number → Number → Option Number
  -- The quotient of two integers; `none` is an exception of either kind.
  pub div_int : ℤ → ℤ → Option Number
  -- `round(x, n)`
  pub round : ℕ → Number → Number
  -- A time that `perf_counter` has measured, in milliseconds.
  pub milliseconds : ℕ → Number
  -- What the program sees of a float.
  pub observed : Number → Float
  -- `x <= y`
  pub le : Number → Number → Bool
  pub le_refl : (n : Number) → le (literal 0) n ≡ true → le n n ≡ true
  pub le_trans : (x y z : Number) → le x y ≡ true → le y z ≡ true → le x z ≡ true
  pub literal_le : (m n : ℕ) → m ≤ n → le (literal m) (literal n) ≡ true
  pub of_int_literal : (n : ℕ) → n ≤ exact → of_int (pos n) ≡ some (literal n)
  pub add_le :
      (x x' y y' : Number)
      → le (literal 0) x ≡ true
      → le (literal 0) y ≡ true
      → le x x' ≡ true
      → le y y' ≡ true
      → le x' (literal exact) ≡ true
      → le y' (literal exact) ≡ true
      → le (add x y) (add x' y') ≡ true
  pub add_literal : (m n : ℕ) → m + n ≤ exact → add (literal m) (literal n) ≡ literal (m + n)
  pub sub_le :
      (x y : Number) (n : ℕ)
      → le (literal 0) x ≡ true
      → le x y ≡ true
      → le y (literal n) ≡ true
      → n ≤ exact
      → le (sub (literal n) y) (sub (literal n) x) ≡ true
  pub sub_literal : (m n : ℕ) → n ≤ m → m ≤ exact → sub (literal m) (literal n) ≡ literal (m - n)
  pub mul_le :
      (x x' y y' : Number)
      → le (literal 0) x ≡ true
      → le (literal 0) y ≡ true
      → le x x' ≡ true
      → le y y' ≡ true
      → le x' (literal exact) ≡ true
      → le y' (literal exact) ≡ true
      → le (mul x y) (mul x' y') ≡ true
  pub mul_literal : (m n : ℕ) → m * n ≤ exact → mul (literal m) (literal n) ≡ literal (m * n)
  pub le_half : le (literal 0) half ≡ true
  pub le_fifth : le (literal 0) fifth ≡ true
  pub half_le : le half (literal 1) ≡ true
  pub fifth_le : le fifth (literal 1) ≡ true
  pub mul_half : (n : ℕ) → n ≤ 1000 → mul (literal (2 * n)) half ≡ literal n
  pub mul_fifth : (n : ℕ) → n ≤ 1000 → mul (literal (5 * n)) fifth ≡ literal n
  pub div_literal :
      (x : Number) (n : ℕ) → 0 < n → n ≤ exact → (q : Number) × (div x (literal n) ≡ some q)
  pub div_le :
      (k m n : ℕ) (q : Number)
      → 0 < n
      → m ≤ k * n
      → k * n ≤ exact
      → div (literal m) (literal n) ≡ some q
      → (le (literal 0) q ≡ true) × (le q (literal k) ≡ true)
  pub div_int_le :
      (m n : ℕ)
      → 0 < n
      → m ≤ n
      → (q : Number) × (div_int (pos m) (pos n) ≡ some q)
        × (le (literal 0) q ≡ true)
        × (le q (literal 1) ≡ true)
  pub round_le :
      (d : ℕ) (x y : Number)
      → le (literal 0) x ≡ true
      → le x y ≡ true
      → le y (literal exact) ≡ true
      → le (round d x) (round d y) ≡ true
  pub round_literal : (d n : ℕ) → n ≤ exact → round d (literal n) ≡ literal n

-- Between 0 and a whole number; a percentage.
abbrev pub IsWithin : (f : Floats) → ℕ → f.Number → Type 0
IsWithin f n x = (f.le (f.literal 0) x ≡ true) × (f.le x (f.literal n) ≡ true)

abbrev pub IsPercent : (f : Floats) → f.Number → Type 0
IsPercent f x = IsWithin f 100 x

minus_self : (n : ℕ) → n - n ≡ 0
minus_self n = omega arith

minus_zero : (n : ℕ) → n - 0 ≡ n
minus_zero n = omega arith

module _ (f : Floats) where
  pub literal-IsWithin : (k n : ℕ) → k ≤ n → IsWithin f n (f.literal k)
  literal-IsWithin k n h = (f.literal_le 0 k (omega arith), f.literal_le k n h)

  pub le_literal : (m n : ℕ) (x : f.Number) → m ≤ n → IsWithin f m x → f.le x (f.literal n) ≡ true
  le_literal m n x h w = f.le_trans x (f.literal m) (f.literal n) w.1 (f.literal_le m n h)

  zero_le : (n : ℕ) → f.le (f.literal 0) (f.literal n) ≡ true
  zero_le n = f.literal_le 0 n (omega arith)

  pub round-IsWithin :
      (d n : ℕ) (x : f.Number) → n ≤ exact → IsWithin f n x → IsWithin f n (f.round d x)
  round-IsWithin d n x small w = (
    rw (f.round_literal d 0 (omega arith)) at
        (f.round_le d (f.literal 0) x (zero_le 0) w.0 (le_literal n exact x small w)),
    rw (f.round_literal d n small) at
        (f.round_le d x (f.literal n) w.0 w.1 (f.literal_le n exact small)),
  )

  pub sub-IsWithin :
      (n : ℕ) (x : f.Number) → n ≤ exact → IsWithin f n x → IsWithin f n (f.sub (f.literal n) x)
  sub-IsWithin n x small w = (
    rw (f.sub_literal n n (omega arith) small, minus_self n) at
        (f.sub_le x (f.literal n) n w.0 w.1 (f.literal_le n n (omega arith)) small),
    rw (f.sub_literal n 0 (omega arith) small, minus_zero n) at
        (f.sub_le (f.literal 0) x n (zero_le 0) w.0 w.1 small),
  )

  pub mul-IsWithin :
      (m n : ℕ) (x y : f.Number)
      → m ≤ exact
      → n ≤ exact
      → m * n ≤ exact
      → IsWithin f m x
      → IsWithin f n y
      → IsWithin f (m * n) (f.mul x y)
  mul-IsWithin m n x y hm hn small wx wy = (
    rw (f.mul_literal 0 0 (omega arith)) at (
        f.mul_le (f.literal 0) x (f.literal 0) y (zero_le 0) (zero_le 0) wx.0 wy.0
          (le_literal m exact x hm wx) (le_literal n exact y hn wy)),
    rw (f.mul_literal m n small) at (
        f.mul_le x (f.literal m) y (f.literal n) wx.0 wy.0 wx.1 wy.1 (f.literal_le m exact hm)
          (f.literal_le n exact hn)),
  )

  pub add-IsWithin :
      (m n : ℕ) (x y : f.Number)
      → m + n ≤ exact
      → IsWithin f m x
      → IsWithin f n y
      → IsWithin f (m + n) (f.add x y)
  add-IsWithin m n x y small wx wy = (
    rw (f.add_literal 0 0 (omega arith)) at (
        f.add_le (f.literal 0) x (f.literal 0) y (zero_le 0) (zero_le 0) wx.0 wy.0
          (le_literal m exact x (omega (arith, small)) wx)
          (le_literal n exact y (omega (arith, small)) wy)),
    rw (f.add_literal m n small) at (
        f.add_le x (f.literal m) y (f.literal n) wx.0 wy.0 wx.1 wy.1
          (f.literal_le m exact (omega (arith, small)))
          (f.literal_le n exact (omega (arith, small)))),
  )

  -- A product with a factor between 0 and 1 whose products with whole numbers are known.
  scaled-IsWithin :
      (m n : ℕ) (x y : f.Number)
      → m ≤ exact
      → IsWithin f m x
      → IsWithin f 1 y
      → f.mul (f.literal m) y ≡ f.literal n
      → IsWithin f n (f.mul x y)
  scaled-IsWithin m n x y small wx wy e =
      let top = le_literal 1 exact y (omega arith) wy in
      (
        rw (f.mul_literal 0 0 (omega arith)) at (
            f.mul_le (f.literal 0) x (f.literal 0) y (zero_le 0) (zero_le 0) wx.0 wy.0
              (le_literal m exact x small wx) top),
        rw e at (
            f.mul_le x (f.literal m) y y wx.0 wy.0 wx.1 (f.le_refl y wy.0)
              (f.literal_le m exact small) top),
      )

  pub half-IsWithin :
      (n : ℕ) (x : f.Number) → n ≤ 1000 → IsWithin f (2 * n) x → IsWithin f n (f.mul x f.half)
  half-IsWithin n x small w =
      scaled-IsWithin (2 * n) n x f.half (omega (arith, small)) w (f.le_half, f.half_le)
        (f.mul_half n small)

  pub fifth-IsWithin :
      (n : ℕ) (x : f.Number) → n ≤ 1000 → IsWithin f (5 * n) x → IsWithin f n (f.mul x f.fifth)
  fifth-IsWithin n x small w =
      scaled-IsWithin (5 * n) n x f.fifth (omega (arith, small)) w (f.le_fifth, f.fifth_le)
        (f.mul_fifth n small)
