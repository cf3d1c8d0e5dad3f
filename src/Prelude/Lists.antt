-- ===== src/Prelude/Lists.antt =====
-- Lists measured by native numbers, under the library's names.
use Prim.Native.Nat.{ℕ, zero, suc, ◌+◌, ◌-◌, ◌≤◌, ◌<◌, min}
use mathlib.Core.Path.{◌≡◌, refl, ap}
use mathlib.Core.List.{List, [], ◌∷◌, ◌++◌, map}
use native.Mathlib.Omega.{arith}

module _ {ℓ} {A : Type ℓ} where
  abbrev pub length : List A → ℕ
  length [] = 0
  length (x ∷ xs) = suc (length xs)

  abbrev pub take : ℕ → List A → List A
  take zero xs = []
  take (suc n) [] = []
  take (suc n) (x ∷ xs) = x ∷ take n xs

  abbrev pub drop : ℕ → List A → List A
  drop zero xs = xs
  drop (suc n) [] = []
  drop (suc n) (x ∷ xs) = drop n xs

  -- The predicate holds of every element.
  abbrev pub All {κ} : (A → Type κ) → List A → Type κ
  All P [] = Unit
  All P (x ∷ xs) = P x × All P xs

module _ {ℓ} {A : Type ℓ} where
  pub length-append : (xs ys : List A) → length (xs ++ ys) ≡ length xs + length ys
  length-append [] ys = omega arith
  length-append (x ∷ xs) ys = omega (arith, length-append xs ys)

  pub take-append-drop : (n : ℕ) (xs : List A) → take n xs ++ drop n xs ≡ xs
  take-append-drop zero xs = refl
  take-append-drop (suc n) [] = refl
  take-append-drop (suc n) (x ∷ xs) = ap (◌∷◌ x) (take-append-drop n xs)

  pub length-take : (n : ℕ) (xs : List A) → length (take n xs) ≡ min n (length xs)
  length-take zero xs = omega arith
  length-take (suc n) [] = omega arith
  length-take (suc n) (x ∷ xs) = omega (arith, length-take n xs)

  pub length-drop : (n : ℕ) (xs : List A) → length (drop n xs) ≡ length xs - n
  length-drop zero xs = omega arith
  length-drop (suc n) [] = omega arith
  length-drop (suc n) (x ∷ xs) = omega (arith, length-drop n xs)

  pub drop_all : (n : ℕ) (xs : List A) → length xs ≤ n → drop n xs ≡ []
  drop_all zero [] h = refl
  drop_all zero (x ∷ xs) h = absurd (omega arith)
  drop_all (suc n) [] h = refl
  drop_all (suc n) (x ∷ xs) h = drop_all n xs (omega arith)

  pub All-append {κ} : (P : A → Type κ) (xs ys : List A) → All P xs → All P ys → All P (xs ++ ys)
  All-append P [] ys hx hy = hy
  All-append P (x ∷ xs) ys hx hy = (hx.0, All-append P xs ys hx.1 hy)

  pub length-map {κ} : {B : Type κ} (xs : List A) (f : A → B) → length (map f xs) ≡ length xs
  length-map [] f = refl
  length-map (x ∷ xs) f = ap suc (length-map xs f)

  -- One element of the list is replaced.
  pub All-middle {κ} :
      (P : A → Type κ) (before : List A) (x : A) (after : List A)
      → All P (before ++ x ∷ after)
      → P x × ((y : A) → P y → All P (before ++ y ∷ after))
  All-middle P [] x after h = (h.0, λ y hy. (hy, h.1))
  All-middle P (b ∷ before) x after h =
      let (hx, put) = All-middle P before x after h.1 in (hx, λ y hy. (h.0, put y hy))

  pub All-map {κ μ} :
      (P : A → Type κ) (Q : A → Type μ) (xs : List A) → ((x : A) → P x → Q x) → All P xs → All Q xs
  All-map P Q [] f h = tt
  All-map P Q (x ∷ xs) f h = (f x h.0, All-map P Q xs f h.1)

-- A sum over a list.
module _ {ℓ} {A : Type ℓ} where
  abbrev pub total_by : (A → ℕ) → List A → ℕ
  total_by w [] = 0
  total_by w (x ∷ xs) = w x + total_by w xs

  pub total_by-append :
      (w : A → ℕ) (xs ys : List A) → total_by w (xs ++ ys) ≡ total_by w xs + total_by w ys
  total_by-append w [] ys = omega arith
  total_by-append w (x ∷ xs) ys = omega (arith, total_by-append w xs ys)

  -- One element of the list is replaced.
  pub total_by-replace :
      (w : A → ℕ) (before : List A) (x y : A) (after : List A)
      → total_by w (before ++ y ∷ after) + w x ≡ total_by w (before ++ x ∷ after) + w y
  total_by-replace w before x y after =
      omega (arith, total_by-append w before (x ∷ after), total_by-append w before (y ∷ after))

  pub total_by-le :
      (w v : A → ℕ) (xs : List A) → ((x : A) → w x ≤ v x) → total_by w xs ≤ total_by v xs
  total_by-le w v [] h = omega arith
  total_by-le w v (x ∷ xs) h = omega (arith, h x, total_by-le w v xs h)

  pub total_by-le-length :
      (w : A → ℕ) (xs : List A) → ((x : A) → w x ≤ 1) → total_by w xs ≤ length xs
  total_by-le-length w [] h = omega arith
  total_by-le-length w (x ∷ xs) h = omega (arith, h x, total_by-le-length w xs h)

-- Strictly rising keys, each above `low` and none above `high`.
module _ {ℓ} {A : Type ℓ} (key : A → ℕ) where
  abbrev pub Ascending : ℕ → List A → ℕ → Type 0
  Ascending low [] high = low ≤ high
  Ascending low (x ∷ xs) high = (low < key x) × Ascending (key x) xs high

  pub Ascending-mono :
      (low : ℕ) (xs : List A) (a b : ℕ) → a ≤ b → Ascending low xs a → Ascending low xs b
  Ascending-mono low [] a b le h = omega arith
  Ascending-mono low (x ∷ xs) a b le h = (h.0, Ascending-mono (key x) xs a b le h.1)

  pub Ascending-snoc :
      (low : ℕ) (xs : List A) (x : A) (a : ℕ)
      → a < key x
      → Ascending low xs a
      → Ascending low (xs ++ x ∷ []) (key x)
  Ascending-snoc low [] x a lt h = omega arith
  Ascending-snoc low (y ∷ xs) x a lt h = (h.0, Ascending-snoc (key y) xs x a lt h.1)
