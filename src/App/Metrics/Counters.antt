-- ===== src/App/Metrics/Counters.antt =====
-- The counters of /proc/stat, round after round.
use chat_app_csd.Prelude.{
  ℕ, zero, suc, ◌+◌, ◌≤◌, String, ◌≡◌, refl, ◌⊎◌, Option, none, some, List, [], ◌∷◌, map, arith, ℤ,
  pos,
}
use chat_app_csd.App.Metrics.{counters, sum, get_elem?}

abbrev pub sum_nat : List ℕ → ℕ
sum_nat [] = 0
sum_nat (n ∷ ns) = n + sum_nat ns

-- No counter has gone back.
abbrev pub LeAll : List ℕ → List ℕ → Type 0
LeAll [] [] = Unit
LeAll (x ∷ xs) (y ∷ ys) = (x ≤ y) × LeAll xs ys
LeAll _ _ = ⊥

-- The line has these counters, of which the fourth is the idle time.
abbrev pub HasCounters : Option String → List ℕ → Type 0
HasCounters none vals = ⊥
HasCounters (some line) vals =
    (idle : ℕ) × (counters line ≡ some (map pos vals)) × (get_elem? vals 3 ≡ some idle)

-- The round raises.
abbrev pub IsFailed : Option String → Type 0
IsFailed none = Unit
IsFailed (some line) =
    (counters line ≡ none)
    ⊎ ((vals : List ℤ) × (counters line ≡ some vals) × (get_elem? vals 3 ≡ none))

abbrev pub GrowsFrom : Option (List ℕ) → List ℕ → Type 0
GrowsFrom none vals = Unit
GrowsFrom (some before) vals = LeAll before vals

-- Every round fails, or reads counters none of which is behind the last that were read.
abbrev pub Rising : Option (List ℕ) → List (Option String) → Type 0
Rising before [] = Unit
Rising before (read ∷ reads) =
    (IsFailed read × Rising before reads)
    ⊎ ((vals : List ℕ) × HasCounters read vals × GrowsFrom before vals × Rising (some vals) reads)

pub sum-map : (vals : List ℕ) → sum (map pos vals) ≡ pos (sum_nat vals)
sum-map [] = refl
sum-map (n ∷ vals) = rw (sum-map vals) refl

pub get_elem?-map :
    (vals : List ℕ) (n k : ℕ)
    → get_elem? vals n ≡ some k
    → get_elem? (map pos vals) n ≡ some (pos k)
get_elem?-map [] n k h = absurd (ground (arith, h))
get_elem?-map (x ∷ vals) zero k h = ground (arith, h)
get_elem?-map (x ∷ vals) (suc n) k h = get_elem?-map vals n k h

pub sum-LeAll : (xs ys : List ℕ) → LeAll xs ys → sum_nat xs ≤ sum_nat ys
sum-LeAll [] [] h = omega arith
sum-LeAll [] (y ∷ ys) h = absurd h
sum-LeAll (x ∷ xs) [] h = absurd h
sum-LeAll (x ∷ xs) (y ∷ ys) h = omega (arith, h.0, sum-LeAll xs ys h.1)

-- One counter grows by no more than their sum.
pub part-LeAll :
    (xs ys : List ℕ) (n a b : ℕ)
    → LeAll xs ys
    → get_elem? xs n ≡ some a
    → get_elem? ys n ≡ some b
    → (a ≤ b) × (b + sum_nat xs ≤ a + sum_nat ys)
part-LeAll [] ys n a b h ha hb = absurd (ground (arith, ha))
part-LeAll (x ∷ xs) [] n a b h ha hb = absurd h
part-LeAll (x ∷ xs) (y ∷ ys) zero a b h ha hb =
    (ground (arith, h.0, ha, hb), ground (arith, h.0, ha, hb, sum-LeAll xs ys h.1))
part-LeAll (x ∷ xs) (y ∷ ys) (suc n) a b h ha hb =
    let (le, part) = part-LeAll xs ys n a b h.1 ha hb in (le, omega (arith, part, h.0))
