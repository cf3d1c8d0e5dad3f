-- ===== src/App/Times.antt =====
-- The response times that a process keeps.
use chat_app_csd.Prelude.{
  ℕ, zero, suc, ◌-◌, ◌≤◌, ◌<◌, ◌≡◌, refl, ap, ◌∙◌, true, false, List, [], ◌∷◌, ◌++◌, append-nil,
  append_assoc, arith, length, drop, length-drop, length-append, ltb,
}
use native.Mathlib.Decide.{dec_lt}
use chat_app_csd.App.{track, times_max}

abbrev pub track_all : List ℕ → List ℕ → List ℕ
track_all [] times = times
track_all (t ∷ ts) times = track_all ts (track t times)

-- The last hundred of a list.
abbrev pub last_hundred : List ℕ → List ℕ
last_hundred ts = drop (length ts - times_max) ts

lt→ltb : (a b : ℕ) → a < b → ltb a b ≡ true
lt→ltb a b h = ground arith

not-ltb : (a b : ℕ) → a ≤ b → ltb b a ≡ false
not-ltb a b h = ground arith

drop-append_one : (n : ℕ) (xs ys : List ℕ) → n ≤ length xs → drop n xs ++ ys ≡ drop n (xs ++ ys)
drop-append_one zero xs ys h = refl
drop-append_one (suc n) [] ys h = absurd (omega arith)
drop-append_one (suc n) (x ∷ xs) ys h = drop-append_one n xs ys (omega arith)

drop-drop : (n : ℕ) (xs : List ℕ) → drop 1 (drop n xs) ≡ drop (suc n) xs
drop-drop zero [] = refl
drop-drop zero (x ∷ xs) = refl
drop-drop (suc n) [] = refl
drop-drop (suc n) (x ∷ xs) = drop-drop n xs

short :
    (all : List ℕ) (t : ℕ)
    → length all < times_max
    → track t (last_hundred all) ≡ last_hundred (all ++ t ∷ [])
unfolding track
short all t h =
    let none_over : length all - times_max ≡ 0 = omega arith in
    let none_over' : length (all ++ t ∷ []) - times_max ≡ 0 =
      omega (arith, length-append all (t ∷ [])) in
    rw (none_over, none_over')
      (rw (not-ltb (length (all ++ t ∷ [])) times_max (omega (arith, length-append all (t ∷ []))))
        refl)

full :
    (all : List ℕ) (t : ℕ)
    → times_max ≤ length all
    → track t (last_hundred all) ≡ last_hundred (all ++ t ∷ [])
unfolding track
full all t h =
    let k : ℕ = length all - times_max in
    let moved : drop k all ++ t ∷ [] ≡ drop k (all ++ t ∷ []) =
      drop-append_one k all (t ∷ []) (omega arith) in
    let over : length (all ++ t ∷ []) - times_max ≡ suc k =
      omega (arith, length-append all (t ∷ [])) in
    rw (moved, over)
      (rw
        (lt→ltb times_max (length (drop k (all ++ t ∷ [])))
          (omega (arith, length-drop k (all ++ t ∷ []), length-append all (t ∷ []))))
        (drop-drop k (all ++ t ∷ [])))

tracked : (all : List ℕ) (t : ℕ) → track t (last_hundred all) ≡ last_hundred (all ++ t ∷ [])
tracked all t = elim (dec_lt (length all) times_max) [
  | yes h ↦ short all t h
  | no h ↦ full all t (omega arith)
]

track_all-last_hundred :
    (ts all : List ℕ) → track_all ts (last_hundred all) ≡ last_hundred (all ++ ts)
track_all-last_hundred [] all = rw append-nil
track_all-last_hundred (t ∷ ts) all =
    rw (tracked all t)
      (track_all-last_hundred ts (all ++ t ∷ []) ∙ ap last_hundred (append_assoc all (t ∷ []) ts))

-- From the start of the process, after any response times, it keeps the last hundred of them, in
-- order.
pub track_all_lem : (ts : List ℕ) → track_all ts [] ≡ last_hundred ts
track_all_lem ts = track_all-last_hundred ts []
