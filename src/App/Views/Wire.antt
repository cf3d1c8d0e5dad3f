-- ===== src/App/Views/Wire.antt =====
-- The way of an event from `json.dumps` of app.py to the listener of static/app.js, which calls
-- `JSON.parse`. A throw there ends the listener, and the page stays as it was. A dict has each key
-- once; the page does not look at the order of an object's keys, which is kept here.
use chat_app_csd.Prelude.{
  ℕ, suc, ◌≡◌, refl, Bool, true, ◌&&◌, ℤ, pos, negsuc, Option, none, some, List, [], ◌∷◌, ◌++◌, All,
  leb, nat_eq, if◌then◌else◌,
}
use chat_app_csd.Value.{Value, Fields, Items, int, float, list, dict, end, field, nil, cons}
use chat_app_csd.App.{Packages}
use chat_app_csd.App.Schema.{is_finite}
use chat_app_csd.App.Views.{Shown, handle_server_message, screen}

-- A double has the integers up to 2^53.
abbrev is_safe : ℤ → Bool
is_safe (pos n) = leb n 9007199254740992
is_safe (negsuc n) = leb (suc n) 9007199254740992

unfoldable mutual
  pub is_exact : Value → Bool
  is_exact (int n) = is_safe n
  is_exact (float f) = is_finite f
  is_exact (list vs) = are_exact vs
  is_exact (dict d) = has_exact d
  is_exact _ = true

  are_exact : Items → Bool
  are_exact nil = true
  are_exact (cons v vs) = is_exact v && are_exact vs

  has_exact : Fields → Bool
  has_exact end = true
  has_exact (field k v d) = is_exact v && has_exact d

-- `none` where `JSON.parse` throws
pub record Wire : Type 0 where
  pub parsed : Value → Option Value
  pub parsed_exact : (v : Value) → is_exact v ≡ true → parsed v ≡ some v

module _ (p : Packages) (w : Wire) where
  abbrev listened : Option Value → List Shown
  listened none = []
  listened (some v) = handle_server_message p v

  -- The messages on the page of a socket
  pub page : ℕ → List (ℕ × Value) → List Shown
  page ws [] = []
  page ws ((k, v) ∷ sent) =
      let rest = page ws sent in if nat_eq k ws then listened (w.parsed v) ++ rest else rest

  pub page-screen :
      (ws : ℕ) (sent : List (ℕ × Value))
      → All (λ s. is_exact s.1 ≡ true) sent
      → page ws sent ≡ screen p ws sent
  unfolding page screen
  page-screen ws [] h = refl
  page-screen ws ((k, v) ∷ sent) h = rw (w.parsed_exact v h.0, page-screen ws sent h.1) refl
