-- ===== src/App/Sockets.antt =====
-- The two dicts of sockets.
use chat_app_csd.Prelude.{
  ℕ, ◌≤◌, String, count, ◌≡◌, refl, sym, ap, ◌∙◌, inl, inr, Bool, none, List, [], ◌∷◌, arith,
  Bool-cases, if◌then◌else◌, nat_eq, is_empty, strip, prefix, count-prefix-le,
}
use chat_app_csd.Db.{raised, returned, Outcome}
use chat_app_csd.App.Socket.{ws_leave, join_as, join_name, name_or_default, stripped}
use chat_app_csd.App.{
  Packages, find_socket, pop_socket, put_socket, App, broadcast_ws, pop_all, dead_of, Draw,
  new_keys,
}
use chat_app_csd.Value.{Value, text}
use chat_app_csd.App.Kept.{IsKept}

abbrev name_max : ℕ
name_max = 24

-- The sockets of a dict, in its order.
abbrev pub sockets : {A : Type 0} → List (ℕ × A) → List ℕ
sockets [] = []
sockets ((ws, v) ∷ d) = ws ∷ sockets d

abbrev remove : ℕ → List ℕ → List ℕ
remove k [] = []
remove k (j ∷ l) = let rest = remove k l in if nat_eq j k then rest else j ∷ rest

abbrev insert : ℕ → List ℕ → List ℕ
insert k [] = k ∷ []
insert k (j ∷ l) = if nat_eq j k then j ∷ l else j ∷ insert k l

-- Every name has at most 24 characters.
abbrev pub AreShort : List (ℕ × String) → Type 0
AreShort [] = Unit
AreShort ((ws, name) ∷ d) = (count name ≤ name_max) × AreShort d

module _ {A : Type 0} where
  sockets-pop_socket : (k : ℕ) (d : List (ℕ × A)) → sockets (pop_socket k d) ≡ remove k (sockets d)
  sockets-pop_socket k [] = refl
  sockets-pop_socket k ((j, v) ∷ d) = ground (arith, sockets-pop_socket k d)

  sockets-put_socket :
      (k : ℕ) (v : A) (d : List (ℕ × A)) → sockets (put_socket k v d) ≡ insert k (sockets d)
  sockets-put_socket k v [] = refl
  sockets-put_socket k v ((j, w) ∷ d) = ground (arith, sockets-put_socket k v d)

  pub find-pop_socket : (k : ℕ) (d : List (ℕ × A)) → find_socket k (pop_socket k d) ≡ none
  find-pop_socket k [] = refl
  find-pop_socket k ((j, v) ∷ d) = ground (arith, find-pop_socket k d)

pop-AreShort : (k : ℕ) (d : List (ℕ × String)) → AreShort d → AreShort (pop_socket k d)
pop-AreShort k [] h = tt
pop-AreShort k ((j, v) ∷ d) h = elim (Bool-cases (nat_eq j k)) [
  | inl same ↦ rw same (pop-AreShort k d h.1)
  | inr other ↦ rw other (h.0, pop-AreShort k d h.1)
]

put-AreShort :
    (k : ℕ) (v : String) (d : List (ℕ × String))
    → count v ≤ name_max
    → AreShort d
    → AreShort (put_socket k v d)
put-AreShort k v [] le h = (le, tt)
put-AreShort k v ((j, w) ∷ d) le h = elim (Bool-cases (nat_eq j k)) [
  | inl same ↦ rw same (le, h.1)
  | inr other ↦ rw other (h.0, put-AreShort k v d le h.1)
]

short_name : (s : String) → count (name_or_default (prefix name_max s)) ≤ name_max
short_name s = elim (Bool-cases (is_empty (prefix name_max s))) [
  | inl e ↦ rw e (omega arith)
  | inr e ↦ rw e (count-prefix-le name_max s)
]

module _ (p : Packages) where
  -- A socket has a name exactly if it has keys, in the same order, and names are short.
  pub record IsPaired (app : App p) : Type 0 where
    pub paired : sockets app.clients ≡ sockets app.client_keys
    pub short : AreShort app.clients

  pop_both-IsPaired :
      (ws : ℕ) (app : App p)
      → IsPaired app
      → IsPaired (record app {
        clients = pop_socket ws app.clients;
        client_keys = pop_socket ws app.client_keys;
      })
  pop_both-IsPaired ws app h = record {
    paired =
        sockets-pop_socket ws app.clients
        ∙ ap (remove ws) h.paired
        ∙ sym (sockets-pop_socket ws app.client_keys);
    short = pop-AreShort ws app.clients h.short;
  }

  pub ws_leave-IsPaired : (ws : ℕ) (app : App p) → IsPaired app → IsPaired (ws_leave p ws app)
  unfolding ws_leave
  ws_leave-IsPaired ws app h = pop_both-IsPaired ws app h

  pop_all-IsPaired :
      (gone : List ℕ) (app : App p)
      → IsPaired app
      → IsPaired (record app {
        clients = pop_all gone app.clients;
        client_keys = pop_all gone app.client_keys;
      })
  pop_all-IsPaired [] app h = record { paired = h.paired; short = h.short }
  pop_all-IsPaired (ws ∷ gone) app h =
      let r = pop_all-IsPaired gone _ (pop_both-IsPaired ws app h) in
      record { paired = r.paired; short = r.short }

  broadcast-IsPaired :
      (dead : ℕ → Bool) (payload : Value) (app : App p)
      → IsPaired app
      → IsPaired (broadcast_ws p dead payload app)
  unfolding broadcast_ws
  broadcast-IsPaired dead payload app h =
      let r = pop_all-IsPaired (dead_of dead app.clients) app h in
      record { paired = r.paired; short = r.short }

  -- A name that a join takes is short.
  abbrev IsShort : Outcome String → Type 0
  IsShort raised = Unit
  IsShort (returned name) = count name ≤ name_max

  stripped-IsShort : (v : Value) → IsShort (stripped v)
  stripped-IsShort (text s) = short_name (strip s)
  stripped-IsShort _ = tt

  join_as-IsPaired :
      (ws : ℕ) (draw : Draw) (app : App p) (name : Outcome String)
      → IsShort name
      → IsPaired app
      → IsPaired (join_as p ws draw app name).1
  join_as-IsPaired ws draw app raised le h = h
  join_as-IsPaired ws draw app (returned name) le h =
      let paired =
        sockets-put_socket ws name app.clients
        ∙ ap (insert ws) h.paired
        ∙ sym (sockets-put_socket ws (new_keys p draw.key_seed) app.client_keys) in
      let short = put-AreShort ws name app.clients le h.short in
      elim (Bool-cases (draw.dead ws)) [
        | inl dead ↦ rw dead (record { paired = paired; short = short })
        | inr alive ↦ rw alive (record { paired = paired; short = short })
      ]

  pub IsPaired-IsKept : IsKept p IsPaired
  unfolding join_name
  IsPaired-IsKept = record {
    same = λ app after clients keys sent h. record {
      paired = rw (clients, keys) h.paired;
      short = rw clients h.short;
    };
    told = λ dead username content time app h. broadcast-IsPaired dead _ app h;
    gone = ws_leave-IsPaired;
    came = λ ws draw msg app h. join_as-IsPaired ws draw app _ (stripped-IsShort _) h;
  }
