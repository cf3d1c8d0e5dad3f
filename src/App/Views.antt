-- ===== src/App/Views.antt =====
-- What the page of a browser shows: `handleServerMessage` of static/app.js on the values that its
-- listener has parsed. `screen` is what it shows of the values that app.py has given to
-- `json.dumps`, if each arrives as it was; Wire has what arrives.
pub mod Sends
pub mod Handlers
pub mod Wire
pub mod Follow
use chat_app_csd.Prelude.{
  ℕ, ◌+◌, ◌<◌, ◌≤◌, ◌≡◌, ◌≢◌, Bool, true, false, ◌&&◌, Option, List, [], ◌∷◌, ◌++◌, map, nat_eq,
  length, if◌then◌else◌, pos, String, suc,
}
use chat_app_csd.Value.{
  Value, truthy, Fields, Items, nil, cons, dict, list, text, get, bool, end, field,
}
use chat_app_csd.Db.{FeedItem, message_exists, queue_max}
use chat_app_csd.Db.Writer.{writer_take, writer_write}
use chat_app_csd.App.{Packages, App, Draw}
use chat_app_csd.App.Post.{Request, post_message}
use chat_app_csd.App.Routes.{get_feed}
use chat_app_csd.App.Socket.{Received, message, closed, not_json, ws_turn, ws_leave, text_is}

-- The three badges of `signatureBadge`.
pub data Badge : Type 0 where
  tampered verified unverified : Badge

-- JavaScript's truth of a value that JSON can write.
abbrev pub holds : Value → Bool
unfolding truthy
holds (list vs) = true
holds (dict d) = true
holds v = truthy v

pub signature_badge : Fields → Badge
unfolding get
signature_badge msg =
    if holds (get msg "tampered")
    then tampered
    else if holds (get msg "signature_valid")
    then verified
    else unverified

-- What the page shows of a message.
pub record Shown : Type 0 where
  pub username : Value
  pub content : Value
  pub timestamp : Value
  pub badge : Badge

pub render_message : Fields → Shown
unfolding get signature_badge
render_message msg = record {
  username = get msg "username";
  content = get msg "text";
  timestamp = get msg "timestamp";
  badge = signature_badge msg;
}

-- `msg.messages.forEach(renderMessage)`; the server sends dicts only.
pub render_all : Value → List Shown
unfolding render_message
render_all (list (cons (dict msg) vs)) = render_message msg ∷ render_all (list vs)
render_all (list (cons _ vs)) = render_all (list vs)
render_all _ = []

-- A message of the feed with the badge of a verified one.
abbrev pub shown : FeedItem → Shown
shown t = record {
  username = text t.username;
  content = text t.plaintext;
  timestamp = t.timestamp;
  badge = verified;
}

-- The entries of a dict for a socket.
abbrev pub seats : {A : Type 0} → ℕ → List (ℕ × A) → ℕ
seats ws [] = 0
seats ws ((k, v) ∷ d) = let rest = seats ws d in if nat_eq k ws then suc rest else rest

module _ (p : Packages) where
  -- The messages that an event adds to the page: the cases of `handleServerMessage` for the types
  -- of event that the server sends.
  pub handle_server_message : Value → List Shown
  unfolding render_message render_all
  handle_server_message (dict msg) =
      if text_is p "message" (get msg "type")
      then render_message msg ∷ []
      else if text_is p "history" (get msg "type")
      then render_all (get msg "messages")
      else []
  handle_server_message _ = []

  -- The messages on the page of a socket that every payload reaches as it is.
  unfoldable pub screen : ℕ → List (ℕ × Value) → List Shown
  unfolding handle_server_message
  screen ws [] = []
  screen ws ((k, v) ∷ sent) =
      let rest = screen ws sent in if nat_eq k ws then handle_server_message v ++ rest else rest

  abbrev pub joins : Received → Bool
  joins (message (dict msg)) = text_is p "join" (get msg "type")
  joins _ = false

  -- What may happen while a page is open: requests and socket messages, as long as the queue has
  -- room, sends to the socket `ws` succeed, and drawn ids are new; other sockets come and go; the
  -- writer works.
  pub data Watched (ws : ℕ) (app : App p) : App p → Type 0 where
    posted :
        (request : Request) (draw : Draw)
        → draw.dead ws ≡ false
        → length app.db.queue < queue_max
        → Watched ws app (post_message p request draw app).1
    received :
        (sender : ℕ) (username : Option String) (draw : Draw) (event : Received)
        → draw.dead ws ≡ false
        → length app.db.queue < queue_max
        → message_exists draw.uuid app.db ≡ false
        → nat_eq sender ws && joins event ≡ false
        → Watched ws app (ws_turn p sender username draw event app).1
    other_left : (other : ℕ) → nat_eq other ws ≡ false → Watched ws app (ws_leave p other app)
    showed : (elapsed : ℕ) → Watched ws app (get_feed p elapsed app).1
    took : Watched ws app (record app { db = writer_take app.db })
    wrote : Watched ws app (record app { db = (writer_write p.config app.db).0 })

  pub data Watching (ws : ℕ) (app : App p) : App p → Type 0 where
    opened : Watching ws app app
    then_seen : {t u : App p} → Watched ws t u → Watching ws app t → Watching ws app u
