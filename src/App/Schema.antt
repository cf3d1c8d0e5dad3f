-- ===== src/App/Schema.antt =====
-- The JSON that clients of app.py rely on: what its docstrings name for `POST /message`, `GET
-- /feed` and `GET /messages`, and what static/app.js reads of an event.
pub mod Times
pub mod Sending
pub mod Events
pub mod Replies
use chat_app_csd.Prelude.{
  ℕ, String, ◌≡◌, refl, map, Bool, true, false, not, ◌&&◌, ◌||◌, List, [], ◌∷◌, ◌==◌, nat_eq,
  if◌then◌else◌, All,
}
use chat_app_csd.Value.{
  items_of, Value, Fields, Items, Float, bool, int, float, text, list, dict, end, field, nil, cons,
  null,
}
use chat_app_csd.App.{Response, answer, server_error}

-- `json.dumps` writes NaN, Infinity or -Infinity for the others, which is no JSON.
abbrev pub is_finite : Float → Bool
is_finite f = not (f.shown == "nan" || (f.shown == "inf" || f.shown == "-inf"))

-- Whether what `json.dumps` writes is JSON
unfoldable mutual
  pub is_json : Value → Bool
  is_json (float f) = is_finite f
  is_json (list vs) = are_json vs
  is_json (dict d) = has_json d
  is_json _ = true

  are_json : Items → Bool
  are_json nil = true
  are_json (cons v vs) = is_json v && are_json vs

  has_json : Fields → Bool
  has_json end = true
  has_json (field k v d) = is_json v && has_json d

mutual
  pub data Shape : Type 0 where
    anything a_json a_text a_whole : Shape
    exactly : String → Shape
    flag : Bool → Shape
    each : Shape → Shape
    object : Members → Shape

  pub data Members : Type 0 where
    no_more : Members
    member : String → Shape → Members → Members

-- The value of the first field with the key passes the test; a missing key does not.
abbrev pub has_field : String → (Value → Bool) → Fields → Bool
has_field k test end = false
has_field k test (field j v d) = let rest = has_field k test d in if j == k then test v else rest

abbrev pub all_items : (Value → Bool) → Items → Bool
all_items test nil = true
all_items test (cons v vs) = test v && all_items test vs

abbrev same_flag : Bool → Bool → Bool
same_flag true b = b
same_flag false b = not b

unfoldable mutual
  unfolding is_json

  pub validate : Shape → Value → Bool
  validate anything v = true
  validate a_json v = is_json v
  validate a_text (text s) = true
  validate a_whole (int n) = true
  validate (exactly s) (text t) = t == s
  validate (flag b) (bool c) = same_flag b c
  validate (each s) (list vs) = all_items (validate s) vs
  validate (object ms) (dict d) = validate_members ms d
  validate _ _ = false

  pub validate_members : Members → Fields → Bool
  validate_members no_more d = true
  validate_members (member k s ms) d = has_field k (validate s) d && validate_members ms d

pub each-map :
    {A : Type 0} (s : Shape) (P : A → Type 0) (f : A → Value)
    → ((a : A) → P a → validate s (f a) ≡ true)
    → (l : List A) → All P l
    → validate (each s) (list (items_of (map f l))) ≡ true
unfolding validate
each-map s P f h [] k = refl
each-map s P f h (a ∷ l) k = rw (h a k.0) (each-map s P f h l k.1)

-- What `renderMessage` and `signatureBadge` of static/app.js read. A message of a socket has any
-- value as its timestamp; the page can read it if it is written as JSON.
abbrev pub message_members : Members
message_members = member "username" a_text (
    member "text" a_text (
      member "timestamp" a_json
        (member "signature_valid" (flag true) (member "tampered" (flag false) no_more))))

abbrev pub message_shape : Shape
message_shape = object (member "type" (exactly "message") message_members)

abbrev pub history_shape : Shape
history_shape =
    object (
      member "type" (exactly "history") (member "messages" (each (object message_members)) no_more))

unfoldable pub is_event : Value → Bool
is_event v = validate message_shape v || validate history_shape v

-- "Each message has: id, client-name, msg, timestamp"
abbrev pub feed_entry_shape : Shape
feed_entry_shape = object (
    member "id" a_text
      (member "client-name" a_text (member "msg" a_text (member "timestamp" anything no_more))))

abbrev pub feed_shape : Shape
feed_shape = each feed_entry_shape

abbrev pub error_shape : Shape
error_shape = object (member "error" a_text no_more)

abbrev message_reply : Members → Members
message_reply more = member "msg_id" a_text (member "client-name" a_text (member "msg" a_text more))

abbrev pub stored_shape : Shape
stored_shape =
    object (member "status" (exactly "ok") (message_reply (member "timestamp" a_whole no_more)))

abbrev pub duplicate_shape : Shape
duplicate_shape = object (member "status" (exactly "duplicate") (message_reply no_more))

abbrev pub message_contract : ℕ → Value → Bool
message_contract code body =
    (nat_eq code 200 && (validate stored_shape body || validate duplicate_shape body))
    || (nat_eq code 400 && validate error_shape body)

-- The status and the body of an answer are as agreed; no exception is reported.
pub keeps_contract : (ℕ → Value → Bool) → Response → Bool
unfolding validate
keeps_contract contract (answer code body) = contract code body
keeps_contract contract server_error = false
