-- ===== src/App/Post.antt =====
-- `POST /message` of app.py. The handler runs as one step; `accept_message` and `store_message` are
-- its parts before and after the moment at which another request may save (App/Race). The strings of
-- a request are Unicode texts (see Value): with a lone surrogate, `sign_message` would raise.
use chat_app_csd.Prelude.{
  ℕ, ◌+◌, ◌-◌, String, Bool, true, false, ◌&&◌, Option, none, some, List, [], ◌∷◌, if◌then◌else◌, ℤ,
  is_empty, strip,
}
use chat_app_csd.Store.{Row}
use chat_app_csd.Db.{raised, Outcome, save_message, message_exists, returned}
use chat_app_csd.Value.{dict, Fields, end, field, Value, str, text, ◌or◌, bool, get, int}
use chat_app_csd.App.{
  Packages, Draw, broadcast_ws, get_or_create_keypair, track_response_time, App, get_next_hashes,
  Response, answer, canonical_message, server_error,
}
use chat_app_csd.Signatures.{sign_message}
use chat_app_csd.CryptoUtils.{encrypt_text}

-- What the handler reads of the request: `get_json` of a JSON request (`none` if that raises), the
-- form, and `get_json(silent=True)`.
pub record Request : Type 0 where
  pub is_json : Bool
  pub json : Option Value
  pub form : Fields
  pub silent_json : Value

unfoldable pub body_data : Request → Option Value
body_data r =
    if r.is_json
    then elim r.json [ none ↦ none | some v ↦ some (v or dict end) ]
    else some (dict r.form or r.silent_json or dict end)

-- The fields of a message, once the body is a dict.
pub record Posted : Type 0 where
  pub client_name : String
  pub msg_text : String
  pub msg_id : String

unfoldable pub read_posted : (Value → String) → Fields → Posted
read_posted repr d = record {
  client_name = str repr (get d "client-name" or get d "username" or text "");
  msg_text = str repr (get d "msg" or get d "text" or text "");
  msg_id = strip (str repr (get d "msg_id" or get d "id" or text ""));
}

abbrev pub error_body : String → Value
error_body message = dict (field "error" (text message) end)

abbrev pub duplicate_body : Posted → Value
duplicate_body m = dict (
    field "status" (text "duplicate") (
      field "msg_id" (text m.msg_id)
        (field "client-name" (text m.client_name) (field "msg" (text m.msg_text) end))))

abbrev pub ok_body : Posted → ℤ → Value
ok_body m timestamp = dict (
    field "status" (text "ok") (
      field "msg_id" (text m.msg_id) (
        field "client-name" (text m.client_name)
          (field "msg" (text m.msg_text) (field "timestamp" (int timestamp) end)))))

-- The event that browsers are sent.
abbrev pub message_event : String → String → Value → Value
message_event username content timestamp = dict (
    field "type" (text "message") (
      field "username" (text username) (
        field "text" (text content) (
          field "timestamp" timestamp
            (field "signature_valid" (bool true) (field "tampered" (bool false) end))))))

-- `if not msg_id: msg_id = str(uuid.uuid4())`
abbrev pub named : Posted → Draw → Posted
named m draw = record m { msg_id = if is_empty m.msg_id then draw.uuid else m.msg_id }

module _ (p : Packages) where
  -- The row that is stored, and the state with the keys and the chain as it leaves them. A Unicode
  -- text can be signed and encrypted.
  unfoldable pub sealed_row : Posted → Draw → App p → Row × App p
  unfolding get_or_create_keypair get_next_hashes sign_message canonical_message encrypt_text
  sealed_row m draw app =
      let (keys, keyed) = get_or_create_keypair p m.client_name draw.key_seed app in
      let message = canonical_message p.config.repr m.client_name m.msg_text (int draw.now) in
      let signature = sign_message p.ecdsa keys.0 draw.nonce message in
      let ciphertext = encrypt_text p.fernet p.secret_key draw.iv m.msg_text in
      let (prev, rec_hash, chained) =
        get_next_hashes p m.client_name ciphertext signature (int draw.now) keyed in
      (
        record {
          msg_id = m.msg_id;
          username = m.client_name;
          plaintext = m.msg_text;
          ciphertext = ciphertext;
          signature = signature;
          pubkey_jwk = keys.1;
          timestamp = int draw.now;
          prev_hash = prev;
          record_hash = rec_hash;
        },
        chained,
      )

  abbrev pub has_clients : List (ℕ × String) → Bool
  has_clients [] = false
  has_clients (c ∷ cs) = true

  -- After `save_message`: the broadcast and the answer, or the handler of `except Exception`.
  abbrev pub after_save : Posted → Draw → Outcome Bool → App p → Response × App p
  after_save m draw raised app = (server_error, app)
  after_save m draw (returned inserted) app = (
    answer 200 (ok_body m draw.now),
    if inserted && has_clients app.clients
        then broadcast_ws p draw.dead (message_event m.client_name m.msg_text (int draw.now)) app
        else app,
  )

  -- From the timestamp on, for a message with a new id.
  unfoldable pub store_message : Posted → Draw → App p → Response × App p
  store_message m draw app =
      let (row, chained) = sealed_row m draw app in
      let (saved, db) = save_message p.config row chained.db in
      after_save m draw saved (record chained { db = db })

  -- The checks, in their order; a missing id is drawn.
  unfoldable pub accept_message : Posted → Draw → App p → Response × App p
  accept_message m draw app =
      if is_empty m.client_name
      then (answer 400 (error_body "client-name is required"), app)
      else if is_empty m.msg_text
      then (answer 400 (error_body "msg is required"), app)
      else if message_exists (named m draw).msg_id app.db
      then (answer 200 (duplicate_body (named m draw)), app)
      else store_message (named m draw) draw app

  -- The body of the `try`: a body that is no dict has no `get`.
  abbrev pub handle_data : Option Value → Draw → App p → Response × App p
  handle_data (some (dict d)) draw app = accept_message (read_posted p.config.repr d) draw app
  handle_data _ draw app = (server_error, app)

  -- With the count of active requests around it, and the time in `finally`.
  unfoldable pub post_message : Request → Draw → App p → Response × App p
  post_message request draw app =
      let entered = record app { active_requests = app.active_requests + 1 } in
      let (response, worked) = handle_data (body_data request) draw entered in
      (
        response,
        track_response_time p draw.elapsed
            (record worked { active_requests = worked.active_requests - 1 }),
      )
