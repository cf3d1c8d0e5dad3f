-- ===== src/App/Socket.antt =====
-- `ws_handler` of app.py: one socket's events. `username` is the variable of that name, none
-- until the socket joins. A handler that raises ends the loop, and `finally` runs.
use chat_app_csd.Prelude.{
  ℕ, String, Bool, true, false, Option, none, some, List, [], ◌∷◌, ◌++◌, map, ◌==◌, if◌then◌else◌,
  pos, is_empty, strip, prefix,
}
use chat_app_csd.Db.{
  raised, returned, Outcome, Db, HistoryRow, save_message, upsert_user_pubkey, get_last_hash,
  load_history,
}
use chat_app_csd.Value.{
  items_of, dict, Fields, end, field, get, get_or, Value, ◌or◌, text, list, bool, str, int,
}
use chat_app_csd.App.{
  Packages, App, Draw, Keys, broadcast_ws, new_keys, pop_socket, put_socket, canonical_message,
  find_socket,
}
use chat_app_csd.Store.{Row}
use chat_app_csd.App.Post.{message_event}
use chat_app_csd.Signatures.{sign_message}
use chat_app_csd.CryptoUtils.{encrypt_text}
use chat_app_csd.Integrity.{compute_record_hash}

-- What `ws.receive()` gives: a text that is JSON, one that is not, or the end.
pub data Received : Type 0 where
  message : Value → Received
  not_json closed : Received

-- How the loop goes on: with the username, or out of it (by `break` or an exception).
pub data Turn : Type 0 where
  next : Option String → Turn
  leave : Turn

abbrev pub history_entry : HistoryRow → Value
history_entry t = dict (
    field "username" (text t.username) (
      field "text" (text t.plaintext) (
        field "timestamp" t.timestamp
          (field "tampered" (bool false) (field "signature_valid" (bool true) end)))))

-- The history of the last step of a join: `load_history` with its default limit.
abbrev pub history_event : Db → Value
history_event db = dict (
    field "type" (text "history")
      (field "messages" (list (items_of (map history_entry (load_history (pos 100000) db)))) end))

-- `(msg.get("username") or "Anonymous").strip()[:24] or "Anonymous"`; what is no text has no
-- `strip`.
abbrev pub name_or_default : String → String
name_or_default s = if is_empty s then "Anonymous" else s

abbrev pub stripped : Value → Outcome String
stripped (text s) = returned (name_or_default (prefix 24 (strip s)))
stripped _ = raised

unfoldable pub join_name : Fields → Outcome String
join_name msg = stripped (get msg "username" or text "Anonymous")

module _ (p : Packages) where
  abbrev pub join_as : ℕ → Draw → App p → Outcome String → Turn × App p
  join_as ws draw app raised = (leave, app)
  join_as ws draw app (returned username) =
      let keys = new_keys p draw.key_seed in
      let joined = record app {
        clients = put_socket ws username app.clients;
        client_keys = put_socket ws keys app.client_keys;
        db = upsert_user_pubkey username keys.1 app.db;
      } in
      if draw.dead ws then (leave, joined) else (
        next (some username),
        record joined { sent = joined.sent ++ (ws, history_event joined.db) ∷ [] },
      )

  unfoldable pub on_join : ℕ → Draw → Fields → App p → Turn × App p
  unfolding join_name new_keys
  on_join ws draw msg app = join_as ws draw app (join_name msg)

  -- The stored row of a socket's message: its hash is linked to the last row of the file.
  unfoldable pub ws_row : Keys p → String → String → Value → Draw → App p → Row
  ws_row keys username content timestamp draw app =
      let message = canonical_message p.config.repr username content timestamp in
      let signature = sign_message p.ecdsa keys.0 draw.nonce message in
      let ciphertext = encrypt_text p.fernet p.secret_key draw.iv content in
      let prev = get_last_hash app.db in
      record {
        msg_id = draw.uuid;
        username = username;
        plaintext = content;
        ciphertext = ciphertext;
        signature = signature;
        pubkey_jwk = keys.1;
        timestamp = timestamp;
        prev_hash = prev;
        record_hash =
            compute_record_hash p.config.repr p.sha256_hex prev username ciphertext signature
              timestamp;
      }

  abbrev pub ws_saved : String → String → Value → Draw → Outcome Bool → App p → Turn × App p
  ws_saved username content timestamp draw raised app = (leave, app)
  ws_saved username content timestamp draw (returned _) app = (
    next (some username),
    broadcast_ws p draw.dead (message_event username content timestamp) app,
  )

  abbrev pub ws_store : Option (Keys p) → String → String → Value → Draw → App p → Turn × App p
  ws_store none username content timestamp draw app = (next (some username), app)
  ws_store (some keys) username content timestamp draw app =
      let (saved, db) =
        save_message p.config (ws_row keys username content timestamp draw app) app.db in
      ws_saved username content timestamp draw saved (record app { db = db })

  -- `continue` where nobody has joined, where the text is blank, or where the keys are gone.
  unfoldable pub on_message : ℕ → Option String → Draw → Fields → App p → Turn × App p
  unfolding ws_row broadcast_ws
  on_message ws none draw msg app = (next none, app)
  on_message ws (some username) draw msg app =
      let content = prefix 2000 (str p.config.repr (get_or (text "") msg "text")) in
      let timestamp = get msg "timestamp" or int draw.now in
      if is_empty (strip content)
      then (next (some username), app)
      else ws_store (find_socket ws app.client_keys) username content timestamp draw app

  abbrev pub text_is : String → Value → Bool
  text_is s (text t) = t == s
  text_is s _ = false

  -- One turn of the loop; JSON that is no dict has no `get`.
  unfoldable pub ws_turn : ℕ → Option String → Draw → Received → App p → Turn × App p
  unfolding on_join on_message
  ws_turn ws username draw closed app = (leave, app)
  ws_turn ws username draw not_json app = (next username, app)
  ws_turn ws username draw (message (dict msg)) app =
      if text_is "join" (get msg "type")
      then on_join ws draw msg app
      else if text_is "message" (get msg "type")
      then on_message ws username draw msg app
      else (next username, app)
  ws_turn ws username draw (message _) app = (leave, app)

  -- `finally`
  unfoldable pub ws_leave : ℕ → App p → App p
  ws_leave ws app = record app {
    clients = pop_socket ws app.clients;
    client_keys = pop_socket ws app.client_keys;
  }

  -- The loop over what the socket receives; `closed` ends it, as the end of the list does.
  unfoldable pub ws_handler : ℕ → Option String → List (Draw × Received) → App p → App p
  unfolding ws_turn ws_leave
  ws_handler ws username [] app = ws_leave ws app
  ws_handler ws username ((draw, event) ∷ events) app =
      let (turn, after) = ws_turn ws username draw event app in
      elim turn [ next name ↦ ws_handler ws name events after | leave ↦ ws_leave ws after ]
