-- ===== src/Db/Ingest.antt =====
-- `save_messages_batch` of db.py.
use chat_app_csd.Prelude.{
  ℕ, String, List, [], ◌∷◌, ◌++◌, map, ℤ, Option, none, some, length, is_empty, if◌then◌else◌,
}
use chat_app_csd.Value.{
  Value, int, text, dict, Fields, Items, nil, cons, get, ◌or◌, str, to_int, Conversion, whole,
  value_error, type_error, overflow_error,
}
use chat_app_csd.Store.{Row, ids_of, executemany}
use chat_app_csd.Db.{Config, Db, Outcome, returned, raised, commit, feed_item, add_ids}

-- `int(item.get("timestamp") or time.time() * 1000)` with its handler; `now` is the clock in
-- whole milliseconds. An OverflowError is not handled.
abbrev handled : ℤ → Conversion → Outcome ℤ
handled now (whole n) = returned n
handled now value_error = returned now
handled now type_error = returned now
handled now overflow_error = raised

unfoldable pub timestamp_of : ℤ → Fields → Outcome ℤ
timestamp_of now item = handled now (to_int (get item "timestamp" or int now))

abbrev pub item_row : (Value → String) → Fields → String → Outcome ℤ → Outcome (Option Row)
item_row repr item msg_id raised = raised
item_row repr item msg_id (returned timestamp) = returned (
    some (record {
      msg_id = msg_id;
      username =
          str repr
            (get item "username" or get item "display_name" or get item "client-name" or text "");
      plaintext = str repr (get item "plaintext" or get item "msg" or get item "text" or text "");
      ciphertext = str repr (get item "ciphertext" or text "");
      signature = str repr (get item "signature" or text "");
      pubkey_jwk = str repr (get item "pubkey_jwk" or text "");
      timestamp = int timestamp;
      prev_hash = str repr (get item "prev_hash" or text "");
      record_hash = str repr (get item "record_hash" or get item "hmac_digest" or text "");
    }))

-- One turn of the loop: the row of an item, `none` for `continue`. What is no dict has no `get`.
unfoldable pub parse_item : (Value → String) → ℤ → Value → Outcome (Option Row)
parse_item repr now (dict item) =
    let msg_id = str repr (get item "msg_id" or get item "id" or text "") in
    if is_empty msg_id then returned none else item_row repr item msg_id (timestamp_of now item)
parse_item repr now _ = raised

abbrev pub add_row : Option Row → Outcome (List Row) → Outcome (List Row)
add_row row raised = raised
add_row none (returned rows) = returned rows
add_row (some r) (returned rows) = returned (r ∷ rows)

-- The loop; `feed_items` and `new_seen` hold the same items as `rows`.
unfoldable pub parse_items : (Value → String) → ℤ → Items → Outcome (List Row)
unfolding parse_item
parse_items repr now nil = returned []
parse_items repr now (cons v vs) = elim (parse_item repr now v) [
  | raised ↦ raised
  | returned row ↦ add_row row (parse_items repr now vs)
]

-- What follows the loop.
unfoldable pub ingest : Config → List Row → Db → Outcome ℕ × Db
unfolding commit
ingest cfg [] db = (returned 0, db)
ingest cfg (r ∷ rows) db =
    let (s, done) = executemany cfg.engine (r ∷ rows) db.working in
    let written = record db { working = s } in
    let cached = record (commit written) {
      seen = add_ids (ids_of (r ∷ rows)) db.seen;
      feed = db.feed ++ map feed_item (r ∷ rows);
    } in
    if done
    then (returned (length (r ∷ rows)), if cfg.is_shared_db_host then commit written else cached)
    else (raised, written)

abbrev pub ingest_parsed : Config → Db → Outcome (List Row) → Outcome ℕ × Db
ingest_parsed cfg db raised = (raised, db)
ingest_parsed cfg db (returned rows) = ingest cfg rows db

unfoldable pub save_messages_batch : Config → ℤ → Items → Db → Outcome ℕ × Db
unfolding parse_items ingest
save_messages_batch cfg now batch db = ingest_parsed cfg db (parse_items cfg.repr now batch)
