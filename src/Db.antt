-- ===== src/Db.antt =====
-- db.py: the process's caches, its write queue and its connection to the SQLite file.
-- `working` is the file as the process's own connection sees it, `committed` what the last commit
-- left there. `in_flight` is the variable `batch` of the writer thread. The locks make each
-- function below one step; the writer thread takes its batch in one step and writes it in another.
pub mod Writer
pub mod Ingest
pub mod Saving
pub mod Pipeline
pub mod Steps
pub mod Recovery
pub mod Loss
pub mod Reset
pub mod Replay
pub mod Replica
pub mod Shared
pub mod Stored
pub mod Connection
use chat_app_csd.Prelude.{
  ℕ, ◌-◌, suc, String, Bool, true, false, ◌≡◌, Option, none, some, List, [], ◌∷◌, ◌++◌, map, ℤ,
  contains, length, take, ltb, leb, if◌then◌else◌, negsuc, pos,
}
use chat_app_csd.Value.{Value, int, text, dict, Fields, end, field, null}
use chat_app_csd.Store
use chat_app_csd.Store.{
  Engine, Row, Entry, Store, rows_of, insert_or_ignore, delete_messages, upsert_user,
}

-- How a call ends: a value, or an exception. The exception's text is not modelled.
pub data Outcome {ℓ} (A : Type ℓ) : Type ℓ where
  returned : A → Outcome A
  raised : Outcome A

pub record Config : Type 0 where
  pub engine : Engine
  pub repr : Value → String
  pub db_service_url : String
  pub is_shared_db_host : Bool

pub record FeedItem : Type 0 where
  pub id : String
  pub username : String
  pub plaintext : String
  pub timestamp : Value

pub record Db : Type 0 where
  pub seen : List String
  pub feed : List FeedItem
  pub queue : List Row
  pub in_flight : List Row
  pub working : Store
  pub committed : Store
  pub writer_started : Bool

-- `queue.Queue(maxsize=200000)`
abbrev pub queue_max : ℕ
queue_max = 200000

-- `"0" * 64`
abbrev pub genesis : String
genesis = "0000000000000000000000000000000000000000000000000000000000000000"

abbrev pub feed_item : Row → FeedItem
feed_item r = record {
  id = r.msg_id;
  username = r.username;
  plaintext = r.plaintext;
  timestamp = r.timestamp;
}

-- `s.add(k)`
abbrev pub add_id : String → List String → List String
add_id k s = if contains s k then s else s ++ k ∷ []

abbrev pub add_ids : List String → List String → List String
add_ids [] s = s
add_ids (k ∷ ks) s = add_ids ks (add_id k s)

pub commit : Db → Db
commit db = record db { committed = db.working }

unfoldable pub ensure_writer_started : Db → Db
ensure_writer_started db = record db { writer_started = true }

-- The caches are read back through a connection of its own, so from the committed file.
pub init_db : Db → Db
unfolding ensure_writer_started
init_db db =
    let rows = rows_of db.committed.messages in
    ensure_writer_started
      (record db { seen = add_ids (map (λ r. r.msg_id) rows) []; feed = map feed_item rows })

-- A process that starts on the file `s`, up to the call of `init_db` in app.py.
unfoldable pub start : Store → Db
unfolding init_db
start s = init_db (record {
  seen = [];
  feed = [];
  queue = [];
  in_flight = [];
  working = s;
  committed = s;
  writer_started = false;
})

abbrev pub last_record_hash : List Entry → String
last_record_hash [] = genesis
last_record_hash (e ∷ []) = e.row.record_hash
last_record_hash (e ∷ f ∷ es) = last_record_hash (f ∷ es)

unfoldable pub get_last_hash : Db → String
get_last_hash db = last_record_hash db.working.messages

module _ (cfg : Config) where
  -- The direct INSERT under `_db_lock`, where the queue was full.
  unfoldable pub insert_now : Row → Db → Outcome Bool × Db
  unfolding commit
  insert_now r db = elim (insert_or_ignore cfg.engine r db.working) [
    | none ↦ (raised, db)
    | some s ↦ (returned true, commit (record db { working = s }))
  ]

  -- `_write_queue.put_nowait`, and the direct INSERT where the queue is full
  unfoldable pub enqueue : Row → Db → Outcome Bool × Db
  unfolding insert_now
  enqueue r db =
      if ltb (length db.queue) queue_max
      then (returned true, record db { queue = db.queue ++ r ∷ [] })
      else insert_now r db

  -- The nine arguments are the fields of the row.
  unfoldable pub save_message : Row → Db → Outcome Bool × Db
  unfolding enqueue ensure_writer_started
  save_message r db =
      let started = ensure_writer_started db in
      if contains started.seen r.msg_id
      then (returned false, started)
      else enqueue r (record started {
        seen = add_id r.msg_id started.seen;
        feed = started.feed ++ feed_item r ∷ [];
      })

-- `l[:limit]`
abbrev pub slice_to : {A : Type 0} → ℤ → List A → List A
slice_to (pos n) l = take n l
slice_to (negsuc n) l = take (length l - suc n) l

-- The dict that `load_history` makes of an item.
pub record HistoryRow : Type 0 where
  pub username : String
  pub plaintext : String
  pub timestamp : Value

abbrev pub load_history : ℤ → Db → List HistoryRow
load_history limit db =
    map (λ t. record { username = t.username; plaintext = t.plaintext; timestamp = t.timestamp })
      (slice_to limit db.feed)

unfoldable pub get_messages_for_feed : Db → List Value
get_messages_for_feed db =
    map
      (λ t. dict (
        field "id" (text t.id) (
          field "client-name" (text t.username)
            (field "msg" (text t.plaintext) (field "timestamp" t.timestamp end)))))
      db.feed

unfoldable pub message_exists : String → Db → Bool
message_exists msg_id db = contains db.seen msg_id

unfoldable pub get_message_count : Db → ℕ
get_message_count db = length db.seen

unfoldable pub upsert_user_pubkey : String → String → Db → Db
unfolding commit
upsert_user_pubkey name key db = commit (record db { working = upsert_user name key db.working })

-- `LIMIT ?`, where a negative limit is none
abbrev pub limited : ℤ → List Entry → List Entry
limited (pos n) l = take n l
limited (negsuc n) l = l

-- The columns of the SELECT, the aliased ones written out.
abbrev pub shared_row : Entry → Value
shared_row e = dict (
    field "id" (int (pos e.id)) (
      field "msg_id" (text e.row.msg_id) (
        field "username" (text e.row.username) (
          field "display_name" (text e.row.username) (
            field "ciphertext" (text e.row.ciphertext) (
              field "signature" (text e.row.signature) (
                field "hmac_digest" (text e.row.record_hash) (
                  field "timestamp" e.row.timestamp
                    (field "plaintext" (text e.row.plaintext) end)))))))))

-- Rows are kept in the order of their ids (Store/Order).
pub load_shared_messages : ℤ → Db → List Value
load_shared_messages limit db = map shared_row (limited limit db.working.messages)

-- The second `reset_db` of the file, which replaces the first.
unfoldable pub reset_db : Db → Db
unfolding commit delete_messages
reset_db db =
    commit (record db { queue = []; seen = []; feed = []; working = delete_messages db.working })
