-- ===== src/Balancer/SharedDb.antt =====
-- `SharedDB` of load_balancer/main.go: the messages, the index from their ids to their places, and
-- the bytes that are kept for GET /shared_db/messages. Each operation is one step, as its lock makes
-- it.
pub mod Reference
pub mod Indexed
pub mod Answers
use chat_app_csd.Prelude.{
  ℕ, zero, suc, ◌+◌, ◌-◌, ◌≤◌, ◌<◌, String, ◌≡◌, refl, sym, ap, ◌∙◌, ◌⊎◌, inl, inr, Bool, true,
  false, not, ◌&&◌, Option, none, some, List, [], ◌∷◌, ◌++◌, append-nil, append_assoc, arith, ◌==◌,
  eq_iff, eq_refl, length, length-append, Bool-cases, Option-cases, if◌then◌else◌, ℤ, pos, is_empty,
  str_int,
}
use chat_app_csd.Value.{Value, Fields, null, text, bool, int, float, list, dict, get, end, field}

pub record SharedMessageRecord : Type 0 where
  pub id : ℕ
  pub msg_id : String
  pub username : String
  pub display_name : String
  pub ciphertext : String
  pub signature : String
  pub hmac_digest : String
  pub timestamp : String
  pub plaintext : String

-- What the packages strconv, fmt and encoding/json write: a decoded value that is neither nil nor a
-- string, and the list of the records.
pub record Formats : Type 0 where
  pub shown : Value → String
  pub marshal : List SharedMessageRecord → String
  pub marshal_empty : marshal [] ≡ "[]"

pub record SharedDb : Type 0 where
  pub messages : List SharedMessageRecord
  pub index_map : List (String × ℕ)
  pub counter : ℕ
  pub cache_bytes : String
  pub dirty : Bool

-- `NewSharedDB`, and what `Reset` leaves
abbrev pub new_shared_db : SharedDb
new_shared_db = record {
  messages = [];
  index_map = [];
  counter = 0;
  cache_bytes = "[]";
  dirty = false;
}

-- `indexMap[k]`
abbrev pub index_of : String → List (String × ℕ) → Option ℕ
index_of k [] = none
index_of k ((j, i) ∷ entries) = if j == k then some i else index_of k entries

-- A write through `&sdb.messages[i]`. Out of range the code panics; no index is out of range.
abbrev pub update :
    ℕ
    → (SharedMessageRecord → SharedMessageRecord)
    → List SharedMessageRecord
    → List SharedMessageRecord
update n f [] = []
update zero f (r ∷ rs) = f r ∷ rs
update (suc n) f (r ∷ rs) = r ∷ update n f rs

abbrev nonempty_or : String → String → String
nonempty_or old new = if is_empty new then old else new

-- What a record that is there already takes from a new one
pub merge : SharedMessageRecord → SharedMessageRecord → SharedMessageRecord
merge new rec = record rec {
  ciphertext = nonempty_or rec.ciphertext new.ciphertext;
  signature = nonempty_or rec.signature new.signature;
  hmac_digest = nonempty_or rec.hmac_digest new.hmac_digest;
  plaintext = if is_empty rec.plaintext then new.plaintext else rec.plaintext;
}

-- `sdb.indexMap[msgID] = len(sdb.messages)` and the append, with the counter moved on to the id
pub insert_record : SharedMessageRecord → SharedDb → SharedDb
insert_record r db = record db {
  counter = r.id;
  index_map = (r.msg_id, length db.messages) ∷ db.index_map;
  messages = db.messages ++ r ∷ [];
}

pub single_record : String → String → String → ℤ → ℕ → SharedMessageRecord
single_record msg_id username plaintext timestamp id = record {
  id = id;
  msg_id = msg_id;
  username = username;
  display_name = username;
  ciphertext = "";
  signature = "";
  hmac_digest = "";
  timestamp = str_int timestamp;
  plaintext = plaintext;
}

pub add_single : String → String → String → ℤ → SharedDb → SharedDb
unfolding insert_record single_record
add_single msg_id username plaintext timestamp db = elim (index_of msg_id db.index_map) [
  | some i ↦ db
  | none ↦
      record (insert_record (single_record msg_id username plaintext timestamp (suc db.counter))
        db) { dirty = true }
]

module _ (f : Formats) where
  abbrev string_or : Value → String → String
  string_or null rest = rest
  string_or (text s) rest = s
  string_or v rest = f.shown v

  pub get_string_val : Fields → List String → String
  unfolding get
  get_string_val m [] = ""
  get_string_val m (k ∷ ks) = string_or (get m k) (get_string_val m ks)

  pub item_record : Fields → ℕ → SharedMessageRecord
  unfolding get_string_val
  item_record item id =
      let username = get_string_val item ("username" ∷ "display_name" ∷ "client-name" ∷ []) in
      let display_name = get_string_val item ("display_name" ∷ "username" ∷ []) in
      record {
        id = id;
        msg_id = get_string_val item ("msg_id" ∷ "id" ∷ []);
        username = username;
        display_name = if is_empty display_name then username else display_name;
        ciphertext = get_string_val item ("ciphertext" ∷ []);
        signature = get_string_val item ("signature" ∷ []);
        hmac_digest = get_string_val item ("hmac_digest" ∷ "record_hash" ∷ []);
        timestamp = get_string_val item ("timestamp" ∷ []);
        plaintext = get_string_val item ("plaintext" ∷ "msg" ∷ "text" ∷ []);
      }

  -- One turn of the loop of `AddBatch`, on `inserted` and the database
  pub add_item : Fields → ℕ × SharedDb → ℕ × SharedDb
  unfolding item_record insert_record merge
  add_item item (inserted, db) =
      let r = item_record item (suc db.counter) in
      if is_empty r.msg_id then (inserted, db) else elim (index_of r.msg_id db.index_map) [
        | some i ↦ (inserted, record db { messages = update i (merge r) db.messages })
        | none ↦ (suc inserted, insert_record r db)
      ]

  pub add_items : List Fields → ℕ × SharedDb → ℕ × SharedDb
  unfolding add_item
  add_items [] found = found
  add_items (item ∷ batch) found = add_items batch (add_item item found)

  unfoldable pub add_batch : List Fields → SharedDb → ℕ × SharedDb
  unfolding add_items
  add_batch batch db =
      let (inserted, after) = add_items batch (0, db) in (inserted, record after { dirty = true })

  pub get_messages_bytes : SharedDb → String × SharedDb
  get_messages_bytes db =
      if db.dirty
      then (f.marshal db.messages, record db { cache_bytes = f.marshal db.messages; dirty = false })
      else (db.cache_bytes, db)

  pub data Operation : Type 0 where
    single : String → String → String → ℤ → Operation
    batch : List Fields → Operation
    read_all clear : Operation

  pub operate : Operation → SharedDb → SharedDb
  unfolding add_single add_batch get_messages_bytes
  operate (single msg_id username plaintext timestamp) db =
      add_single msg_id username plaintext timestamp db
  operate (batch items) db = (add_batch items db).1
  operate read_all db = (get_messages_bytes db).1
  operate clear db = new_shared_db

  unfoldable pub operate_all : List Operation → SharedDb → SharedDb
  unfolding operate
  operate_all [] db = db
  operate_all (o ∷ os) db = operate_all os (operate o db)
