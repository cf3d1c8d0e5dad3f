-- ===== src/DbService.antt =====
-- dbservice/main.py: the service with the shared table. Each request opens a connection of its
-- own, so an exception before the commit leaves the table as it was.
pub mod Twice
pub mod Arrival
pub mod Requests
use chat_app_csd.Prelude.{
  ℕ, zero, suc, ◌+◌, ◌-◌, ◌*◌, ◌/◌, ◌%◌, ◌^◌, ◌≤◌, ◌<◌, String, count, ◌≡◌, refl, sym, ap, ◌∙◌, ◌≢◌,
  ◌↔◌, ◌⊎◌, inl, inr, Bool, true, false, not, ◌&&◌, ◌||◌, Option, none, some, List, [], ◌∷◌, ◌++◌,
  map, append-nil, append_assoc, map-append, arith, ◌==◌, eq_iff, eq_refl, length, take, drop,
  take-append-drop, All-append, length-take, length-drop, drop_all, length-append, All, contains,
  contains-append, Distinct, Bool-cases, Option-cases, if◌then◌else◌, ltb, leb, nat_eq, ℤ, pos,
  negsuc, is_empty, str_int, int_of_text, int_of_text-str_int, is_empty-str_int, f_string, strip,
  prefix, count-prefix-le,
}
use chat_app_csd.Value.{
  Value, Items, nil, cons, Fields, dict, list, text, null, bool, int, float, get, get_or, str, end,
  field,
}
use chat_app_csd.Store.{in_int64}
use chat_app_csd.Db.{Outcome, returned, raised, limited}

-- What the statements leave to SQLite: how a TEXT column keeps a value, `none` for NULL, and how
-- many ids an insert that is ignored uses up.
pub record TextEngine : Type 0 where
  pub id_gap : ℕ
  pub column_text : Value → Option String
  pub column_text_text : (s : String) → column_text (text s) ≡ some s

-- The tuple that is bound to the statement.
pub record Params : Type 0 where
  pub msg_id : Value
  pub username : Value
  pub display_name : Value
  pub ciphertext : Value
  pub signature : Value
  pub hmac_digest : Value
  pub timestamp : Value
  pub plaintext : Value

-- A row of the table, with its id.
pub record Stored : Type 0 where
  pub id : ℕ
  pub msg_id : Option String
  pub username : Option String
  pub display_name : Option String
  pub ciphertext : Option String
  pub signature : Option String
  pub hmac_digest : Option String
  pub timestamp : Option String
  pub plaintext : Option String

-- The table in the order of its ids, and its row of `sqlite_sequence`.
pub record Table : Type 0 where
  pub rows : List Stored
  pub seq : ℕ

unfoldable pub params_of : (Value → String) → Fields → Params
params_of repr item = record {
  msg_id = get item "msg_id";
  username = get item "username";
  display_name = get_or (get item "username") item "display_name";
  ciphertext = get_or (text "") item "ciphertext";
  signature = get_or (text "") item "signature";
  hmac_digest = get_or (get_or (text "") item "record_hash") item "hmac_digest";
  timestamp = text (str repr (get_or (text "") item "timestamp"));
  plaintext = get_or (get_or (text "") item "msg") item "plaintext";
}

abbrev add_params : Params → Outcome (List Params) → Outcome (List Params)
add_params r raised = raised
add_params r (returned rows) = returned (r ∷ rows)

-- The loop over the batch; what is no dict has no `get`.
unfoldable pub params_of_all : (Value → String) → Items → Outcome (List Params)
params_of_all repr nil = returned []
params_of_all repr (cons (dict item) vs) = add_params (params_of repr item) (params_of_all repr vs)
params_of_all repr (cons _ vs) = raised

-- Whether the module sqlite3 takes the value as a parameter.
abbrev pub binds : Value → Bool
binds (int n) = in_int64 n
binds (list vs) = false
binds (dict d) = false
binds _ = true

abbrev pub all_bind : Params → Bool
all_bind r =
    binds r.msg_id
    && binds r.username
    && binds r.display_name
    && binds r.ciphertext
    && binds r.signature
    && binds r.hmac_digest
    && binds r.timestamp
    && binds r.plaintext

abbrev pub key_of : Option String → List String
key_of none = []
key_of (some k) = k ∷ []

-- The ids of a table that are not NULL.
abbrev pub table_ids : List Stored → List String
table_ids [] = []
table_ids (r ∷ rows) = key_of r.msg_id ++ table_ids rows

-- UNIQUE lets NULL stand more than once.
abbrev pub has_id : Option String → List Stored → Bool
has_id none rows = false
has_id (some k) rows = contains (table_ids rows) k

module _ (engine : TextEngine) where
  abbrev pub stored_row : Params → ℕ → Stored
  stored_row r id = record {
    id = id;
    msg_id = engine.column_text r.msg_id;
    username = engine.column_text r.username;
    display_name = engine.column_text r.display_name;
    ciphertext = engine.column_text r.ciphertext;
    signature = engine.column_text r.signature;
    hmac_digest = engine.column_text r.hmac_digest;
    timestamp = engine.column_text r.timestamp;
    plaintext = engine.column_text r.plaintext;
  }

  -- INSERT OR IGNORE of a tuple that was bound
  pub insert_row : Params → Table → Table
  insert_row r t =
      if has_id (engine.column_text r.msg_id) t.rows
      then record t { seq = t.seq + engine.id_gap }
      else record t { rows = t.rows ++ stored_row r (suc t.seq) ∷ []; seq = suc t.seq }

  -- `conn.executemany`; `none` is an exception
  unfoldable pub insert_all : List Params → Table → Option Table
  insert_all [] t = some t
  insert_all (r ∷ rows) t =
      let rest = insert_all rows (insert_row r t) in if all_bind r then rest else none

  abbrev pub answered : ℕ → Option Table → Table → Outcome ℕ × Table
  answered n none t = (raised, t)
  answered n (some u) t = (returned n, u)

  abbrev pub insert_params : Outcome (List Params) → Table → Outcome ℕ × Table
  insert_params raised t = (raised, t)
  insert_params (returned rows) t = answered (length rows) (insert_all rows t) t

  -- The number that the answer reports as inserted, or an exception (status 500).
  unfoldable pub service_batch : (Value → String) → Value → Table → Outcome ℕ × Table
  service_batch repr (list (cons v vs)) t = insert_params (params_of_all repr (cons v vs)) t
  service_batch repr _ t = (returned 0, t)

abbrev cell : Option String → Value
cell none = null
cell (some s) = text s

abbrev stored_dict : Stored → Value
stored_dict r = dict (
    field "id" (int (pos r.id)) (
      field "msg_id" (cell r.msg_id) (
        field "username" (cell r.username) (
          field "display_name" (cell r.display_name) (
            field "ciphertext" (cell r.ciphertext) (
              field "signature" (cell r.signature) (
                field "hmac_digest" (cell r.hmac_digest) (
                  field "timestamp" (cell r.timestamp)
                    (field "plaintext" (cell r.plaintext) end)))))))))

-- `LIMIT ?`, where a negative limit is none
abbrev pub service_messages : ℤ → Table → List Value
service_messages (pos n) t = map stored_dict (take n t.rows)
service_messages (negsuc n) t = map stored_dict t.rows

-- DELETE FROM messages; DELETE FROM sqlite_sequence
abbrev pub service_reset : Table → Table
service_reset t = record { rows = []; seq = 0 }

-- `messages_in_ram` of the health report: SELECT COUNT(*)
abbrev pub service_count : Table → ℕ
service_count t = length t.rows
