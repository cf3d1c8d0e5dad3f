-- ===== src/Store.antt =====
-- The SQLite file behind db.py: the tables `messages` and `users`, and the statements that db.py
-- runs on them. SQLite itself is not part of the repository: what the statements leave to it is
-- the record `Engine`.
pub mod Unique
pub mod Order
pub mod Insert
pub mod Batch
use chat_app_csd.Prelude.{
  ℕ, suc, ◌+◌, ◌^◌, String, Bool, true, false, ◌≡◌, Option, none, some, List, [], ◌∷◌, ◌++◌, map, ℤ,
  pos, negsuc, contains, ltb, ◌==◌, if◌then◌else◌,
}
use chat_app_csd.Value.{
  Value, null, bool, int, float, text, list, dict, Float, Conversion, value_error,
}

-- `id_gap`: how many ids an insert that is ignored uses up (AUTOINCREMENT promises only that ids
-- grow). `affinity`: how a column of type INTEGER keeps a value; an integer is kept as it is.
pub record Engine : Type 0 where
  pub id_gap : ℕ
  pub affinity : Value → Value
  pub affinity_int : (n : ℤ) → affinity (int n) ≡ int n

-- The nine columns that every INSERT of db.py gives.
pub record Row : Type 0 where
  pub msg_id : String
  pub username : String
  pub plaintext : String
  pub ciphertext : String
  pub signature : String
  pub pubkey_jwk : String
  pub timestamp : Value
  pub prev_hash : String
  pub record_hash : String

-- A row of `messages` with its id.
pub record Entry : Type 0 where
  pub id : ℕ
  pub row : Row

-- `messages` in the order of its ids, the row of `sqlite_sequence` for it, and `users`.
pub record Store : Type 0 where
  pub messages : List Entry
  pub seq : ℕ
  pub users : List (String × String)

abbrev pub empty_store : Store
empty_store = record { messages = []; seq = 0; users = [] }

abbrev pub rows_of : List Entry → List Row
rows_of = map (λ e. e.row)

abbrev pub ids_of : List Row → List String
ids_of = map (λ r. r.msg_id)

abbrev pub msg_ids : List Entry → List String
msg_ids = map (λ e. e.row.msg_id)

-- What binding a parameter to the column `timestamp INTEGER NOT NULL` comes to: a value, NULL, or
-- an exception of the module sqlite3.
pub data Binding : Type 0 where
  fits null_column unsupported : Binding

abbrev pub int64_limit : ℕ
int64_limit = 2 ^ 63

abbrev pub in_int64 : ℤ → Bool
in_int64 (pos n) = ltb n int64_limit
in_int64 (negsuc n) = ltb n int64_limit

abbrev bind_float : Conversion → Binding
bind_float value_error = null_column
bind_float _ = fits

-- A NaN is bound as NULL; lists, dicts and integers past 64 bits are refused.
unfoldable pub bind : Value → Binding
bind null = null_column
bind (bool b) = fits
bind (int n) = if in_int64 n then fits else unsupported
bind (float f) = bind_float f.trunc
bind (text s) = fits
bind (list vs) = unsupported
bind (dict d) = unsupported

module _ (engine : Engine) where
  pub ignored : Store → Store
  ignored s = record s { seq = s.seq + engine.id_gap }

  pub appended : Row → Store → Store
  appended r s = record s {
    messages =
        s.messages
        ++ record { id = suc s.seq; row = record r { timestamp = engine.affinity r.timestamp } }
          ∷ [];
    seq = suc s.seq;
  }

  -- INSERT OR IGNORE INTO messages; `none` is an exception
  unfoldable pub insert_or_ignore : Row → Store → Option Store
  unfolding bind ignored appended
  insert_or_ignore r s = elim (bind r.timestamp) [
    | unsupported ↦ none
    | null_column ↦ some (ignored s)
    | fits ↦ some (if contains (msg_ids s.messages) r.msg_id then ignored s else appended r s)
  ]

  -- `conn.executemany`: the store that it leaves, and whether it came to its end
  unfoldable pub executemany : List Row → Store → Store × Bool
  executemany [] s = (s, true)
  executemany (r ∷ rows) s = elim (insert_or_ignore r s) [
    | none ↦ (s, false)
    | some s' ↦ executemany rows s'
  ]

-- DELETE FROM messages; DELETE FROM sqlite_sequence WHERE name='messages'
unfoldable pub delete_messages : Store → Store
delete_messages s = record s { messages = []; seq = 0 }

upsert : String → String → List (String × String) → List (String × String)
upsert name key [] = (name, key) ∷ []
upsert name key ((n, k) ∷ users) =
    if n == name then (n, key) ∷ users else (n, k) ∷ upsert name key users

-- INSERT INTO users … ON CONFLICT(username) DO UPDATE
unfoldable pub upsert_user : String → String → Store → Store
unfolding upsert
upsert_user name key s = record s { users = upsert name key s.users }
