-- ===== src/Store/Unique.antt =====
-- The column `msg_id TEXT NOT NULL UNIQUE` of the table of db.py under its INSERT statements.
use chat_app_csd.Prelude.{false, ◌≡◌, List, Distinct, Distinct-snoc, map-append, contains}
use chat_app_csd.Store.{Engine, Row, Store, msg_ids, ignored, appended, executemany}
use chat_app_csd.Store.Insert.{executemany_inv}

abbrev pub IsUnique : Store → Type 0
IsUnique s = Distinct (msg_ids s.messages)

module _ (engine : Engine) where
  skip-IsUnique : (s : Store) → IsUnique s → IsUnique (ignored engine s)
  unfolding ignored
  skip-IsUnique s u = u

  add-IsUnique :
      (r : Row) (s : Store)
      → contains (msg_ids s.messages) r.msg_id ≡ false
      → IsUnique s
      → IsUnique (appended engine r s)
  unfolding appended
  add-IsUnique r s new u = rw map-append (Distinct-snoc (msg_ids s.messages) r.msg_id new u)

  -- After any `executemany` on a table whose message ids are distinct they are distinct, also when
  -- an exception cuts the statement short.
  pub executemany-IsUnique :
      (rows : List Row) (s : Store) → IsUnique s → IsUnique (executemany engine rows s).0
  executemany-IsUnique = executemany_inv engine IsUnique skip-IsUnique add-IsUnique
