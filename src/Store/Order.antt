-- ===== src/Store/Order.antt =====
-- The order of the ids in the table of db.py, which `ORDER BY id ASC` relies on.
use chat_app_csd.Prelude.{
  ◌+◌, false, ◌≡◌, List, contains, arith, Ascending, Ascending-mono, Ascending-snoc,
}
use chat_app_csd.Store.{Engine, Row, Entry, Store, msg_ids, ignored, appended, executemany}
use chat_app_csd.Store.Insert.{executemany_inv}

-- Strictly rising ids, none above the counter.
abbrev pub IsOrdered : Store → Type 0
IsOrdered s = Ascending (λ (e : Entry). e.id) 0 s.messages s.seq

module _ (engine : Engine) where
  skip-IsOrdered : (s : Store) → IsOrdered s → IsOrdered (ignored engine s)
  unfolding ignored
  skip-IsOrdered s h =
      Ascending-mono (λ (e : Entry). e.id) 0 s.messages s.seq (s.seq + engine.id_gap) (omega arith)
        h

  add-IsOrdered :
      (r : Row) (s : Store)
      → contains (msg_ids s.messages) r.msg_id ≡ false
      → IsOrdered s
      → IsOrdered (appended engine r s)
  unfolding appended
  add-IsOrdered r s new h =
      Ascending-snoc (λ (e : Entry). e.id) 0 s.messages _ s.seq (omega arith) h

  -- After any `executemany` on a table whose ids rise strictly up to the counter of
  -- `sqlite_sequence`, they still do, also when an exception cuts the statement short.
  pub executemany-IsOrdered :
      (rows : List Row) (s : Store) → IsOrdered s → IsOrdered (executemany engine rows s).0
  executemany-IsOrdered = executemany_inv engine IsOrdered skip-IsOrdered add-IsOrdered
