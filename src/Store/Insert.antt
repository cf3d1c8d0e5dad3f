-- ===== src/Store/Insert.antt =====
-- The outcomes of INSERT OR IGNORE, and what a whole `executemany` stores.
use chat_app_csd.Prelude.{Bool, true, false, ◌≡◌, refl, List, [], ◌∷◌, none, some, arith, contains}
use chat_app_csd.Store.{
  Engine, Row, Store, msg_ids, bind, Binding, insert_or_ignore, executemany, fits, null_column,
  unsupported, ignored, appended,
}

-- How an insert ends: with an exception, ignored, or with the row at the end of the table.
pub data Inserted (engine : Engine) (r : Row) (s : Store) : Type 0 where
  refused :
      bind r.timestamp ≡ unsupported → insert_or_ignore engine r s ≡ none → Inserted engine r s
  skipped : insert_or_ignore engine r s ≡ some (ignored engine s) → Inserted engine r s
  stored :
      bind r.timestamp ≡ fits
      → contains (msg_ids s.messages) r.msg_id ≡ false
      → insert_or_ignore engine r s ≡ some (appended engine r s)
      → Inserted engine r s

module _ (engine : Engine) where
  insert_cases :
      (r : Row) (s : Store) (b : Binding) (known : Bool)
      → bind r.timestamp ≡ b
      → contains (msg_ids s.messages) r.msg_id ≡ known
      → Inserted engine r s
  unfolding insert_or_ignore
  insert_cases r s unsupported known e k = refused e (ground arith)
  insert_cases r s null_column known e k = skipped (ground arith)
  insert_cases r s fits true e k = skipped (ground arith)
  insert_cases r s fits false e k = stored e k (ground arith)

  pub inserted : (r : Row) (s : Store) → Inserted engine r s
  inserted r s =
      insert_cases r s (bind r.timestamp) (contains (msg_ids s.messages) r.msg_id) refl refl

  -- A property that no insert breaks holds after any `executemany`, also one that is cut short.
  pub executemany_inv {ℓ} :
      (P : Store → Type ℓ)
      → ((s : Store) → P s → P (ignored engine s))
      → ((r : Row) (s : Store)
          → contains (msg_ids s.messages) r.msg_id ≡ false
          → P s
          → P (appended engine r s))
      → (rows : List Row) (s : Store) → P s
      → P (executemany engine rows s).0
  unfolding executemany
  executemany_inv P skip add [] s h = h
  executemany_inv P skip add (r ∷ rows) s h = elim (inserted r s) [
    | refused b e ↦ rw (e, executemany) h
    | skipped e ↦
        rw (e, executemany) (executemany_inv P skip add rows (ignored engine s) (skip s h))
    | stored b k e ↦
        rw (e, executemany) (executemany_inv P skip add rows (appended engine r s) (add r s k h))
  ]
