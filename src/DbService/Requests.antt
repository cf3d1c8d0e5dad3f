-- ===== src/DbService/Requests.antt =====
-- The table of dbservice/main.py through any sequence of requests.
use chat_app_csd.Prelude.{
  ℕ, suc, ◌+◌, String, ◌≡◌, refl, inl, inr, false, Option, none, some, List, [], ◌∷◌, ◌++◌,
  append-nil, arith, length, Distinct, Bool-cases, Ascending, Ascending-mono, Distinct-snoc,
  Ascending-snoc,
}
use mathlib.Core.Path.{subst}
use mathlib.Core.Option.{some-injective}
use chat_app_csd.Value.{Value, cons, nil, list, null, bool, int, float, text, dict}
use chat_app_csd.Db.{Outcome, raised, returned}
use chat_app_csd.DbService.{
  TextEngine, Params, Stored, Table, table_ids, key_of, has_id, all_bind, insert_row, insert_all,
  insert_params, answered, params_of_all, service_batch, service_reset, stored_row,
}
use chat_app_csd.DbService.Twice.{table_ids-append}

abbrev id_of : Stored → ℕ
id_of r = r.id

-- No text stands twice in the column `msg_id`, the ids rise strictly in the order of the rows, and
-- the counter is at least the last of them.
pub record IsSound (t : Table) : Type 0 where
  pub distinct : Distinct (table_ids t.rows)
  pub ascending : Ascending id_of 0 t.rows t.seq

module _ (engine : TextEngine) (repr : Value → String) where
  -- The requests that change the table; the others only read it.
  pub data Served (t : Table) : Table → Type 0 where
    unserved : Served t t
    then_batch :
        {u : Table} (body : Value) → Served t u → Served t (service_batch engine repr body u).1
    then_reset : {u : Table} → Served t u → Served t (service_reset u)

  Distinct-key :
      (ids : List String) (k : Option String) (rows : List Stored)
      → has_id k rows ≡ false
      → ids ≡ table_ids rows
      → Distinct ids
      → Distinct (ids ++ key_of k)
  Distinct-key ids none rows new e h = rw append-nil h
  Distinct-key ids (some k) rows new e h = Distinct-snoc ids k (rw e new) h

  insert_row-IsSound : (r : Params) (t : Table) → IsSound t → IsSound (insert_row engine r t)
  unfolding insert_row
  insert_row-IsSound r t h = elim (Bool-cases (has_id (engine.column_text r.msg_id) t.rows)) [
    | inl known ↦ rw known (record {
      distinct = h.distinct;
      ascending =
          Ascending-mono id_of 0 t.rows t.seq (t.seq + engine.id_gap) (omega arith) h.ascending;
    })
    | inr new ↦ rw new (record {
      distinct =
          rw (table_ids-append t.rows (stored_row engine r (suc t.seq) ∷ []), append-nil)
            (Distinct-key (table_ids t.rows) (engine.column_text r.msg_id) t.rows new refl
              h.distinct);
      ascending =
          Ascending-snoc id_of 0 t.rows (stored_row engine r (suc t.seq)) t.seq (omega arith)
            h.ascending;
    })
  ]

  insert_all-IsSound :
      (rows : List Params) (t u : Table) → insert_all engine rows t ≡ some u → IsSound t → IsSound u
  unfolding insert_all
  insert_all-IsSound [] t u e h = subst IsSound (some-injective t u e) h
  insert_all-IsSound (r ∷ rows) t u e h = elim (Bool-cases (all_bind r)) [
    | inl b ↦
        insert_all-IsSound rows (insert_row engine r t) u (rw b at e) (insert_row-IsSound r t h)
    | inr b ↦ cc (rw b at e)
  ]

  answered-IsSound :
      (rows : List Params) (t : Table) (n : ℕ) (o : Option Table)
      → insert_all engine rows t ≡ o
      → IsSound t
      → IsSound (answered engine n o t).1
  answered-IsSound rows t n none e h = h
  answered-IsSound rows t n (some u) e h = insert_all-IsSound rows t u e h

  params-IsSound :
      (o : Outcome (List Params)) (t : Table) → IsSound t → IsSound (insert_params engine o t).1
  params-IsSound raised t h = h
  params-IsSound (returned rows) t h =
      answered-IsSound rows t (length rows) (insert_all engine rows t) refl h

  pub batch-IsSound :
      (body : Value) (t : Table) → IsSound t → IsSound (service_batch engine repr body t).1
  unfolding service_batch
  batch-IsSound (list (cons v vs)) t h = params-IsSound (params_of_all repr (cons v vs)) t h
  batch-IsSound (list nil) t h = h
  batch-IsSound null t h = h
  batch-IsSound (bool b) t h = h
  batch-IsSound (int n) t h = h
  batch-IsSound (float x) t h = h
  batch-IsSound (text s) t h = h
  batch-IsSound (dict d) t h = h

  -- Whatever batches the service is sent, well-formed or not, and whenever it is reset: if no id
  -- stood twice in the table, and its rows had rising ids up to the counter, then so it is after
  -- every request, those that end with an exception included.
  pub Served-IsSound : {t u : Table} → Served t u → IsSound t → IsSound u
  Served-IsSound unserved h = h
  Served-IsSound (then_batch {u} body run) h = batch-IsSound body u (Served-IsSound run h)
  Served-IsSound (then_reset {u} run) h = record { distinct = tt; ascending = omega arith }
