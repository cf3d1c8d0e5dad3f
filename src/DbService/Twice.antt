-- ===== src/DbService/Twice.antt =====
-- A batch that is posted to the service a second time, as a sender does that saw no answer.
use mathlib.Core.Path.{subst}
use mathlib.Core.Option.{some-injective}
use chat_app_csd.Prelude.{
  ℕ, suc, ◌+◌, String, ◌≡◌, refl, sym, ap, ◌∙◌, inl, inr, true, Option, none, some, List, [], ◌∷◌,
  ◌++◌, append-nil, append_assoc, arith, eq_refl, length, contains, contains-append, Bool-cases,
  if◌then◌else◌,
}
use chat_app_csd.Value.{Value, Items, cons, list}
use chat_app_csd.Db.{returned}
use chat_app_csd.DbService.{
  table_ids, key_of, TextEngine, Params, Stored, Table, has_id, all_bind, insert_row, insert_all,
  service_batch, answered, params_of_all, stored_row,
}

pub table_ids-append :
    (rows more : List Stored) → table_ids (rows ++ more) ≡ table_ids rows ++ table_ids more
table_ids-append [] more = refl
table_ids-append (r ∷ rows) more =
    ap (◌++◌ (key_of r.msg_id)) (table_ids-append rows more)
    ∙ sym (append_assoc (key_of r.msg_id) (table_ids rows) (table_ids more))

module _ (engine : TextEngine) where
  -- The row's id is a text, and not NULL.
  abbrev pub HasKey : Params → Type 0
  HasKey r = (k : String) × (engine.column_text r.msg_id ≡ some k)

  -- Every row can be bound, and the table has its id.
  abbrev Known : List Params → List Stored → Type 0
  Known [] table = Unit
  Known (r ∷ rows) table =
      (all_bind r ≡ true) × (has_id (engine.column_text r.msg_id) table ≡ true) × Known rows table

  pub table_ids-insert_row :
      (r : Params) (t : Table)
      → table_ids (insert_row engine r t).rows ≡ (
          if has_id (engine.column_text r.msg_id) t.rows
          then table_ids t.rows
          else table_ids t.rows ++ key_of (engine.column_text r.msg_id))
  unfolding insert_row
  table_ids-insert_row r t = elim (Bool-cases (has_id (engine.column_text r.msg_id) t.rows)) [
    | inl e ↦ rw e refl
    | inr e ↦ rw e (
        table_ids-append t.rows (stored_row engine r (suc t.seq) ∷ [])
        ∙ ap (◌++◌ (table_ids t.rows)) (append-nil (key_of (engine.column_text r.msg_id))))
  ]

  id_stays :
      (k : String) (r : Params) (t : Table)
      → contains (table_ids t.rows) k ≡ true
      → contains (table_ids (insert_row engine r t).rows) k ≡ true
  id_stays k r t h = rw table_ids-insert_row (
      ground
        (arith, h, contains-append (table_ids t.rows) (key_of (engine.column_text r.msg_id)) k))

  id_now :
      (k : String) (r : Params) (t : Table)
      → engine.column_text r.msg_id ≡ some k
      → contains (table_ids (insert_row engine r t).rows) k ≡ true
  id_now k r t e =
      rw (table_ids-insert_row r t, e)
        (ground (arith, contains-append (table_ids t.rows) (k ∷ []) k, eq_refl k))

  -- Rows with ids of their own.
  abbrev pub AreKeyed : List Params → Type 0
  AreKeyed [] = Unit
  AreKeyed (r ∷ rows) = HasKey r × AreKeyed rows

  -- After a batch that ends without an exception, the table has the ids that it had.
  ids_stay :
      (k : String) (rows : List Params) (t u : Table)
      → insert_all engine rows t ≡ some u
      → contains (table_ids t.rows) k ≡ true
      → contains (table_ids u.rows) k ≡ true
  unfolding insert_all
  ids_stay k [] t u e h =
      subst (λ (x : Table). contains (table_ids x.rows) k ≡ true) (some-injective t u e) h
  ids_stay k (r ∷ rows) t u e h = elim (Bool-cases (all_bind r)) [
    | inl b ↦ ids_stay k rows (insert_row engine r t) u (rw b at e) (id_stays k r t h)
    | inr b ↦ cc (rw b at e)
  ]

  -- After a batch that ends without an exception, the table has the ids of all its rows, and
  -- every row was bound.
  insert_all-Known :
      (rows : List Params) (t u : Table)
      → AreKeyed rows
      → insert_all engine rows t ≡ some u
      → Known rows u.rows
  unfolding insert_all
  insert_all-Known [] t u keyed e = tt
  insert_all-Known (r ∷ rows) t u keyed e = elim (Bool-cases (all_bind r)) [
    | inl b ↦
        let (k, id) = keyed.0 in
        let e' = rw b at e in
        (
          b,
          rw id (ids_stay k rows (insert_row engine r t) u e' (id_now k r t id)),
          insert_all-Known rows (insert_row engine r t) u keyed.1 e',
        )
    | inr b ↦ cc (rw b at e)
  ]

  -- A batch whose ids the table has changes no row.
  Known-insert_all :
      (rows : List Params) (t : Table)
      → Known rows t.rows
      → (u : Table) × (insert_all engine rows t ≡ some u) × (u.rows ≡ t.rows)
  unfolding insert_all
  Known-insert_all [] t h = (t, refl, refl)
  Known-insert_all (r ∷ rows) t h =
      let skipped : insert_row engine r t ≡ record t { seq = t.seq + engine.id_gap } =
        unfold insert_row in rw h.1 in
      let (u, ran, same) = Known-insert_all rows (record t { seq = t.seq + engine.id_gap }) h.2 in
      (u, rw (h.0, skipped) ran, same)

  answered_twice :
      (rows : List Params) (t : Table) (n : ℕ) (o : Option Table)
      → insert_all engine rows t ≡ o
      → AreKeyed rows
      → (answered engine n o t).0 ≡ returned n
      → let once = (answered engine n o t).1 in
        let (result, twice) = answered engine n (insert_all engine rows once) once in
        (result ≡ returned n) × (twice.rows ≡ once.rows)
  answered_twice rows t n none e keyed ok = cc ok
  answered_twice rows t n (some u) e keyed ok =
      let (w, ran, same) = Known-insert_all rows u (insert_all-Known rows t u keyed e) in
      rw ran (refl, same)

  -- If a batch in which every item's id is kept as a text, and not as NULL, was answered with
  -- success and is posted again, then the answer is the same success and the rows of the table
  -- stay as the first request left them.
  pub posted_twice :
      (repr : Value → String) (v : Value) (vs : Items) (rows : List Params) (t : Table)
      → params_of_all repr (cons v vs) ≡ returned rows
      → AreKeyed rows
      → (service_batch engine repr (list (cons v vs)) t).0 ≡ returned (length rows)
      → let once = (service_batch engine repr (list (cons v vs)) t).1 in
        let (result, twice) = service_batch engine repr (list (cons v vs)) once in
        (result ≡ returned (length rows)) × (twice.rows ≡ once.rows)
  unfolding service_batch
  posted_twice repr v vs rows t read keyed ok =
      rw read
        (answered_twice rows t (length rows) (insert_all engine rows t) refl keyed (rw read at ok))
