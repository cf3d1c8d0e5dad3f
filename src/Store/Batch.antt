-- ===== src/Store/Batch.antt =====
-- What an `executemany` stores, against a plain description: the rows with an id that neither the
-- table nor an earlier row of the batch has, in their order.
use chat_app_csd.Prelude.{
  String, true, false, ◌≡◌, refl, sym, ◌∙◌, List, [], ◌∷◌, ◌++◌, map, map-append, append_assoc,
  append-nil, contains, All, some, Bool-cases, inl, inr, if◌then◌else◌,
}
use chat_app_csd.Store.{
  Engine, Row, Store, rows_of, msg_ids, bind, fits, ignored, appended, executemany,
  insert_or_ignore,
}

-- The rows that are new, given the ids that are taken.
abbrev pub fresh_rows : List String → List Row → List Row
fresh_rows taken [] = []
fresh_rows taken (r ∷ rows) =
    let rest = fresh_rows taken rows in
    let more = fresh_rows (taken ++ r.msg_id ∷ []) rows in
    if contains taken r.msg_id then rest else r ∷ more

-- SQLite accepts the row's timestamp.
abbrev pub Fits : Row → Type 0
Fits r = bind r.timestamp ≡ fits

module _ (engine : Engine) where
  -- The row as the table keeps it.
  abbrev pub kept : Row → Row
  kept r = record r { timestamp = engine.affinity r.timestamp }

  pub msg_ids-appended :
      (r : Row) (s : Store)
      → msg_ids (appended engine r s).messages ≡ msg_ids s.messages ++ r.msg_id ∷ []
  unfolding appended
  msg_ids-appended r s = map-append _ s.messages _

  pub rows_of-ignored : (s : Store) → rows_of (ignored engine s).messages ≡ rows_of s.messages
  unfolding ignored
  rows_of-ignored s = refl

  pub rows_of-appended :
      (r : Row) (s : Store)
      → rows_of (appended engine r s).messages ≡ rows_of s.messages ++ kept r ∷ []
  unfolding appended
  rows_of-appended r s = map-append _ s.messages _

  pub insert-Fits :
      (r : Row) (s : Store)
      → Fits r
      → insert_or_ignore engine r s
        ≡ some (
            if contains (msg_ids s.messages) r.msg_id
            then ignored engine s
            else appended engine r s)
  unfolding insert_or_ignore
  insert-Fits r s f = rw (f, insert_or_ignore)

  -- What a run of inserts has made of the store `s`.
  pub record Runs (rows : List Row) (s : Store) : Type 0 where
    pub after : Store
    pub ran : executemany engine rows s ≡ (after, true)
    pub rows_after :
        rows_of after.messages
        ≡ rows_of s.messages ++ map kept (fresh_rows (msg_ids s.messages) rows)
    pub users_after : after.users ≡ s.users

  run_known :
      (r : Row) (rows : List Row) (s : Store)
      → Fits r
      → contains (msg_ids s.messages) r.msg_id ≡ true
      → Runs rows (ignored engine s)
      → Runs (r ∷ rows) s
  unfolding executemany ignored
  run_known r rows s f k h = record {
    after = h.after;
    ran = rw (insert-Fits r s f, executemany) (rw k h.ran);
    rows_after = rw (k, fresh_rows) h.rows_after;
    users_after = h.users_after;
  }

  run_new :
      (r : Row) (rows : List Row) (s : Store)
      → Fits r
      → contains (msg_ids s.messages) r.msg_id ≡ false
      → Runs rows (appended engine r s)
      → Runs (r ∷ rows) s
  unfolding executemany
  run_new r rows s f k h = record {
    after = h.after;
    ran = rw (insert-Fits r s f, executemany) (rw k h.ran);
    rows_after = rw k (
        h.rows_after
        ∙ rw (rows_of-appended r s, msg_ids-appended r s)
            (append_assoc (rows_of s.messages) (kept r ∷ []) _));
    users_after = unfold appended in h.users_after;
  }

  -- A run over rows that SQLite accepts comes to its end and stores the fresh rows.
  pub runs : (rows : List Row) (s : Store) → All Fits rows → Runs rows s
  unfolding executemany
  runs [] s f = record {
    after = s;
    ran = refl;
    rows_after = sym (append-nil (rows_of s.messages));
    users_after = refl;
  }
  runs (r ∷ rows) s f = elim (Bool-cases (contains (msg_ids s.messages) r.msg_id)) [
    | inl k ↦ run_known r rows s f.0 k (runs rows (ignored engine s) f.1)
    | inr k ↦ run_new r rows s f.0 k (runs rows (appended engine r s) f.1)
  ]
