-- ===== src/Db/Replay.antt =====
-- `save_messages_batch` of db.py for a batch, and for one that is sent twice, as a client does that
-- had no answer to the first.
use chat_app_csd.Prelude.{
  String, ◌≡◌, refl, sym, ap, ◌∙◌, inl, inr, true, false, List, [], ◌∷◌, ◌++◌, map, append-nil,
  append_assoc, map-append, arith, eq_refl, length, All, contains, contains-append, Bool-cases,
  if◌then◌else◌, if_false,
}
use mathlib.Core.Path.{subst, ap₂}
use chat_app_csd.Store.Batch.{fresh_rows, kept, Fits, runs}
use chat_app_csd.Store.{Row, ids_of, Engine, rows_of, msg_ids, Store}
use chat_app_csd.Db.{add_ids, Config, Db, returned, add_id, feed_item}
use chat_app_csd.Db.Ingest.{ingest}
use chat_app_csd.Db.Pipeline.{ids_of-rows_of}

-- Every id of the rows is in the list.
abbrev Taken : List String → List Row → Type 0
Taken taken [] = Unit
Taken taken (r ∷ rows) = (contains taken r.msg_id ≡ true) × Taken taken rows

-- Every id of a batch is taken once its fresh rows are stored.
covered :
    (taken : List String) (rows : List Row) → Taken (taken ++ ids_of (fresh_rows taken rows)) rows
covered taken [] = tt
covered taken (r ∷ rows) = elim (Bool-cases (contains taken r.msg_id)) [
  | inl k ↦
      let same : fresh_rows taken (r ∷ rows) ≡ fresh_rows taken rows = rw k in
      subst (λ (l : List Row). Taken (taken ++ ids_of l) (r ∷ rows)) (sym same)
        (
          rw (contains-append taken (ids_of (fresh_rows taken rows)) r.msg_id, k) refl,
          covered taken rows,
        )
  | inr k ↦
      let more = fresh_rows (taken ++ r.msg_id ∷ []) rows in
      let same : fresh_rows taken (r ∷ rows) ≡ r ∷ more = rw k in
      subst (λ (l : List Row). Taken (taken ++ ids_of l) (r ∷ rows)) (sym same)
        (
          (rw (contains-append taken (r.msg_id ∷ ids_of more) r.msg_id, k) (rw eq_refl refl)),
          subst (λ (l : List String). Taken l rows)
              (append_assoc taken (r.msg_id ∷ []) (ids_of more))
              (covered (taken ++ r.msg_id ∷ []) rows),
        )
]

fresh_rows_known :
    (taken : List String) (rows : List Row) → Taken taken rows → fresh_rows taken rows ≡ []
fresh_rows_known taken [] h = refl
fresh_rows_known taken (r ∷ rows) h = rw h.0 (fresh_rows_known taken rows h.1)

add_ids_known : (rows : List Row) (s : List String) → Taken s rows → add_ids (ids_of rows) s ≡ s
add_ids_known [] s h = refl
add_ids_known (r ∷ rows) s h = rw (h.0, add_ids) (add_ids_known rows s h.1)

ids_of-kept : (engine : Engine) (rows : List Row) → ids_of (map (kept engine) rows) ≡ ids_of rows
ids_of-kept engine [] = refl
ids_of-kept engine (r ∷ rows) = ap (◌∷◌ r.msg_id) (ids_of-kept engine rows)

known_stays :
    (k j : String) (s : List String) → contains s k ≡ true → contains (add_id j s) k ≡ true
known_stays k j s h = ground (arith, contains-append s (j ∷ []) k)

known_now : (k : String) (s : List String) → contains (add_id k s) k ≡ true
known_now k s = ground (arith, contains-append s (k ∷ []) k, eq_refl k)

contains-add_ids :
    (k : String) (js s : List String) → contains s k ≡ true → contains (add_ids js s) k ≡ true
contains-add_ids k [] s h = h
contains-add_ids k (j ∷ js) s h = contains-add_ids k js (add_id j s) (known_stays k j s h)

add_ids-Taken : (rows : List Row) (s : List String) → Taken (add_ids (ids_of rows) s) rows
add_ids-Taken [] s = tt
add_ids-Taken (r ∷ rows) s = (
  contains-add_ids r.msg_id (ids_of rows) (add_id r.msg_id s) (known_now r.msg_id s),
  add_ids-Taken rows (add_id r.msg_id s),
)

module _ (cfg : Config) where
  -- What `save_messages_batch` does with the rows it has read from a batch, if there are any and
  -- SQLite accepts their timestamps: the answer counts all of them, the committed table is what
  -- the connection saw before with the new ones behind it, and the caches of a host of the shared
  -- database stay as they are. On any other host the feed gets all of them, and the set of ids
  -- theirs.
  pub ingest_lem :
      (r : Row) (rows : List Row) (db : Db)
      → All Fits (r ∷ rows)
      → let (result, after) = ingest cfg (r ∷ rows) db in
        (result ≡ returned (length (r ∷ rows)))
        × (rows_of after.committed.messages
            ≡ rows_of db.working.messages
              ++ map (kept cfg.engine) (fresh_rows (msg_ids db.working.messages) (r ∷ rows)))
        × (after.committed ≡ after.working)
        × (after.feed
            ≡ (if cfg.is_shared_db_host then db.feed else db.feed ++ map feed_item (r ∷ rows)))
        × (after.seen
            ≡ (if cfg.is_shared_db_host then db.seen else add_ids (ids_of (r ∷ rows)) db.seen))
  unfolding ingest
  ingest_lem r rows db fit =
      let run = runs cfg.engine (r ∷ rows) db.working fit in
      elim (Bool-cases cfg.is_shared_db_host) [
        | inl shared ↦ rw (run.ran, shared) (refl, run.rows_after, refl, refl, refl)
        | inr own ↦ rw (run.ran, own) (refl, run.rows_after, refl, refl, refl)
      ]

  nothing_fresh :
      (rows : List Row) (before after : Store)
      → rows_of after.messages
        ≡ rows_of before.messages
          ++ map (kept cfg.engine) (fresh_rows (msg_ids before.messages) rows)
      → fresh_rows (msg_ids after.messages) rows ≡ []
  nothing_fresh rows before after h =
      let ids : msg_ids after.messages
          ≡ msg_ids before.messages ++ ids_of (fresh_rows (msg_ids before.messages) rows) =
        sym (ids_of-rows_of after.messages)
        ∙ ap ids_of h
        ∙ map-append _ (rows_of before.messages) _
        ∙ ap₂ (λ (a b : List String). a ++ b) (ids_of-rows_of before.messages)
            (ids_of-kept cfg.engine (fresh_rows (msg_ids before.messages) rows)) in
      rw ids (fresh_rows_known _ rows (covered (msg_ids before.messages) rows))

  -- A batch that SQLite accepts and that is sent a second time to a host with caches of its own
  -- adds nothing to the table and to the set of ids, and each of its messages to the feed once
  -- more. The second answer, too, says that all were inserted.
  pub replay_doubles_feed :
      (r : Row) (rows : List Row) (db : Db)
      → All Fits (r ∷ rows)
      → cfg.is_shared_db_host ≡ false
      → let once = (ingest cfg (r ∷ rows) db).1 in
        let (result, twice) = ingest cfg (r ∷ rows) once in
        (result ≡ returned (length (r ∷ rows)))
        × (rows_of twice.committed.messages ≡ rows_of once.committed.messages)
        × (twice.seen ≡ once.seen)
        × (twice.feed ≡ once.feed ++ map feed_item (r ∷ rows))
  replay_doubles_feed r rows db fit own =
      let once = (ingest cfg (r ∷ rows) db).1 in
      let (_, stored, saved, _, seen) = ingest_lem r rows db fit in
      let (result, stored', _, feed', seen') = ingest_lem r rows once fit in
      let none_new = nothing_fresh (r ∷ rows) db.working once.working (rw saved at stored) in
      let known = seen ∙ if_false _ _ own in
      (
        result,
        stored' ∙ rw none_new (append-nil _) ∙ ap (λ (t : Store). rows_of t.messages) (sym saved),
        seen'
            ∙ if_false _ _ own
            ∙ add_ids_known (r ∷ rows) once.seen (
                subst (λ (l : List String). Taken l (r ∷ rows)) (sym known)
                  (add_ids-Taken (r ∷ rows) db.seen)),
        feed' ∙ if_false _ _ own,
      )
