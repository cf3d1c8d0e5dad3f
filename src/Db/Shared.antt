-- ===== src/Db/Shared.antt =====
-- From the writer of one backend to `save_messages_batch` of another (db.py).
use chat_app_csd.Prelude.{
  String, ◌≡◌, refl, ap, ◌∙◌, inl, inr, true, false, List, [], ◌∷◌, ◌++◌, map, length, All,
  contains, Bool-cases, ℤ, is_empty,
}
use chat_app_csd.Db.Pipeline.{HasIntTime, IsDurable, All-Fits, map-kept, All-left}
use chat_app_csd.Db.Replica.{payload_roundtrip}
use chat_app_csd.Db.Replay.{ingest_lem}
use chat_app_csd.Db.Ingest.{parse_items, save_messages_batch}
use chat_app_csd.Db.Writer.{payload, writer_write, replicates}
use chat_app_csd.Store.Batch.{fresh_rows, runs}
use chat_app_csd.Value.{items_of}
use chat_app_csd.Store.{Row, rows_of, msg_ids}
use chat_app_csd.Db.{Config, Db, returned}

-- The row has an id that is not the empty text.
abbrev pub HasId : Row → Type 0
HasId r = is_empty r.msg_id ≡ false

fresh-HasIntTime :
    (taken : List String) (rows : List Row)
    → All HasIntTime rows
    → All HasIntTime (fresh_rows taken rows)
fresh-HasIntTime taken [] h = tt
fresh-HasIntTime taken (r ∷ rows) h = elim (Bool-cases (contains taken r.msg_id)) [
  | inl known ↦ rw known (fresh-HasIntTime taken rows h.1)
  | inr new ↦ rw new (h.0, fresh-HasIntTime (taken ++ r.msg_id ∷ []) rows h.1)
]

module _ (cfg : Config) where
  parse_items-payload :
      (rows : List Row) (now : ℤ)
      → All HasId rows
      → All HasIntTime rows
      → parse_items cfg.repr now (items_of (map (payload cfg) rows)) ≡ returned rows
  unfolding parse_items
  parse_items-payload [] now ids times = refl
  parse_items-payload (r ∷ rows) now ids times =
      let (n, time, _) = times.0 in
      rw (payload_roundtrip cfg r now n ids.0 time, parse_items)
        (rw (parse_items-payload rows now ids.1 times.1) refl)

  pub posted_batch :
      (db : Db) (r : Row) (rows : List Row)
      → db.in_flight ≡ r ∷ rows
      → All HasIntTime (r ∷ rows)
      → replicates cfg ≡ true
      → (writer_write cfg db).1 ≡ map (payload cfg) (r ∷ rows)
  unfolding writer_write
  posted_batch db r rows e times on =
      rw (e, writer_write)
        (rw ((runs cfg.engine (r ∷ rows) db.working (All-Fits (r ∷ rows) times)).ran, on) refl)

  -- Let a backend that replicates write a batch that is not empty, from a state as `IsDurable`
  -- describes it and with ids that are not the empty text. `save_messages_batch` of a host with
  -- the same `repr` answers what was posted with the size of the batch, and the rows of its
  -- committed table are then those it had, followed, in order and with all nine columns as they
  -- were, by the rows of the batch with an id that it did not have.
  pub replicated_batch :
      (host : Config) (now : ℤ) (db shared : Db) (r : Row) (rows : List Row)
      → host.repr ≡ cfg.repr
      → replicates cfg ≡ true
      → IsDurable db
      → db.in_flight ≡ r ∷ rows
      → All HasId (r ∷ rows)
      → let posted = (writer_write cfg db).1 in
        let (result, after) = save_messages_batch host now (items_of posted) shared in
        (result ≡ returned (length (r ∷ rows)))
        × (rows_of after.committed.messages
            ≡ rows_of shared.working.messages
              ++ fresh_rows (msg_ids shared.working.messages) (r ∷ rows))
  unfolding save_messages_batch
  replicated_batch host now db shared r rows same on h e ids =
      let times : All HasIntTime (r ∷ rows) = rw e at (All-left db.in_flight db.queue h.times) in
      let (result, stored, _, _, _) = ingest_lem host r rows shared (All-Fits (r ∷ rows) times) in
      rw (posted_batch db r rows e times on, same)
        (rw (parse_items-payload (r ∷ rows) now ids times) (
          result,
          stored
              ∙ ap (◌++◌ (rows_of shared.working.messages)) (
                  map-kept host.engine _
                    (fresh-HasIntTime (msg_ids shared.working.messages) (r ∷ rows) times)),
        ))
