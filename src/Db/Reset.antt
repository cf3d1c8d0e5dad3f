-- ===== src/Db/Reset.antt =====
-- `reset_db`, and the batch that it does not reach.
use chat_app_csd.Prelude.{
  zero, suc, String, ◌≡◌, refl, ◌∙◌, false, List, [], ◌∷◌, All, Distinct, ℤ, pos, negsuc,
}
use chat_app_csd.Db.{
  Config, reset_db, Db, get_messages_for_feed, load_shared_messages, message_exists,
  get_message_count, get_last_hash, genesis, limited,
}
use chat_app_csd.Db.Pipeline.{
  IsDurable, All-left, Distinct-right, HasIntTime, batch-Distinct, Runs-Written, All-Fits,
}
use chat_app_csd.Db.Writer.{writer_write}
use chat_app_csd.Store.{rows_of, Row, ids_of, msg_ids}
use chat_app_csd.Store.Batch.{runs}

limited_nil : (limit : ℤ) → limited limit [] ≡ []
limited_nil (pos zero) = refl
limited_nil (pos (suc n)) = refl
limited_nil (negsuc n) = refl

-- Whatever the state, after a reset the feed, the queue and the committed table of messages are
-- empty, `GET /messages` has nothing under any limit, no id is known, none is counted, and the
-- last hash is the genesis hash; the users are those of the process's own connection, committed.
pub reset_db_lem :
    (db : Db)
    → let after = reset_db db in
      (get_messages_for_feed after ≡ [])
      × ((limit : ℤ) → load_shared_messages limit after ≡ [])
      × ((k : String) → message_exists k after ≡ false)
      × (get_message_count after ≡ 0)
      × (get_last_hash after ≡ genesis)
      × (after.queue ≡ [])
      × (after.committed.messages ≡ [])
      × (after.committed.users ≡ db.working.users)
unfolding reset_db get_messages_for_feed load_shared_messages message_exists get_message_count
    get_last_hash
reset_db_lem db = (refl, λ limit. rw limited_nil, λ k. refl, refl, refl, refl, refl, refl)

module _ (cfg : Config) where
  late_write :
      (db : Db) (batch : List Row)
      → db.in_flight ≡ batch
      → All HasIntTime batch
      → Distinct (ids_of batch)
      → let after = (writer_write cfg (reset_db db)).0 in
        (rows_of after.committed.messages ≡ batch) × (after.feed ≡ [])
  unfolding reset_db
  late_write db [] e times d = unfold writer_write in rw (e, writer_write) (refl, refl)
  late_write db (r ∷ rows) e times d =
      let w =
        Runs-Written cfg (reset_db db) r rows e times d
          (runs cfg.engine (r ∷ rows) (reset_db db).working (All-Fits (r ∷ rows) times)) in
      rw w.wrote (w.rows ∙ e, refl)

  -- If the writer holds a batch when a reset comes, in a state as `IsDurable` describes it, and
  -- writes it afterwards, then the committed table holds exactly that batch, messages of before
  -- the reset, while the feed is empty.
  pub reset_misses_batch :
      (db : Db)
      → IsDurable db
      → let after = (writer_write cfg (reset_db db)).0 in
        (rows_of after.committed.messages ≡ db.in_flight) × (after.feed ≡ [])
  reset_misses_batch db h =
      late_write db db.in_flight refl (All-left db.in_flight db.queue h.times)
        (Distinct-right (msg_ids db.working.messages) (ids_of db.in_flight) (batch-Distinct db h))
