-- ===== src/Db/Recovery.antt =====
-- Restarts: `init_db` of db.py on the file that a process left, and the rounds of the writer before.
use chat_app_csd.Prelude.{
  ℕ, zero, suc, ◌*◌, ◌≤◌, ◌≡◌, refl, sym, ap, ◌∙◌, [], ◌++◌, map, append-nil, map-append, arith,
  length, drop, length-drop, drop_all,
}
use chat_app_csd.Db.Pipeline.{IsDurable, pending, written}
use chat_app_csd.Db.{Config, start, Db, feed_item}
use chat_app_csd.Db.Writer.{writer_round, writer_rounds, batch_max, writer_take}
use chat_app_csd.Db.Steps.{
  writer_take-IsDurable, write-IsDurable, crash-IsDurable, writer_take-split,
}
use chat_app_csd.Store.{rows_of, Store}
use chat_app_csd.Db.Saving.{feed_ids}

-- A process that dies in a state as `IsDurable` describes it, and starts again, has lost exactly
-- the pending rows: its feed was the feed after the restart followed by their messages.
pub crash_loses_pending :
    (db : Db) → IsDurable db → db.feed ≡ (start db.committed).feed ++ map feed_item (pending db)
unfolding start
crash_loses_pending db h =
    h.fed
    ∙ map-append feed_item (rows_of db.working.messages) (pending db)
    ∙ ap (λ (s : Store). map feed_item (rows_of s.messages) ++ map feed_item (pending db)) h.saved

module _ (cfg : Config) where
  -- What a round does to a process whose writer holds no batch.
  record Round (db after : Db) : Type 0 where
    durable : IsDurable after
    idle : after.in_flight ≡ []
    rest : after.queue ≡ drop batch_max db.queue
    same_feed : after.feed ≡ db.feed

  round : (db : Db) → db.in_flight ≡ [] → IsDurable db → Round db (writer_round cfg db).0
  unfolding writer_round
  round db idle h =
      let taken = writer_take-IsDurable db idle h in
      let w = written cfg (writer_take db) taken in
      record {
        durable = write-IsDurable cfg (writer_take db) taken;
        idle = rw w.wrote refl;
        rest = rw w.wrote (ap (λ (d : Db). d.queue) (writer_take-split db));
        same_feed = rw w.wrote (ap (λ (d : Db). d.feed) (writer_take-split db));
      }

  drained :
      (n : ℕ) (db : Db)
      → db.in_flight ≡ []
      → IsDurable db
      → length db.queue ≤ n * batch_max
      → let after = writer_rounds cfg n db in
        IsDurable after × (after.in_flight ≡ []) × (after.queue ≡ []) × (after.feed ≡ db.feed)
  unfolding writer_rounds
  drained zero db idle h le = (h, idle, drop_all 0 db.queue le, refl)
  drained (suc n) db idle h le =
      let r = round db idle h in
      let (durable, idle', queue, feed) =
        drained n (writer_round cfg db).0 r.idle r.durable
          (rw r.rest (omega (arith, length-drop batch_max db.queue))) in
      (durable, idle', queue, feed ∙ r.same_feed)

  -- From a state as `IsDurable` describes it in which the writer holds no batch: once the writer
  -- has made a round for each 200 rows of the queue, nothing is pending, and a restart shows the
  -- whole feed, in its order, with the same ids known.
  pub flush_then_restart :
      (n : ℕ) (db : Db)
      → db.in_flight ≡ []
      → IsDurable db
      → length db.queue ≤ n * batch_max
      → let after = writer_rounds cfg n db in
        (pending after ≡ [])
        × ((start after.committed).feed ≡ db.feed)
        × ((start after.committed).seen ≡ db.seen)
  flush_then_restart n db idle h le =
      let (durable, idle', queue, feed) = drained n db idle h le in
      let after = writer_rounds cfg n db in
      let none_pending : pending after ≡ [] = rw (idle', queue) refl in
      let back : (start after.committed).feed ≡ db.feed =
        sym (crash_loses_pending after durable ∙ rw none_pending (append-nil _)) ∙ feed in
      (
        none_pending,
        back,
        (crash-IsDurable after durable).consistent.ids ∙ ap feed_ids back ∙ sym h.consistent.ids,
      )
