-- ===== src/Tests/Processes.antt =====
-- Examples for the database of a process.
use chat_app_csd.Prelude.{◌≡◌, refl, List, [], ◌∷◌, ◌++◌, map, arith, pos, negsuc, some}
use chat_app_csd.Value.{items_of}
use chat_app_csd.Tests.{engine, config, row, bad_row, fresh}
use chat_app_csd.Db.Replica.{payload_roundtrip}
use chat_app_csd.Db.{Db, reset_db, start, feed_item, returned, save_message, Config}
use chat_app_csd.Db.Pipeline.{IsDurable, pending}
use chat_app_csd.Db.Writer.{writer_rounds, writer_write, writer_take, payload}
use chat_app_csd.Store.{Row, executemany, rows_of, empty_store, insert_or_ignore, msg_ids, bind}
use chat_app_csd.Db.Ingest.{ingest, save_messages_batch, parse_item}
use chat_app_csd.Db.Steps.{
  Reach-IsDurable, start-IsDurable, Reach, next, here, take_next, writer_take-IsDurable, save,
  write, crash,
}
use chat_app_csd.Db.Recovery.{flush_then_restart}
use chat_app_csd.Store.Batch.{fresh_rows, kept}
use chat_app_csd.Db.Replay.{replay_doubles_feed}
use chat_app_csd.Db.Reset.{reset_misses_batch}
use chat_app_csd.Db.Loss.{bad_row_loses_batch}
use chat_app_csd.Db.Shared.{replicated_batch}

abbrev one : Db
one = (save_message config (row "a" (pos 1)) fresh).1

abbrev two : Db
two = (save_message config (row "b" (pos 2)) one).1

path_two : Reach config fresh two
unfolding start save_message
path_two =
    next (next here (save (row "a" (pos 1)) (pos 1, refl, refl) (omega arith)))
      (save (row "b" (pos 2)) (pos 2, refl, refl) (omega arith))

fresh-IsDurable : IsDurable fresh
fresh-IsDurable = start-IsDurable empty_store tt

two-IsDurable : IsDurable two
two-IsDurable = Reach-IsDurable config path_two fresh-IsDurable

two_idle : two.in_flight ≡ []
unfolding start save_message
two_idle = refl

-- Two messages, a writer's round and a death of the process.
abbrev died : Db
died = start (writer_write config (writer_take two)).0.committed

died_feed : died.feed ≡ two.feed
unfolding start save_message writer_take writer_write executemany insert_or_ignore
died_feed = refl

Reach-IsDurable_example : IsDurable died
Reach-IsDurable_example =
    Reach-IsDurable config (next (next (next path_two (take_next two_idle)) write) crash)
      fresh-IsDurable

flush_then_restart_example :
    let after = writer_rounds config 1 two in
    (pending after ≡ [])
    × ((start after.committed).feed ≡ two.feed)
    × ((start after.committed).seen ≡ two.seen)
flush_then_restart_example =
    flush_then_restart config 1 two two_idle two-IsDurable
      (unfold start save_message in omega arith)

abbrev more : List Row
more = row "b" (pos 2) ∷ row "a" (pos 3) ∷ []

abbrev rows : List Row
rows = row "a" (pos 1) ∷ more

replay_doubles_feed_example :
    let once = (ingest config rows fresh).1 in
    let (result, twice) = ingest config rows once in
    (result ≡ returned 3)
    × (rows_of twice.committed.messages ≡ rows_of once.committed.messages)
    × (twice.seen ≡ once.seen)
    × (twice.feed ≡ once.feed ++ map feed_item rows)
replay_doubles_feed_example =
    replay_doubles_feed config (row "a" (pos 1)) more fresh
      (unfold bind in (refl, (refl, (refl, tt)))) refl

abbrev holding : Db
holding = record fresh { in_flight = row "a" (pos 1) ∷ bad_row ∷ row "b" (pos 2) ∷ [] }

bad_row_loses_batch_example :
    let (after, sent) = writer_write config holding in
    (after.committed ≡ holding.committed)
    × (after.in_flight ≡ [])
    × (sent ≡ [])
    × (rows_of after.working.messages
        ≡ rows_of holding.working.messages
          ++ map
              (kept engine)
              (fresh_rows (msg_ids holding.working.messages) (row "a" (pos 1) ∷ [])))
    × (after.feed ≡ holding.feed)
bad_row_loses_batch_example =
    bad_row_loses_batch config (row "a" (pos 1) ∷ []) bad_row (row "b" (pos 2) ∷ []) holding
      (unfold bind in (refl, tt)) (unfold bind in refl) refl

reset_misses_batch_example :
    let after = (writer_write config (reset_db (writer_take two))).0 in
    (rows_of after.committed.messages ≡ (writer_take two).in_flight) × (after.feed ≡ [])
reset_misses_batch_example =
    reset_misses_batch config (writer_take two) (writer_take-IsDurable two two_idle two-IsDurable)

payload_roundtrip_example :
    parse_item config.repr (pos 0) (payload config (row "a" (negsuc 4)))
    ≡ returned (some (row "a" (negsuc 4)))
payload_roundtrip_example =
    payload_roundtrip config (row "a" (negsuc 4)) (pos 0) (negsuc 4) refl refl

-- A backend that replicates to a service.
abbrev sender : Config
sender = record config { db_service_url = "http://172.17.0.11:4000" }

replicated_batch_example :
    let sent = (writer_write sender (writer_take two)).1 in
    let (result, after) = save_messages_batch config (pos 9) (items_of sent) one in
    (result ≡ returned 2)
    × (rows_of after.committed.messages
        ≡ rows_of one.working.messages
          ++ fresh_rows (msg_ids one.working.messages) (row "a" (pos 1) ∷ row "b" (pos 2) ∷ []))
replicated_batch_example =
    replicated_batch sender config (pos 9) (writer_take two) one (row "a" (pos 1))
      (row "b" (pos 2) ∷ []) refl refl (writer_take-IsDurable two two_idle two-IsDurable)
      (unfold writer_take save_message start in refl) (refl, (refl, tt))
