-- ===== src/Tests/Clusters.antt =====
-- An example with two backends that share a message, and one service.
use chat_app_csd.Prelude.{
  String, ◌≡◌, refl, true, false, ◌||◌, [], ◌∷◌, pos, contains, Distinct, arith,
}
use chat_app_csd.Tests.{config, row}
use chat_app_csd.Tests.Services.{text_engine}
use chat_app_csd.Store.{empty_store, executemany, msg_ids, insert_or_ignore}
use chat_app_csd.Value.{items_of, list}
use chat_app_csd.Db.{Config, start, save_message}
use chat_app_csd.Db.Writer.{writer_take, writer_write}
use chat_app_csd.DbService.{Table, service_batch, table_ids}
use chat_app_csd.Cluster.{
  Backend, Cluster, in_files, in_outboxes, posted_ids, Shifts, Local, save, take_next, joined,
  worked, wrote, delivered, settled, then_shift,
}
use chat_app_csd.Cluster.Sync.{replicated_union}
use chat_app_csd.Cluster.Backends.{Local-IsDurable}
use chat_app_csd.Db.Pipeline.{IsDurable}
use chat_app_csd.Db.Steps.{write-IsDurable, writer_take-IsDurable, start-IsDurable}
use chat_app_csd.Cluster.Lost.{failed_post_is_final, then_own, begun, Own}

abbrev sender : Config
sender = record config { db_service_url = "http://172.17.0.11:4000" }

abbrev new_backend : Backend
new_backend = record { db = start empty_store; outbox = [] }

abbrev with_message : Backend
with_message = record new_backend { db = (save_message sender (row "a" (pos 1)) new_backend.db).1 }

abbrev with_batch : Backend
with_batch = record with_message { db = writer_take with_message.db }

abbrev posting : Backend
posting = record {
  db = (writer_write sender with_batch.db).0;
  outbox = (writer_write sender with_batch.db).1;
}

abbrev posted : Backend
posted = record posting { outbox = [] }

abbrev no_rows : Table
no_rows = record { rows = []; seq = 0 }

saves : Local sender text_engine new_backend.db with_message.db
unfolding start
saves = save (row "a" (pos 1)) (pos 1, refl, refl) (omega arith)

message_idle : with_message.db.in_flight ≡ []
unfolding start save_message
message_idle = refl

abbrev before_delivery : Cluster
before_delivery = record { backends = posting ∷ with_message ∷ []; service = no_rows }

-- Both get the message; the first one's writer has posted it, the second one's has not.
written : Shifts sender text_engine (record { backends = []; service = no_rows }) before_delivery
written =
    let both = then_shift (then_shift settled joined) joined in
    let first = then_shift both (worked [] new_backend (new_backend ∷ []) refl saves) in
    let second = then_shift first (worked (with_message ∷ []) new_backend [] refl saves) in
    let taken =
      then_shift second
        (worked [] with_message (with_message ∷ []) refl (take_next message_idle)) in
    then_shift taken (wrote [] with_batch (with_message ∷ []) refl refl)

abbrev after_delivery : Cluster
after_delivery = record {
  backends = posted ∷ with_message ∷ [];
  service = (service_batch text_engine sender.repr (list (items_of posting.outbox)) no_rows).1;
}

replicated_union_example :
    ((k : String)
      → in_files k after_delivery.backends ≡ (
          contains (table_ids after_delivery.service.rows) k
          || in_outboxes k after_delivery.backends))
    × Distinct (table_ids after_delivery.service.rows)
replicated_union_example =
    replicated_union sender text_engine after_delivery refl
      (then_shift written (delivered [] posting (with_message ∷ []) refl))

posting-IsDurable : IsDurable posting.db
posting-IsDurable = write-IsDurable sender with_batch.db (
    writer_take-IsDurable with_message.db message_idle
      (Local-IsDurable sender text_engine saves (start-IsDurable empty_store tt)))

posting_filed : contains (msg_ids posting.db.committed.messages) "a" ≡ true
unfolding start save_message writer_take writer_write executemany insert_or_ignore
posting_filed = refl

failed_post_is_final_example :
    let again : Backend = record { db = start posted.db.committed; outbox = [] } in
    (contains (msg_ids again.db.committed.messages) "a" ≡ true)
    × (contains (posted_ids again.outbox) "a" ≡ false)
failed_post_is_final_example =
    failed_post_is_final sender text_engine "a" posting _ refl posting-IsDurable posting_filed
      (then_own begun Own.restarted)
