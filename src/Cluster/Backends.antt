-- ===== src/Cluster/Backends.antt =====
-- What one backend of a cluster does to its state, its file and its outbox.
use chat_app_csd.Prelude.{
  String, ◌≡◌, refl, sym, ap, ◌∙◌, true, inl, inr, Bool-cases, List, [], ◌∷◌, ◌++◌, map, map-append,
  contains,
}
use chat_app_csd.Store.{Row, ids_of, msg_ids, rows_of, Store, upsert_user}
use chat_app_csd.Db.{Config, Db, upsert_user_pubkey, message_exists}
use chat_app_csd.Db.Pipeline.{IsDurable, written, ids_of-rows_of, All-left}
use chat_app_csd.Db.Shared.{posted_batch}
use chat_app_csd.Db.Steps.{
  save-IsDurable, user-IsDurable, write-IsDurable, writer_take-IsDurable, writer_take-split,
  save_new,
}
use chat_app_csd.Db.Writer.{payload, writer_write, replicates}
use chat_app_csd.DbService.{TextEngine}
use chat_app_csd.Cluster.{Backend, posted_ids, Local, save, user, take_next}
use chat_app_csd.Cluster.Delivery.{posted_ids-payload}
use chat_app_csd.Db.Saving.{save_message_lem}

module _ (cfg : Config) (engine : TextEngine) where
  -- A backend with a durable state, whose outbox is what the writer makes of rows.
  pub record IsReady (b : Backend) : Type 0 where
    pub durable : IsDurable b.db
    pub rows : List Row
    pub made : b.outbox ≡ map (payload cfg) rows

  pub Local-IsDurable : {db after : Db} → Local cfg engine db after → IsDurable db → IsDurable after
  Local-IsDurable {db} (save r time room) h = save-IsDurable cfg r db time room h
  Local-IsDurable {db} (user name key) h = user-IsDurable name key db h
  Local-IsDurable {db} (take_next idle) h = writer_take-IsDurable db idle h

  -- The messages of the file stay.
  pub Local-file :
      {db after : Db}
      → Local cfg engine db after
      → IsDurable db
      → after.committed.messages ≡ db.committed.messages
  unfolding upsert_user_pubkey upsert_user
  Local-file {db} (save r time room) h = elim (Bool-cases (contains db.seen r.msg_id)) [
    | inl k ↦ rw ((save_message_lem cfg r db).0 (unfold message_exists in k)) refl
    | inr k ↦ rw (save_new cfg r db k room) refl
  ]
  Local-file {db} (user name key) h = ap (λ (s : Store). s.messages) h.saved
  Local-file {db} (take_next idle) h = rw (writer_take-split db) refl

  -- What a write does to one backend with an empty outbox.
  pub record Committed (b : Backend) : Type 0 where
    pub ready :
        IsReady (record { db = (writer_write cfg b.db).0; outbox = (writer_write cfg b.db).1 })
    pub filed :
        msg_ids (writer_write cfg b.db).0.committed.messages
        ≡ msg_ids b.db.committed.messages ++ ids_of b.db.in_flight
    pub sent : posted_ids (writer_write cfg b.db).1 ≡ ids_of b.db.in_flight

  payload-in_flight :
      (db : Db) (batch : List Row)
      → replicates cfg ≡ true
      → IsDurable db
      → db.in_flight ≡ batch
      → (writer_write cfg db).1 ≡ map (payload cfg) batch
  unfolding writer_write
  payload-in_flight db [] on h e = rw (e, writer_write) refl
  payload-in_flight db (r ∷ rows) on h e =
      posted_batch cfg db r rows e (rw e at (All-left db.in_flight db.queue h.times)) on

  pub write-Committed : (b : Backend) → replicates cfg ≡ true → IsDurable b.db → Committed b
  write-Committed b on h =
      let w = written cfg b.db h in
      let made = payload-in_flight b.db b.db.in_flight on h refl in
      record {
        ready = record { durable = write-IsDurable cfg b.db h; rows = b.db.in_flight; made = made };
        filed = rw w.wrote (
            sym (ids_of-rows_of w.store.messages)
            ∙ ap ids_of w.rows
            ∙ map-append _ (rows_of b.db.working.messages) b.db.in_flight
            ∙ ap (λ (l : List String). l ++ ids_of b.db.in_flight)
                (ids_of-rows_of b.db.working.messages
                  ∙ ap (λ (s : Store). msg_ids s.messages) h.saved));
        sent = ap posted_ids made ∙ posted_ids-payload cfg b.db.in_flight;
      }
