-- ===== src/App/Trusted/Steps.antt =====
-- Every handler of app.py, and the keys and the waiting rows.
use chat_app_csd.Prelude.{
  ℕ, ◌+◌, ◌≡◌, refl, inl, inr, Bool, true, ◌&&◌, List, [], ◌∷◌, ◌++◌, append-nil, arith, take, drop,
  take-append-drop, Bool-cases, ℤ,
}
use chat_app_csd.App.Trusted.{
  IsTrusted, SocketsPaired, ws_turn-IsTrusted, pop-SocketsPaired, pop_all-SocketsPaired,
}
use chat_app_csd.App.Signed.{AreSealed, post_message-IsGenuine}
use chat_app_csd.App.Answers.{handle_induction}
use chat_app_csd.App.Socket.{ws_leave}
use chat_app_csd.App.Runs.{
  Handled, Run, received, left, ingested, cleared, showed, flushed, started, then_next,
}
use chat_app_csd.App.Routes.{get_feed, reset_state, post_messages_batch, batch_answer}
use chat_app_csd.Db.{raised, returned, Outcome, save_message, Db, Config, reset_db}
use chat_app_csd.Db.Ingest.{save_messages_batch, parse_items, ingest, ingest_parsed}
use chat_app_csd.Db.Writer.{writer_round, writer_take, writer_write, batch_max}
use chat_app_csd.Db.Steps.{writer_take-split}
use chat_app_csd.Db.Pipeline.{pending}
use chat_app_csd.Value.{list, cons, Value}
use chat_app_csd.Store.{executemany, Row}
use chat_app_csd.App.{Packages, App, broadcast_ws, track_response_time, Draw, dead_of}
use chat_app_csd.App.Post.{
  post_message, sealed_row, store_message, Posted, Request, after_save, body_data, has_clients,
  named,
}

module _ (cfg : Config) where
  -- What waits for the file is not touched by a batch that is ingested.
  pending-ingest : (rows : List Row) (db : Db) → pending (ingest cfg rows db).1 ≡ pending db
  unfolding ingest
  pending-ingest [] db = refl
  pending-ingest (r ∷ rows) db = ground arith

  pending-ingest_parsed :
      (o : Outcome (List Row)) (db : Db) → pending (ingest_parsed cfg db o).1 ≡ pending db
  pending-ingest_parsed raised db = refl
  pending-ingest_parsed (returned rows) db = pending-ingest rows db

  -- A write empties the writer's hands, whether it succeeds or not.
  written_queue :
      (db : Db) (batch : List Row)
      → db.in_flight ≡ batch
      → let after = (writer_write cfg db).0 in (after.in_flight ≡ []) × (after.queue ≡ db.queue)
  unfolding writer_write
  written_queue db [] e = rw (e, writer_write) (e, refl)
  written_queue db (r ∷ rows) e =
      elim (Bool-cases (executemany cfg.engine (r ∷ rows) db.working).1) [
        | inl k ↦ rw (e, writer_write) (rw k (refl, refl))
        | inr k ↦ rw (e, writer_write) (rw k (refl, refl))
      ]

module _ (p : Packages) where
  AreSealed-left : (rows more : List Row) → AreSealed p (rows ++ more) → AreSealed p rows
  AreSealed-left [] more h = tt
  AreSealed-left (r ∷ rows) more h = (h.0, AreSealed-left rows more h.1)

  AreSealed-right : (rows more : List Row) → AreSealed p (rows ++ more) → AreSealed p more
  AreSealed-right [] more h = h
  AreSealed-right (r ∷ rows) more h = AreSealed-right rows more h.1

  round-AreSealed :
      (db : Db) → AreSealed p (pending db) → AreSealed p (pending (writer_round p.config db).0)
  unfolding writer_round
  round-AreSealed db h =
      let taken = writer_take db in
      let (empty, same) = written_queue p.config taken taken.in_flight refl in
      rw (empty, same)
        (rw (writer_take-split db) (
          AreSealed-right (take batch_max db.queue) (drop batch_max db.queue)
            (rw (take-append-drop batch_max db.queue) (AreSealed-right db.in_flight db.queue h))))

  client_keys-sealed_row :
      (m : Posted) (draw : Draw) (app : App p)
      → (sealed_row p m draw app).1.client_keys ≡ app.client_keys
  unfolding sealed_row
  client_keys-sealed_row m draw app = ground arith

  after_save-SocketsPaired :
      (m : Posted) (draw : Draw) (saved : Outcome Bool) (app : App p)
      → SocketsPaired p app.client_keys
      → SocketsPaired p (after_save p m draw saved app).1.client_keys
  unfolding broadcast_ws
  after_save-SocketsPaired m draw raised app h = h
  after_save-SocketsPaired m draw (returned inserted) app h =
      elim (Bool-cases (inserted && has_clients p app.clients)) [
        | inl k ↦ rw k (pop_all-SocketsPaired p (dead_of draw.dead app.clients) app.client_keys h)
        | inr k ↦ rw k h
      ]

  store-SocketsPaired :
      (m : Posted) (draw : Draw) (app : App p)
      → SocketsPaired p app.client_keys
      → SocketsPaired p (store_message p m draw app).1.client_keys
  unfolding store_message
  store-SocketsPaired m draw app h =
      let (row, chained) = sealed_row p m draw app in
      let (saved, db) = save_message p.config row chained.db in
      after_save-SocketsPaired m draw saved (record chained { db = db })
        (rw (client_keys-sealed_row m draw app) h)

  post_message-SocketsPaired :
      (request : Request) (draw : Draw) (app : App p)
      → SocketsPaired p app.client_keys
      → SocketsPaired p (post_message p request draw app).1.client_keys
  unfolding post_message track_response_time
  post_message-SocketsPaired request draw app h =
      let entered : App p = record app { active_requests = app.active_requests + 1 } in
      handle_induction p (λ (a : App p). SocketsPaired p a.client_keys) (body_data request) draw
        entered h (λ m new. store-SocketsPaired (named m draw) draw entered h)

  -- A state with another database, of which the waiting rows are sealed.
  db-IsTrusted :
      (db : Db) (app : App p)
      → AreSealed p (pending db)
      → IsTrusted p app
      → IsTrusted p (record app { db = db })
  db-IsTrusted db app rows h = record {
    genuine = record { keys = h.genuine.keys; rows = rows };
    sockets = h.sockets;
  }

  answer-IsTrusted :
      (app : App p) (o : Outcome ℕ × Db)
      → AreSealed p (pending o.1)
      → IsTrusted p app
      → IsTrusted p (batch_answer p app o).1
  answer-IsTrusted app (raised, db) rows h = db-IsTrusted db app rows h
  answer-IsTrusted app (returned n, db) rows h = db-IsTrusted db app rows h

  batch-IsTrusted :
      (now : ℤ) (body : Value) (app : App p)
      → IsTrusted p app
      → IsTrusted p (post_messages_batch p now body app).1
  unfolding post_messages_batch save_messages_batch
  batch-IsTrusted now (list (cons v vs)) app h =
      answer-IsTrusted app (save_messages_batch p.config now (cons v vs) app.db)
        (rw (pending-ingest_parsed p.config (parse_items p.config.repr now (cons v vs)) app.db)
          h.genuine.rows)
        h
  batch-IsTrusted now _ app h = h

  Handled-IsTrusted :
      {app after : App p}
      → p.fernet.accepts p.secret_key ≡ true
      → Handled p app after
      → IsTrusted p app
      → IsTrusted p after
  unfolding reset_state get_feed track_response_time ws_leave reset_db
  Handled-IsTrusted {app} accepted (Handled.posted request draw) h = record {
    genuine = post_message-IsGenuine p request draw app accepted h.genuine;
    sockets = post_message-SocketsPaired request draw app h.sockets;
  }
  Handled-IsTrusted {app} accepted (received ws username draw event) h =
      ws_turn-IsTrusted p ws username draw event app accepted h
  Handled-IsTrusted {app} accepted (left ws) h = record {
    genuine = record { keys = h.genuine.keys; rows = h.genuine.rows };
    sockets = pop-SocketsPaired p ws app.client_keys h.sockets;
  }
  Handled-IsTrusted {app} accepted (ingested now body) h = batch-IsTrusted now body app h
  Handled-IsTrusted {app} accepted cleared h = record {
    genuine = record {
      keys = tt;
      rows = rw append-nil (AreSealed-left app.db.in_flight app.db.queue h.genuine.rows);
    };
    sockets = h.sockets;
  }
  Handled-IsTrusted {app} accepted (showed elapsed) h = record {
    genuine = record { keys = h.genuine.keys; rows = h.genuine.rows };
    sockets = h.sockets;
  }
  Handled-IsTrusted {app} accepted flushed h =
      db-IsTrusted (writer_round p.config app.db).0 app (round-AreSealed app.db h.genuine.rows) h

  -- If Fernet accepts the server's key, then after any run of requests, socket events, ingested
  -- batches, resets and writer rounds, from a state in which the cached keys and those of the
  -- sockets are pairs and the waiting rows are sealed, all this holds again: whatever a request or
  -- a socket has put on the way to the file carries a signature that is accepted under the key
  -- beside it, for the user, text and time of the row, and a ciphertext that is decrypted to the
  -- text.
  pub Run-IsTrusted :
      {app after : App p}
      → p.fernet.accepts p.secret_key ≡ true
      → Run p app after
      → IsTrusted p app
      → IsTrusted p after
  Run-IsTrusted accepted started h = h
  Run-IsTrusted accepted (then_next step run) h =
      Handled-IsTrusted accepted step (Run-IsTrusted accepted run h)
