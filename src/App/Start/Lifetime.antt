-- ===== src/App/Start/Lifetime.antt =====
-- The life of a backend with its file: requests one at a time, the writer between them, resets, and
-- restarts of the process at any point.
use chat_app_csd.Prelude.{
  ℕ, ◌+◌, ◌<◌, String, ◌≡◌, refl, sym, true, List, [], ◌∷◌, ◌++◌, append-nil, append_assoc, arith,
  length, Distinct, take-append-drop,
}
use chat_app_csd.Store.{Row, Entry, Store, rows_of, in_int64, msg_ids, ids_of}
use chat_app_csd.Db.{Db, start, get_last_hash, last_record_hash, genesis, queue_max, save_message}
use chat_app_csd.Db.Writer.{writer_take, writer_write}
use chat_app_csd.Db.Pipeline.{
  IsDurable, HasIntTime, written, pending, Distinct-left, pending-Distinct,
}
use chat_app_csd.Db.Steps.{
  save-IsDurable, write-IsDurable, writer_take-IsDurable, writer_take-split, reset-IsDurable,
  crash-IsDurable, start-IsDurable,
}
use chat_app_csd.Integrity.{verify_chain}
use chat_app_csd.Integrity.Chain.{all_true, tip, Linked, verify_chain_iff}
use chat_app_csd.App.{Packages, App, Draw, track_response_time}
use chat_app_csd.App.Answers.{db-sealed_row, db-after_save, handle_induction}
use chat_app_csd.App.Chained.{IsChained, chain_rows, post_message-IsChained}
use chat_app_csd.App.Post.{
  Request, Posted, sealed_row, store_message, named, post_message, body_data,
}
use chat_app_csd.App.Routes.{get_feed, reset_state}
use chat_app_csd.App.Start.{boot}
use chat_app_csd.App.Feed.{reset_then_fresh}

tip-last_record_hash :
    (prev : String) (e : Entry) (es : List Entry)
    → tip prev (rows_of (e ∷ es)) ≡ last_record_hash (e ∷ es)
tip-last_record_hash prev e [] = refl
tip-last_record_hash prev e (f ∷ es) = tip-last_record_hash e.row.record_hash f es

get_last_hash-tip : (es : List Entry) → last_record_hash es ≡ tip genesis (rows_of es)
get_last_hash-tip [] = refl
get_last_hash-tip (e ∷ es) = sym (tip-last_record_hash genesis e es)

module _ (p : Packages) where
  pub data Lived (app : App p) : App p → Type 0 where
    posted :
        (request : Request) (draw : Draw)
        → in_int64 draw.now ≡ true
        → length app.db.queue < queue_max
        → Lived app (post_message p request draw app).1
    showed : (elapsed : ℕ) → Lived app (get_feed p elapsed app).1
    took : app.db.in_flight ≡ [] → Lived app (record app { db = writer_take app.db })
    wrote : Lived app (record app { db = (writer_write p.config app.db).0 })
    cleared : app.db.in_flight ≡ [] → Lived app (reset_state p app).1
    restarted : Lived app (boot p app.db.committed)

  pub data Life (app : App p) : App p → Type 0 where
    born : Life app app
    then_lived : {t u : App p} → Lived t u → Life app t → Life app u

  pub record IsSound (app : App p) : Type 0 where
    pub durable : IsDurable app.db
    pub chained : IsChained p app

  sealed-HasIntTime :
      (m : Posted) (draw : Draw) (app : App p)
      → in_int64 draw.now ≡ true
      → HasIntTime (sealed_row p m draw app).0
  unfolding sealed_row
  sealed-HasIntTime m draw app time = (draw.now, refl, time)

  store-IsDurable :
      (m : Posted) (draw : Draw) (app : App p)
      → in_int64 draw.now ≡ true
      → length app.db.queue < queue_max
      → IsDurable app.db
      → IsDurable (store_message p m draw app).1.db
  unfolding store_message
  store-IsDurable m draw app time room h =
      let (row, chained) = sealed_row p m draw app in
      let (saved, db) = save_message p.config row chained.db in
      rw (db-after_save p m draw saved (record chained { db = db }), db-sealed_row p m draw app)
        (save-IsDurable p.config row app.db (sealed-HasIntTime m draw app time) room h)

  post-IsDurable :
      (request : Request) (draw : Draw) (app : App p)
      → in_int64 draw.now ≡ true
      → length app.db.queue < queue_max
      → IsDurable app.db
      → IsDurable (post_message p request draw app).1.db
  unfolding post_message track_response_time
  post-IsDurable request draw app time room h =
      let entered : App p = record app { active_requests = app.active_requests + 1 } in
      handle_induction p (λ app. IsDurable app.db) (body_data request) draw entered h
        (λ m new. store-IsDurable (named m draw) draw entered time room h)

  -- The same rows, on their way to the file.
  moved-IsChained :
      (db : Db) (app : App p)
      → chain_rows db ≡ chain_rows app.db
      → IsChained p app
      → IsChained p (record app { db = db })
  moved-IsChained db app same h = record {
    verified = rw same h.verified;
    continued = rw same h.continued;
  }

  Linked-prefix :
      (prev : String) (rows more : List Row)
      → Linked p.config.repr p.sha256_hex prev (rows ++ more)
      → Linked p.config.repr p.sha256_hex prev rows
  Linked-prefix prev [] more h = tt
  Linked-prefix prev (r ∷ rows) more h = (h.0, Linked-prefix r.record_hash rows more h.1)

  -- What verifies with the rows that wait verifies without them.
  file-verified :
      (app : App p)
      → IsSound app
      → all_true (verify_chain p.config.repr p.sha256_hex (rows_of app.db.committed.messages))
        ≡ true
  file-verified app h =
      (verify_chain_iff p.config.repr p.sha256_hex (rows_of app.db.committed.messages)).1 (
        rw (← h.durable.saved) (
          Linked-prefix genesis (rows_of app.db.working.messages) (pending app.db) (
            (verify_chain_iff p.config.repr p.sha256_hex (chain_rows app.db)).0
              h.chained.verified)))

  took-chain_rows : (db : Db) → db.in_flight ≡ [] → chain_rows (writer_take db) ≡ chain_rows db
  took-chain_rows db idle = rw (writer_take-split db) (rw (take-append-drop, idle) refl)

  wrote-chain_rows :
      (db : Db) → IsDurable db → chain_rows (writer_write p.config db).0 ≡ chain_rows db
  wrote-chain_rows db h =
      let w = written p.config db h in
      rw w.wrote (rw w.rows (append_assoc (rows_of db.working.messages) db.in_flight db.queue))

  boot-IsChained :
      (s : Store)
      → all_true (verify_chain p.config.repr p.sha256_hex (rows_of s.messages)) ≡ true
      → IsChained p (boot p s)
  unfolding boot start get_last_hash
  boot-IsChained s h = record {
    verified = rw append-nil h;
    continued = rw append-nil (get_last_hash-tip s.messages);
  }

  Lived-IsSound : {app after : App p} → Lived app after → IsSound app → IsSound after
  unfolding get_feed track_response_time reset_state boot
  Lived-IsSound {app} (posted request draw time room) h = record {
    durable = post-IsDurable request draw app time room h.durable;
    chained = post_message-IsChained p request draw app (ground arith) h.chained;
  }
  Lived-IsSound {app} (showed elapsed) h = record {
    durable = h.durable;
    chained = record { verified = h.chained.verified; continued = h.chained.continued };
  }
  Lived-IsSound {app} (took idle) h = record {
    durable = writer_take-IsDurable app.db idle h.durable;
    chained = moved-IsChained (writer_take app.db) app (took-chain_rows app.db idle) h.chained;
  }
  Lived-IsSound {app} wrote h = record {
    durable = write-IsDurable p.config app.db h.durable;
    chained =
        moved-IsChained (writer_write p.config app.db).0 app (wrote-chain_rows app.db h.durable)
          h.chained;
  }
  Lived-IsSound {app} (cleared idle) h = record {
    durable = reset-IsDurable app.db idle;
    chained = (reset_then_fresh p 0 app idle).2;
  }
  Lived-IsSound {app} restarted h = record {
    durable = crash-IsDurable app.db h.durable;
    chained = boot-IsChained app.db.committed (file-verified app h);
  }

  Life-IsSound : {app after : App p} → Life app after → IsSound app → IsSound after
  Life-IsSound born h = h
  Life-IsSound (then_lived step life) h = Lived-IsSound step (Life-IsSound life h)

  -- Let a process start on a file whose messages have distinct ids and are accepted by
  -- `verify_chain`, for instance on an empty file. Whatever then happens, in any order: requests of
  -- any content in Unicode texts (a string with a lone surrogate is none), each handled as a whole, while the queue has room and the clock shows a time of 64
  -- bits, feeds, batches taken by the idle writer and written, resets while it is idle, and
  -- restarts at any point, also with messages waiting. At every moment `verify_chain` accepts the
  -- table in the file, and with it the rows that wait, the ids of the table are distinct, and a
  -- process that starts on it continues its chain.
  pub Life-verified :
      (s : Store) (after : App p)
      → Distinct (msg_ids s.messages)
      → all_true (verify_chain p.config.repr p.sha256_hex (rows_of s.messages)) ≡ true
      → Life (boot p s) after
      → (all_true (verify_chain p.config.repr p.sha256_hex (rows_of after.db.committed.messages))
          ≡ true)
        × (all_true (verify_chain p.config.repr p.sha256_hex (chain_rows after.db)) ≡ true)
        × Distinct (msg_ids after.db.committed.messages)
        × IsChained p (boot p after.db.committed)
  unfolding boot
  Life-verified s after distinct verified life =
      let h =
        Life-IsSound life
          (record { durable = start-IsDurable s distinct; chained = boot-IsChained s verified }) in
      let file = file-verified after h in
      (
        file,
        h.chained.verified,
        rw (← h.durable.saved) (
            Distinct-left (msg_ids after.db.working.messages) (ids_of (pending after.db))
              (pending-Distinct after.db h.durable)),
        boot-IsChained after.db.committed file,
      )
