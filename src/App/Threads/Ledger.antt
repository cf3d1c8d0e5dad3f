-- ===== src/App/Threads/Ledger.antt =====
-- What the writer does to the state that the threads keep, and all moves together.
use chat_app_csd.Prelude.{
  String, ◌≡◌, refl, sym, ap, ◌∙◌, List, [], ◌∷◌, ◌++◌, append-nil, map-append, arith,
  take-append-drop, All, Distinct,
}
use chat_app_csd.Db.Pipeline.{
  HasIntTime, pending, IsDurable, Runs-Written, Written, All-Fits, All-left, All-right,
  gather-split, durable-ids, ids_of-rows_of,
}
use chat_app_csd.Db.Writer.{writer_take, writer_write, batch_max}
use chat_app_csd.Store.{Row, ids_of, msg_ids, rows_of}
use chat_app_csd.Store.Batch.{runs}
use chat_app_csd.Db.{Db}
use chat_app_csd.App.{Packages, App}
use chat_app_csd.App.Threads.{
  System, Move, arrive, go_on, take_next, write, Moves, still, then_move,
}
use chat_app_csd.App.Threads.Counts.{
  occurrences, occurrences-append, occurrences-Distinct, Distinct-occurrences, filed,
}
use chat_app_csd.App.Threads.Balance.{advance-Balance}
use chat_app_csd.App.Threads.Balanced.{
  IsBalanced, arrive-IsBalanced, go_on-IsBalanced, IsBalanced-Found,
}

module _ (p : Packages) where
  pub pending-taken : (db : Db) → db.in_flight ≡ [] → pending (writer_take db) ≡ pending db
  unfolding writer_take
  pending-taken db e =
      rw (gather-split batch_max [] db.queue, e) (take-append-drop batch_max db.queue)

  take-IsBalanced :
      (s : System p)
      → s.app.db.in_flight ≡ []
      → IsBalanced p s
      → IsBalanced p (record s { app = record s.app { db = writer_take s.app.db } })
  unfolding writer_take
  take-IsBalanced s e h =
      let same = pending-taken s.app.db e in
      record {
        once = h.once;
        fed = h.fed;
        placed = λ k. rw same (h.placed k);
        counted = h.counted;
        timed = h.timed;
        times = rw same h.times;
        saved = h.saved;
      }

  -- The ids of the file and of the batch, each once.
  batch-once :
      (s : System p)
      → IsBalanced p s
      → Distinct (msg_ids s.app.db.working.messages ++ ids_of s.app.db.in_flight)
  batch-once s h =
      let db = s.app.db in
      occurrences-Distinct _ (λ k. omega (
        arith,
        h.once k,
        h.placed k,
        occurrences-append k (msg_ids db.working.messages) (ids_of db.in_flight),
        ap (occurrences k) (map-append (λ (r : Row). r.msg_id) db.in_flight db.queue),
        occurrences-append k (ids_of db.in_flight) (ids_of db.queue),
      ))

  pub Written-batch :
      (s : System p) (batch : List Row)
      → s.app.db.in_flight ≡ batch
      → IsBalanced p s
      → Written p.config s.app.db
  unfolding writer_write
  Written-batch s [] e h = record {
    store = s.app.db.working;
    wrote = rw (e, writer_write) (rw (← h.saved) (rw (← e) refl));
    rows = rw (e, append-nil);
  }
  Written-batch s (r ∷ rows) e h =
      let db = s.app.db in
      let times : All HasIntTime (r ∷ rows) = rw e at (All-left db.in_flight db.queue h.times) in
      Runs-Written p.config db r rows e times (rw e at (batch-once s h))
        (runs p.config.engine (r ∷ rows) db.working (All-Fits (r ∷ rows) times))

  filed-Written :
      (k : String) (db : Db) (w : Written p.config db)
      → filed k (record db { working = w.store; committed = w.store; in_flight = [] }) ≡ filed k db
  filed-Written k db w =
      let ids : msg_ids w.store.messages ≡ msg_ids db.working.messages ++ ids_of db.in_flight =
        sym (ids_of-rows_of w.store.messages)
        ∙ ap ids_of w.rows
        ∙ map-append (λ (r : Row). r.msg_id) (rows_of db.working.messages) db.in_flight
        ∙ ap (λ (l : List String). l ++ ids_of db.in_flight) (ids_of-rows_of db.working.messages) in
      omega (
        arith,
        ap (occurrences k) ids,
        occurrences-append k (msg_ids db.working.messages) (ids_of db.in_flight),
        ap (occurrences k) (map-append (λ (r : Row). r.msg_id) db.in_flight db.queue),
        occurrences-append k (ids_of db.in_flight) (ids_of db.queue),
      )

  write-IsBalanced :
      (s : System p)
      → IsBalanced p s
      → IsBalanced p (record s { app = record s.app { db = (writer_write p.config s.app.db).0 } })
  write-IsBalanced s h =
      let db = s.app.db in
      let w = Written-batch s db.in_flight refl h in
      rw w.wrote (record {
        once = h.once;
        fed = h.fed;
        placed = λ k. omega (arith, h.placed k, filed-Written k db w);
        counted = h.counted;
        timed = h.timed;
        times = All-right db.in_flight db.queue h.times;
        saved = refl;
      })

  pub Move-IsBalanced : {s t : System p} → Move p s t → IsBalanced p s → IsBalanced p t
  Move-IsBalanced {s} (arrive request draw time) h = arrive-IsBalanced p s request draw time h
  Move-IsBalanced {s} (go_on before pc after e) h =
      go_on-IsBalanced p s before pc after _ _ e
        (advance-Balance p pc s.app (IsBalanced-Found p s before pc after e h)) h
  Move-IsBalanced {s} (take_next e) h = take-IsBalanced s e h
  Move-IsBalanced {s} write h = write-IsBalanced s h

  pub Moves-IsBalanced : {s t : System p} → Moves p s t → IsBalanced p s → IsBalanced p t
  Moves-IsBalanced still h = h
  Moves-IsBalanced (then_move run m) h = Move-IsBalanced m (Moves-IsBalanced run h)

  -- A process between two requests.
  pub IsDurable-IsBalanced :
      (app : App p)
      → IsDurable app.db
      → app.active_requests ≡ 0
      → IsBalanced p (record { app = app; threads = [] })
  IsDurable-IsBalanced app h idle = record {
    once = λ k. Distinct-occurrences k app.db.seen h.consistent.distinct;
    fed = λ k. omega (arith, ap (occurrences k) h.consistent.ids);
    placed = λ k. omega (
      arith,
      ap (occurrences k) (durable-ids app.db h),
      occurrences-append k (msg_ids app.db.working.messages) (ids_of (pending app.db)),
    );
    counted = idle;
    timed = tt;
    times = h.times;
    saved = h.saved;
  }
