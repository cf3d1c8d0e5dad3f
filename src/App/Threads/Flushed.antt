-- ===== src/App/Threads/Flushed.antt =====
-- The file once the requests have ended and the writer has caught up.
use chat_app_csd.Prelude.{
  ℕ, zero, suc, ◌*◌, ◌≤◌, ◌≡◌, refl, ap, ◌∙◌, List, [], ◌∷◌, arith, length, drop, length-drop,
  total_by, total_by-le,
}
use mathlib.Core.Quot
use chat_app_csd.Db.Saving.{feed_ids}
use chat_app_csd.Db.Pipeline.{pending, IsDurable, gather-split}
use chat_app_csd.Db.Writer.{writer_take, writer_write, writer_round, writer_rounds, batch_max}
use chat_app_csd.Store.{ids_of, msg_ids, Row}
use chat_app_csd.Db.{Db}
use chat_app_csd.App.{Packages, App}
use chat_app_csd.App.Threads.{System, Moves, take_next, write}
use chat_app_csd.App.Threads.Ends.{remaining}
use chat_app_csd.App.Threads.Counts.{occurrences}
use chat_app_csd.App.Threads.Weights.{unsaved, unfed}
use chat_app_csd.App.Threads.Balanced.{IsBalanced}
use chat_app_csd.App.Threads.Ledger.{
  Move-IsBalanced, Moves-IsBalanced, IsDurable-IsBalanced, Written-batch,
}
use chat_app_csd.App.Threads.Settled.{bag, unfed-le-remaining, unsaved-le-remaining}

module _ (p : Packages) where
  abbrev with_db : System p → Db → System p
  with_db t db = record t { app = record t.app { db = db } }

  -- What a write leaves: nothing in hand, and the rest of the process as it was.
  record Wrote (t : System p) : Type 0 where
    pub balanced : IsBalanced p (with_db t (writer_write p.config t.app.db).0)
    pub in_flight : (writer_write p.config t.app.db).0.in_flight ≡ []
    pub queue : (writer_write p.config t.app.db).0.queue ≡ t.app.db.queue
    pub seen : (writer_write p.config t.app.db).0.seen ≡ t.app.db.seen

  wrote : (t : System p) → IsBalanced p t → Wrote t
  wrote t h =
      let w = Written-batch p t t.app.db.in_flight refl h in
      record {
        balanced = Move-IsBalanced p write h;
        in_flight = rw w.wrote refl;
        queue = rw w.wrote refl;
        seen = rw w.wrote refl;
      }

  queue-taken : (db : Db) → (writer_take db).queue ≡ drop batch_max db.queue
  unfolding writer_take
  queue-taken db = rw (gather-split batch_max [] db.queue) refl

  seen-taken : (db : Db) → (writer_take db).seen ≡ db.seen
  unfolding writer_take
  seen-taken db = refl

  record Flushed (t : System p) (db : Db) : Type 0 where
    pub balanced : IsBalanced p (with_db t db)
    pub pending : pending db ≡ []
    pub seen : db.seen ≡ t.app.db.seen

  empty-queue : (xs : List Row) → length xs ≤ 0 → xs ≡ []
  empty-queue [] h = refl
  empty-queue (x ∷ xs) h = absurd (omega arith)

  rounds-Flushed :
      (n : ℕ) (t : System p)
      → IsBalanced p t
      → t.app.db.in_flight ≡ []
      → length t.app.db.queue ≤ batch_max * n
      → Flushed t (writer_rounds p.config n t.app.db)
  unfolding writer_rounds writer_round
  rounds-Flushed zero t h none_held short = record {
    balanced = h;
    pending = rw (none_held, empty-queue t.app.db.queue (omega (arith, short))) refl;
    seen = refl;
  }
  rounds-Flushed (suc n) t h none_held short =
      let taken = with_db t (writer_take t.app.db) in
      let w = wrote taken (Move-IsBalanced p (take_next none_held) h) in
      let rest =
        rounds-Flushed n (with_db t (writer_write p.config (writer_take t.app.db)).0) w.balanced
          w.in_flight
          (omega (
            arith,
            short,
            ap length w.queue,
            ap length (queue-taken t.app.db),
            length-drop batch_max t.app.db.queue,
          )) in
      record {
        balanced = rest.balanced;
        pending = rest.pending;
        seen = rest.seen ∙ w.seen ∙ seen-taken t.app.db;
      }

  -- In a process that starts between two requests with a durable state, whatever requests of Unicode
  -- texts arrive (no string with a lone surrogate, which SQLite refuses), at times of 64 bits, and
  -- however their threads and the writer take turns: when no thread has a
  -- step left, and the writer then finishes its batch and makes a round for every 200 rows of the
  -- queue, nothing waits any more, what it has stored is committed, and the file has the ids of the
  -- feed, each as often.
  pub settled_flushed :
      (app : App p) (t : System p) (n : ℕ)
      → IsDurable app.db
      → app.active_requests ≡ 0
      → Moves p (record { app = app; threads = [] }) t
      → total_by (remaining p) t.threads ≡ 0
      → length t.app.db.queue ≤ batch_max * n
      → let db = writer_rounds p.config n (writer_write p.config t.app.db).0 in
        (pending db ≡ [])
        × (db.working ≡ db.committed)
        × (bag (msg_ids db.committed.messages) ≡ bag (feed_ids t.app.db.feed))
  settled_flushed app t n durable idle run ended short =
      let h = Moves-IsBalanced p run (IsDurable-IsBalanced p app durable idle) in
      let w = wrote t h in
      let flushed =
        rounds-Flushed n (with_db t (writer_write p.config t.app.db).0) w.balanced w.in_flight
          (omega (arith, short, ap length w.queue)) in
      let saved = flushed.balanced.saved in
      (
        flushed.pending,
        saved,
        rw (← saved) (
            Quot.sound (λ k. omega (
              arith,
              ended,
              h.fed k,
              total_by-le (unfed p k) (remaining p) t.threads (unfed-le-remaining p k),
              flushed.balanced.placed k,
              total_by-le (unsaved p k) (remaining p) t.threads (unsaved-le-remaining p k),
              ap (λ (rows : List Row). occurrences k (ids_of rows)) flushed.pending,
              ap (occurrences k) (flushed.seen ∙ w.seen),
            ))),
      )
