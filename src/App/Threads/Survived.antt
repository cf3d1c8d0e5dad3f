-- ===== src/App/Threads/Survived.antt =====
-- From the answer of a request to the feed after a restart.
use mathlib.Core.Quot
use native.Mathlib.Nat.{ℕ_set}
use chat_app_csd.Prelude.{
  ℕ, ◌≤◌, ◌*◌, String, ◌≡◌, sym, ap, ◌∙◌, true, inl, inr, Bool-cases, some, List, [], ◌∷◌, ◌++◌,
  All-middle, contains, length, total_by,
}
use chat_app_csd.Store.{Store, msg_ids, rows_of}
use chat_app_csd.Db.{start}
use chat_app_csd.Db.Saving.{feed_ids}
use chat_app_csd.Db.Pipeline.{IsDurable, feed_ids-map, ids_of-rows_of}
use chat_app_csd.Db.Writer.{writer_write, writer_rounds, batch_max}
use chat_app_csd.App.{Packages, App, Response}
use chat_app_csd.App.Threads.{Pc, left, System, Moves}
use chat_app_csd.App.Threads.Ends.{remaining}
use chat_app_csd.App.Threads.Counts.{occurrences, occurrences-zero, contains-false}
use chat_app_csd.App.Threads.Settled.{Bag, bag, settled_bags}
use chat_app_csd.App.Threads.Flushed.{settled_flushed}
use chat_app_csd.App.Threads.Acknowledged.{acknowledged, Knows, Moves-AllKnow}

-- How often an id stands in a bag.
occurrences_in : String → Bag → ℕ
occurrences_in k = Quot.lift ℕ_set (occurrences k) (λ xs ys h. h k)

-- Bags that are equal have the same ids.
same_ids :
    (k : String) (xs ys : List String)
    → bag xs ≡ bag ys
    → contains ys k ≡ true
    → contains xs k ≡ true
unfolding occurrences_in
same_ids k xs ys same known = elim (Bool-cases (contains xs k)) [
  | inl there ↦ there
  | inr missing ↦
      let none_left : occurrences k ys ≡ 0 =
        sym (ap (occurrences_in k) same) ∙ occurrences-zero k xs missing in
      cc (contains-false k ys none_left, known)
]

-- The feed of a process that starts on a file.
feed_ids-start : (s : Store) → feed_ids (start s).feed ≡ msg_ids s.messages
unfolding start
feed_ids-start s = feed_ids-map (rows_of s.messages) ∙ ids_of-rows_of s.messages

module _ (p : Packages) where
  -- An id that an ended request has reported is known at every moment.
  pub acknowledged_known :
      (app : App p) (t : System p) (before : List (Pc p)) (r : Response) (after : List (Pc p))
      (id : String)
      → Moves p (record { app = app; threads = [] }) t
      → t.threads ≡ before ++ left r ∷ after
      → acknowledged r ≡ some id
      → contains t.app.db.seen id ≡ true
  acknowledged_known app t before r after id run e reported =
      (All-middle (Knows p t.app.db.seen) before (left r) after
          (rw e at (Moves-AllKnow p run tt))).0
        id reported

  -- In a process that starts between two requests with a durable state, whatever requests of Unicode
  -- texts arrive (no string with a lone surrogate, which SQLite refuses), at times of 64 bits, and
  -- however their threads and the writer take turns: take a request that
  -- has been answered with status 200, as stored or as a duplicate. When no thread has a step left,
  -- the message of the id that the answer reports is in the feed. When the writer then finishes its
  -- batch and makes a round for every 200 rows of the queue, it is in the committed table, and the
  -- feed of a process that is started on the file has it.
  pub acknowledged_survives :
      (app : App p) (t : System p) (n : ℕ) (before : List (Pc p)) (r : Response)
      (after : List (Pc p)) (id : String)
      → IsDurable app.db
      → app.active_requests ≡ 0
      → Moves p (record { app = app; threads = [] }) t
      → total_by (remaining p) t.threads ≡ 0
      → length t.app.db.queue ≤ batch_max * n
      → t.threads ≡ before ++ left r ∷ after
      → acknowledged r ≡ some id
      → let db = writer_rounds p.config n (writer_write p.config t.app.db).0 in
        (contains (feed_ids t.app.db.feed) id ≡ true)
        × (contains (msg_ids db.committed.messages) id ≡ true)
        × (contains (feed_ids (start db.committed).feed) id ≡ true)
  acknowledged_survives app t n before r after id durable idle run ended short e reported =
      let db = writer_rounds p.config n (writer_write p.config t.app.db).0 in
      let known = acknowledged_known app t before r after id run e reported in
      let shown =
        same_ids id (feed_ids t.app.db.feed) t.app.db.seen
          (settled_bags p app t durable idle run ended).0 known in
      let stored =
        same_ids id (msg_ids db.committed.messages) (feed_ids t.app.db.feed)
          (settled_flushed p app t n durable idle run ended short).2 shown in
      (shown, stored, rw (feed_ids-start db.committed) stored)
