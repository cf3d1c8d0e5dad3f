-- ===== src/App/Threads/Settled.antt =====
-- What a process with many requests looks like at any moment, and when all its requests have ended:
-- the caches, the file and what waits for it as bags of ids, which forget the order.
use chat_app_csd.Prelude.{
  ◌≤◌, String, ◌≡◌, List, [], ◌++◌, arith, length, total_by, total_by-le, total_by-le-length,
}
use mathlib.Core.Quot
use mathlib.Core.Quot.{Quot}
use chat_app_csd.Db.Saving.{feed_ids}
use chat_app_csd.Db.Pipeline.{pending, IsDurable}
use chat_app_csd.Store.{ids_of, msg_ids}
use chat_app_csd.App.{Packages, App}
use chat_app_csd.App.Threads.{Pc, System, Moves}
use chat_app_csd.App.Threads.Ends.{remaining}
use chat_app_csd.App.Threads.Counts.{occurrences, occurrences-append}
use chat_app_csd.App.Threads.Weights.{unfed, unsaved, inside}
use chat_app_csd.App.Threads.Ledger.{Moves-IsBalanced, IsDurable-IsBalanced}

-- Two lists hold the same texts, as often.
abbrev SameItems : List String → List String → Type 0
SameItems xs ys = (k : String) → occurrences k xs ≡ occurrences k ys

abbrev pub Bag : Type 0
Bag = Quot SameItems

abbrev pub bag : List String → Bag
bag xs = Quot.mk xs

module _ (p : Packages) where
  inside-le : (pc : Pc p) → inside p pc ≤ 1
  inside-le pc = ground arith

  inside-le-remaining : (pc : Pc p) → inside p pc ≤ remaining p pc
  inside-le-remaining pc = ground arith

  pub unfed-le-remaining : (k : String) (pc : Pc p) → unfed p k pc ≤ remaining p pc
  unfed-le-remaining k pc = ground arith

  pub unsaved-le-remaining : (k : String) (pc : Pc p) → unsaved p k pc ≤ remaining p pc
  unsaved-le-remaining k pc = ground arith

  -- In a process that starts between two requests with a durable state, whatever requests arrive,
  -- at times of 64 bits, and however their threads and the writer take turns: at every moment no id
  -- stands twice in the feed, nor twice in the file, the batch and the queue together, and
  -- `_active_requests` is the number of the threads between its increment and its decrement, which
  -- is at most the number of requests.
  pub threads_bounded :
      (app : App p) (t : System p)
      → IsDurable app.db
      → app.active_requests ≡ 0
      → Moves p (record { app = app; threads = [] }) t
      → ((k : String) → occurrences k (feed_ids t.app.db.feed) ≤ 1)
        × ((k : String)
            → occurrences k (msg_ids t.app.db.working.messages ++ ids_of (pending t.app.db)) ≤ 1)
        × (t.app.active_requests ≡ total_by (inside p) t.threads)
        × (t.app.active_requests ≤ length t.threads)
  threads_bounded app t durable idle run =
      let h = Moves-IsBalanced p run (IsDurable-IsBalanced p app durable idle) in
      (
        λ k. omega (arith, h.once k, h.fed k),
        λ k. omega (
          arith,
          h.once k,
          h.placed k,
          occurrences-append k (msg_ids t.app.db.working.messages) (ids_of (pending t.app.db)),
        ),
        h.counted,
        omega (arith, h.counted, total_by-le-length (inside p) t.threads inside-le),
      )

  -- In a process that starts between two requests with a durable state, whatever requests of Unicode
  -- texts arrive (no string with a lone surrogate, which SQLite refuses), at times of 64 bits, and
  -- however their threads and the writer take turns: when no thread has a
  -- step left, then the feed has the ids of the set of known ids, and so have the file, the batch
  -- and the queue together, each as often as the set; only the order may differ. `_active_requests`
  -- is 0 again.
  pub settled_bags :
      (app : App p) (t : System p)
      → IsDurable app.db
      → app.active_requests ≡ 0
      → Moves p (record { app = app; threads = [] }) t
      → total_by (remaining p) t.threads ≡ 0
      → (bag (feed_ids t.app.db.feed) ≡ bag t.app.db.seen)
        × (bag (msg_ids t.app.db.working.messages ++ ids_of (pending t.app.db)) ≡ bag t.app.db.seen)
        × (t.app.active_requests ≡ 0)
  settled_bags app t durable idle run ended =
      let h = Moves-IsBalanced p run (IsDurable-IsBalanced p app durable idle) in
      (
        Quot.sound (λ k. omega (
          arith,
          ended,
          h.fed k,
          total_by-le (unfed p k) (remaining p) t.threads (unfed-le-remaining k),
        )),
        Quot.sound (λ k. omega (
          arith,
          ended,
          h.placed k,
          total_by-le (unsaved p k) (remaining p) t.threads (unsaved-le-remaining k),
          occurrences-append k (msg_ids t.app.db.working.messages) (ids_of (pending t.app.db)),
        )),
        omega (
          arith,
          ended,
          h.counted,
          total_by-le (inside p) (remaining p) t.threads inside-le-remaining,
        ),
      )
