-- ===== src/App/Threads/Weights.antt =====
-- What a thread of `POST /message` counts for, and what its step finds and changes in these counts.
use chat_app_csd.Prelude.{ℕ, ◌+◌, ◌≤◌, String, ◌≡◌, true, All}
use chat_app_csd.Db.Saving.{feed_ids}
use chat_app_csd.Db.Pipeline.{HasIntTime, pending}
use chat_app_csd.Store.{msg_ids, in_int64}
use chat_app_csd.App.{Packages, App}
use chat_app_csd.App.Threads.{
  Pc, arrived, reading, checking, keying, hashing, noting, feeding, queueing, inserting, timing,
  left,
}
use chat_app_csd.App.Threads.Counts.{occurrences, of_id, filed}

module _ (p : Packages) where
  -- How often the thread holds the id between the set of ids and the feed, and between the set of
  -- ids and the queue.
  abbrev pub unfed : String → Pc p → ℕ
  unfed k (feeding m draw r) = of_id k r
  unfed k _ = 0

  abbrev pub unsaved : String → Pc p → ℕ
  unsaved k (feeding m draw r) = of_id k r
  unsaved k (queueing m draw r) = of_id k r
  unsaved k (inserting m draw r) = of_id k r
  unsaved k _ = 0

  -- Whether the thread is counted by `_active_requests`.
  abbrev pub inside : Pc p → ℕ
  inside (arrived request draw) = 0
  inside (timing response elapsed) = 0
  inside (left response) = 0
  inside _ = 1

  -- The clock of the thread is an integer of 64 bits.
  abbrev pub IsTimed : Pc p → Type 0
  IsTimed (arrived request draw) = in_int64 draw.now ≡ true
  IsTimed (reading request draw) = in_int64 draw.now ≡ true
  IsTimed (checking m draw) = in_int64 draw.now ≡ true
  IsTimed (keying m draw) = in_int64 draw.now ≡ true
  IsTimed (hashing m draw keys) = in_int64 draw.now ≡ true
  IsTimed (noting m draw r) = HasIntTime r
  IsTimed (feeding m draw r) = HasIntTime r
  IsTimed (queueing m draw r) = HasIntTime r
  IsTimed (inserting m draw r) = HasIntTime r
  IsTimed _ = Unit

  -- What the step of a thread finds.
  pub record Found (pc : Pc p) (app : App p) : Type 0 where
    pub once : (k : String) → occurrences k app.db.seen ≤ 1
    pub free : (k : String) → unsaved k pc + occurrences k (msg_ids app.db.working.messages) ≤ 1
    pub counted : inside pc ≤ app.active_requests
    pub timed : IsTimed pc
    pub times : All HasIntTime (pending app.db)
    pub saved : app.db.working ≡ app.db.committed

  -- What it changes, as balances.
  pub record Balance (pc : Pc p) (app : App p) (pc' : Pc p) (app' : App p) : Type 0 where
    pub once : (k : String) → occurrences k app'.db.seen ≤ 1
    pub fed :
        (k : String)
        → occurrences k (feed_ids app'.db.feed) + unfed k pc' + occurrences k app.db.seen
          ≡ occurrences k (feed_ids app.db.feed) + unfed k pc + occurrences k app'.db.seen
    pub placed :
        (k : String)
        → filed k app'.db + unsaved k pc' + occurrences k app.db.seen
          ≡ filed k app.db + unsaved k pc + occurrences k app'.db.seen
    pub counted : app'.active_requests + inside pc ≡ app.active_requests + inside pc'
    pub timed : IsTimed pc'
    pub times : All HasIntTime (pending app'.db)
    pub saved : app'.db.working ≡ app'.db.committed
