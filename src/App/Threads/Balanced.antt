-- ===== src/App/Threads/Balanced.antt =====
-- The state that the threads of `POST /message` and the writer keep, and what a thread's step does
-- to it.
use chat_app_csd.Prelude.{
  ◌+◌, ◌≤◌, String, ◌≡◌, ap, true, List, [], ◌∷◌, ◌++◌, arith, All-append, All, total_by,
  total_by-append, All-middle, total_by-replace,
}
use chat_app_csd.Db.Saving.{feed_ids}
use chat_app_csd.Db.Pipeline.{HasIntTime, pending}
use chat_app_csd.Store.{in_int64}
use chat_app_csd.App.Post.{Request}
use chat_app_csd.App.{Packages, App, Draw}
use chat_app_csd.App.Threads.{Pc, arrived, System}
use chat_app_csd.App.Threads.Counts.{occurrences, filed}
use chat_app_csd.App.Threads.Weights.{unfed, unsaved, inside, IsTimed, Found, Balance}

module _ (p : Packages) where
  -- Of every id: the set has it once at most, and has it as often as the feed and the threads on
  -- their way to the feed together, and as often as the file, the queue, the batch and the threads
  -- on their way to the queue together. The counter is the number of the threads inside.
  pub record IsBalanced (s : System p) : Type 0 where
    pub once : (k : String) → occurrences k s.app.db.seen ≤ 1
    pub fed :
        (k : String)
        → occurrences k (feed_ids s.app.db.feed) + total_by (unfed p k) s.threads
          ≡ occurrences k s.app.db.seen
    pub placed :
        (k : String)
        → filed k s.app.db + total_by (unsaved p k) s.threads ≡ occurrences k s.app.db.seen
    pub counted : s.app.active_requests ≡ total_by (inside p) s.threads
    pub timed : All (IsTimed p) s.threads
    pub times : All HasIntTime (pending s.app.db)
    pub saved : s.app.db.working ≡ s.app.db.committed

  pub arrive-IsBalanced :
      (s : System p) (request : Request) (draw : Draw)
      → in_int64 draw.now ≡ true
      → IsBalanced s
      → IsBalanced (record s { threads = s.threads ++ arrived request draw ∷ [] })
  arrive-IsBalanced s request draw time h =
      let pc : Pc p = arrived request draw in
      record {
        once = h.once;
        fed = λ k. omega (arith, h.fed k, total_by-append (unfed p k) s.threads (pc ∷ []));
        placed = λ k. omega (arith, h.placed k, total_by-append (unsaved p k) s.threads (pc ∷ []));
        counted = omega (arith, h.counted, total_by-append (inside p) s.threads (pc ∷ []));
        timed = All-append (IsTimed p) s.threads (pc ∷ []) h.timed (time, tt);
        times = h.times;
        saved = h.saved;
      }

  pub IsBalanced-Found :
      (s : System p) (before : List (Pc p)) (pc : Pc p) (after : List (Pc p))
      → s.threads ≡ before ++ pc ∷ after
      → IsBalanced s
      → Found p pc s.app
  IsBalanced-Found s before pc after e h = record {
    once = h.once;
    free = λ k. omega (
      arith,
      h.once k,
      h.placed k,
      ap (total_by (unsaved p k)) e,
      total_by-append (unsaved p k) before (pc ∷ after),
    );
    counted = omega (
      arith,
      h.counted,
      ap (total_by (inside p)) e,
      total_by-append (inside p) before (pc ∷ after),
    );
    timed = (All-middle (IsTimed p) before pc after (rw e at h.timed)).0;
    times = h.times;
    saved = h.saved;
  }

  pub go_on-IsBalanced :
      (s : System p) (before : List (Pc p)) (pc : Pc p) (after : List (Pc p)) (pc' : Pc p)
      (app' : App p)
      → s.threads ≡ before ++ pc ∷ after
      → Balance p pc s.app pc' app'
      → IsBalanced s
      → IsBalanced (record { app = app'; threads = before ++ pc' ∷ after })
  go_on-IsBalanced s before pc after pc' app' e b h = record {
    once = b.once;
    fed = λ k. omega (
      arith,
      h.fed k,
      b.fed k,
      ap (total_by (unfed p k)) e,
      total_by-replace (unfed p k) before pc pc' after,
    );
    placed = λ k. omega (
      arith,
      h.placed k,
      b.placed k,
      ap (total_by (unsaved p k)) e,
      total_by-replace (unsaved p k) before pc pc' after,
    );
    counted = omega (
      arith,
      h.counted,
      b.counted,
      ap (total_by (inside p)) e,
      total_by-replace (inside p) before pc pc' after,
    );
    timed = (All-middle (IsTimed p) before pc after (rw e at h.timed)).1 pc' b.timed;
    times = b.times;
    saved = b.saved;
  }
