-- ===== src/App/Threads/Order.antt =====
-- Two requests whose threads draw their hashes in one order and queue their rows in the other: the
-- hashes are drawn under `_hash_chain_lock`, but a row is saved after the lock is released.
use chat_app_csd.Prelude.{
  ℕ, zero, suc, ◌+◌, ◌<◌, String, ◌≡◌, refl, ◌≢◌, true, false, List, [], ◌∷◌, ◌++◌, append_assoc,
  arith, eq_iff, length, length-append, contains, contains-append, ltb,
}
use chat_app_csd.Integrity.{verify_chain, hash_after}
use chat_app_csd.Integrity.Chain.{all_true}
use chat_app_csd.App.Forks.{broken_link}
use chat_app_csd.Store.{Row}
use chat_app_csd.Db.{feed_item, queue_max, add_id, ensure_writer_started}
use chat_app_csd.App.{Packages, App, Draw, Keys}
use chat_app_csd.App.Post.{Posted}
use chat_app_csd.App.Threads.{
  Pc, hashing, noting, sending, advance, hash_row, note_id, put_row, System, Moves, go_on,
  then_move, still,
}
use chat_app_csd.App.Threads.Alone.{steps}

module _ (p : Packages) where
  -- The first or the second of two threads goes on.
  pub run_first :
      (n : ℕ) (s : System p) (pc other : Pc p) (app : App p)
      → Moves p s (record { app = app; threads = pc ∷ other ∷ [] })
      → let (pc', app') = steps p n (pc, app) in
        Moves p s (record { app = app'; threads = pc' ∷ other ∷ [] })
  unfolding steps
  run_first zero s pc other app run = run
  run_first (suc n) s pc other app run =
      let (pc', app') = advance p pc app in
      run_first n s pc' other app' (then_move run (go_on [] pc (other ∷ []) refl))

  pub run_second :
      (n : ℕ) (s : System p) (other pc : Pc p) (app : App p)
      → Moves p s (record { app = app; threads = other ∷ pc ∷ [] })
      → let (pc', app') = steps p n (pc, app) in
        Moves p s (record { app = app'; threads = other ∷ pc' ∷ [] })
  unfolding steps
  run_second zero s other pc app run = run
  run_second (suc n) s other pc app run =
      let (pc', app') = advance p pc app in
      run_second n s other pc' app' (then_move run (go_on (other ∷ []) pc [] refl))

  -- The state once a new row is in the caches and in the queue.
  abbrev saved : Row → App p → App p
  saved r app = record app {
    db = record (ensure_writer_started app.db) {
      seen = add_id r.msg_id app.db.seen;
      feed = app.db.feed ++ feed_item r ∷ [];
      queue = app.db.queue ++ r ∷ [];
    };
  }

  saves :
      (m : Posted) (draw : Draw) (r : Row) (app : App p)
      → contains app.db.seen r.msg_id ≡ false
      → ltb (length app.db.queue) queue_max ≡ true
      → steps p 3 (noting m draw r, app) ≡ (sending m draw true, saved r app)
  unfolding steps advance note_id put_row
  saves m draw r app new room = rw (new, room) refl

  still_new :
      (k j : String) (seen : List String)
      → contains seen k ≡ false
      → j ≢ k
      → contains (seen ++ j ∷ []) k ≡ false
  still_new k j seen new apart =
      ground (arith, contains-append seen (j ∷ []) k, new, apart, eq_iff j k)

  -- The hashes are drawn by the first thread, then by the second; the second saves before the first.
  crossed :
      (m m' : Posted) (draw draw' : Draw) (keys keys' : Keys p) (app : App p)
      → let (row, app1) = hash_row p m draw keys app in
        let (row', app2) = hash_row p m' draw' keys' app1 in
        Moves p
          (record { app = app; threads = hashing m draw keys ∷ hashing m' draw' keys' ∷ [] })
          (record {
            app = (steps p 3 (noting m draw row, (steps p 3 (noting m' draw' row', app2)).1)).1;
            threads =
                (steps p 3 (noting m draw row, (steps p 3 (noting m' draw' row', app2)).1)).0
                ∷ (steps p 3 (noting m' draw' row', app2)).0
                ∷ [];
          })
  unfolding steps advance
  crossed m m' draw draw' keys keys' app =
      let (row, app1) = hash_row p m draw keys app in
      let (row', app2) = hash_row p m' draw' keys' app1 in
      let (pc', app3) = steps p 3 (noting m' draw' row', app2) in
      let first = run_first 1 _ (hashing m draw keys) (hashing m' draw' keys') app still in
      let second = run_second 4 _ (noting m draw row) (hashing m' draw' keys') app1 first in
      run_first 3 _ (noting m draw row) pc' app3 second

  -- When two requests with different new ids are about to draw their hashes, and the queue has room
  -- for both rows, then the locks let the threads run so that both rows are queued, and the
  -- requests go on to their answers, but the row whose hash was drawn last stands before the other,
  -- and is linked behind it. Unless the digest of the other row behind it is the one that was
  -- drawn, `verify_chain` then accepts no table in which the two follow each other in that order,
  -- wherever they stand in it, although nobody has edited it.
  pub crossed_requests :
      (m m' : Posted) (draw draw' : Draw) (keys keys' : Keys p) (app : App p)
      (before after : List Row)
      → contains app.db.seen m.msg_id ≡ false
      → contains app.db.seen m'.msg_id ≡ false
      → m'.msg_id ≢ m.msg_id
      → length app.db.queue + 1 < queue_max
      → let (row, app1) = hash_row p m draw keys app in
        let row' = (hash_row p m' draw' keys' app1).0 in
        hash_after p.config.repr p.sha256_hex row'.record_hash row ≢ row.record_hash
        → ((t : System p) × Moves p
              (record { app = app; threads = hashing m draw keys ∷ hashing m' draw' keys' ∷ [] })
              t
            × (t.threads ≡ sending m draw true ∷ sending m' draw' true ∷ [])
            × (t.app.db.queue ≡ app.db.queue ++ row' ∷ row ∷ []))
          × (row'.prev_hash ≡ row.record_hash)
          × (all_true (verify_chain p.config.repr p.sha256_hex (before ++ row' ∷ row ∷ after))
              ≡ false)
  unfolding hash_row
  crossed_requests m m' draw draw' keys keys' app before after new new' apart room broken =
      let (row, app1) = hash_row p m draw keys app in
      let (row', app2) = hash_row p m' draw' keys' app1 in
      let later : steps p 3 (noting m' draw' row', app2)
          ≡ (sending m' draw' true, saved row' app2) =
        saves m' draw' row' app2 new' (ground (arith, room)) in
      let earlier : steps p 3 (noting m draw row, saved row' app2)
          ≡ (sending m draw true, saved row (saved row' app2)) =
        saves m draw row (saved row' app2)
          (rw new' (still_new m.msg_id m'.msg_id app.db.seen new apart))
          (ground (arith, room, length-append app.db.queue (row' ∷ []))) in
      (
        (
          _,
          rw earlier at (rw later at (crossed m m' draw draw' keys keys' app)),
          refl,
          append_assoc app.db.queue (row' ∷ []) (row ∷ []),
        ),
        refl,
        broken_link p before row' row after broken,
      )
