-- ===== src/App/Threads/Balance.antt =====
-- What a step of one thread of `POST /message` does to the counts of ids and of requests.
use chat_app_csd.Prelude.{
  ℕ, ◌+◌, String, ◌≡◌, refl, inl, inr, Bool, true, false, ◌&&◌, Option, [], ◌∷◌, ◌++◌, map-append,
  arith, eq_refl, contains, Bool-cases, if◌then◌else◌, ltb, length,
}
use chat_app_csd.Db.Saving.{feed_ids}
use chat_app_csd.Store.{Row, msg_ids}
use chat_app_csd.App.Post.{Posted, Request, body_data, has_clients, duplicate_body, message_event}
use chat_app_csd.App.{
  Packages, App, Draw, get_or_create_keypair, broadcast_ws, track_response_time, answer,
}
use chat_app_csd.Value.{Value, int}
use chat_app_csd.Db.{feed_item, insert_now, queue_max, message_exists, FeedItem}
use chat_app_csd.App.Threads.{
  Pc, arrived, reading, checking, keying, hashing, noting, feeding, queueing, inserting, put_row,
  sending, leaving, timing, left, advance, read_request, note_id, queued, hash_row,
}
use chat_app_csd.App.Threads.Counts.{
  occurrences-snoc, occurrences-append, contains-false, inserted_row, pending_ids, pending_times,
}
use chat_app_csd.App.Threads.Weights.{unfed, unsaved, inside, IsTimed, Found, Balance}
use chat_app_csd.App.Threads.Cases.{read_request_cases}

module _ (p : Packages) where
  -- A step that leaves the database alone and has no row in hand.
  quiet :
      (pc : Pc p) (app : App p) (pc' : Pc p) (app' : App p)
      → app'.db ≡ app.db
      → ((k : String)
          → (unfed p k pc ≡ 0) × (unfed p k pc' ≡ 0) × (unsaved p k pc ≡ 0) × (unsaved p k pc' ≡ 0))
      → app'.active_requests + inside p pc ≡ app.active_requests + inside p pc'
      → IsTimed p pc'
      → Found p pc app
      → Balance p pc app pc' app'
  quiet pc app pc' app' same none_held counted timed f = record {
    once = λ k. rw same (f.once k);
    fed = λ k. rw same (omega (arith, none_held k));
    placed = λ k. rw same (omega (arith, none_held k));
    counted = counted;
    timed = timed;
    times = rw same f.times;
    saved = rw same f.saved;
  }

  read-Balance :
      (body : Option Value) (request : Request) (draw : Draw) (app : App p)
      → Found p (reading request draw) app
      → Balance p (reading request draw) app (read_request p body draw) app
  read-Balance body request draw app f =
      read_request_cases p (λ pc. Balance p (reading request draw) app pc app) body draw
        (quiet _ app _ app refl (λ k. (refl, refl, refl, refl)) refl tt f)
        (λ message. quiet _ app _ app refl (λ k. (refl, refl, refl, refl)) refl tt f)
        (λ m. quiet _ app _ app refl (λ k. (refl, refl, refl, refl)) refl f.timed f)

  check-Balance :
      (m : Posted) (draw : Draw) (app : App p) (known : Bool)
      → Found p (checking m draw) app
      → Balance p
          (checking m draw)
          app
          (if known then leaving (answer 200 (duplicate_body m)) draw.elapsed else keying m draw)
          app
  check-Balance m draw app true f = quiet _ app _ app refl (λ k. (refl, refl, refl, refl)) refl tt f
  check-Balance m draw app false f =
      quiet _ app _ app refl (λ k. (refl, refl, refl, refl)) refl f.timed f

  note-Balance :
      (m : Posted) (draw : Draw) (r : Row) (app : App p)
      → Found p (noting m draw r) app
      → let (pc', app') = note_id p m draw r app in Balance p (noting m draw r) app pc' app'
  unfolding note_id
  note-Balance m draw r app f = elim (Bool-cases (contains app.db.seen r.msg_id)) [
    | inl known ↦ rw known (record {
      once = f.once;
      fed = λ k. refl;
      placed = λ k. refl;
      counted = refl;
      timed = tt;
      times = f.times;
      saved = f.saved;
    })
    | inr new ↦ rw new (record {
      once = λ k. occurrences-snoc k r.msg_id app.db.seen new (f.once k);
      fed = λ k. omega (arith, occurrences-append k app.db.seen (r.msg_id ∷ []));
      placed = λ k. omega (arith, occurrences-append k app.db.seen (r.msg_id ∷ []));
      counted = refl;
      timed = f.timed;
      times = f.times;
      saved = f.saved;
    })
  ]

  put-Balance :
      (m : Posted) (draw : Draw) (r : Row) (app : App p)
      → Found p (queueing m draw r) app
      → let (pc', app') = put_row p m draw r app in Balance p (queueing m draw r) app pc' app'
  unfolding put_row
  put-Balance m draw r app f = elim (Bool-cases (ltb (length app.db.queue) queue_max)) [
    | inl room ↦ rw room (record {
      once = f.once;
      fed = λ k. refl;
      placed = λ k. omega (arith, pending_ids p.config k r app.db);
      counted = refl;
      timed = tt;
      times = pending_times p.config r app.db f.timed f.times;
      saved = f.saved;
    })
    | inr full ↦ rw full (record {
      once = f.once;
      fed = λ k. refl;
      placed = λ k. refl;
      counted = refl;
      timed = f.timed;
      times = f.times;
      saved = f.saved;
    })
  ]

  insert-Balance :
      (m : Posted) (draw : Draw) (r : Row) (app : App p)
      → Found p (inserting m draw r) app
      → let (pc', app') = queued p m draw app (insert_now p.config r app.db) in
        Balance p (inserting m draw r) app pc' app'
  insert-Balance m draw r app f =
      let new =
        contains-false r.msg_id (msg_ids app.db.working.messages)
          (ground (arith, f.free r.msg_id, eq_refl r.msg_id)) in
      let q = inserted_row p.config r app.db f.timed new f.times in
      rw q.ran (record {
        once = λ k. rw q.seen (f.once k);
        fed = λ k. rw (q.seen, q.feed) refl;
        placed = λ k. rw q.seen (omega (arith, q.placed k));
        counted = refl;
        timed = tt;
        times = q.times;
        saved = q.saved;
      })

  feed-Balance :
      (m : Posted) (draw : Draw) (r : Row) (app : App p)
      → Found p (feeding m draw r) app
      → Balance p
          (feeding m draw r)
          app
          (queueing m draw r)
          (record app { db = record app.db { feed = app.db.feed ++ feed_item r ∷ [] } })
  feed-Balance m draw r app f = record {
    once = f.once;
    fed = λ k.
        rw (map-append (λ (t : FeedItem). t.id) app.db.feed (feed_item r ∷ []))
          (omega (arith, occurrences-append k (feed_ids app.db.feed) (r.msg_id ∷ [])));
    placed = λ k. refl;
    counted = refl;
    timed = f.timed;
    times = f.times;
    saved = f.saved;
  }

  pub db-keypair :
      (name : String) (seed : ℕ) (app : App p)
      → let after = (get_or_create_keypair p name seed app).1 in
        (after.db ≡ app.db) × (after.active_requests ≡ app.active_requests)
  unfolding get_or_create_keypair
  db-keypair name seed app = (ground arith, ground arith)

  pub db-sent :
      (dead : ℕ → Bool) (payload : Value) (app : App p) (b : Bool)
      → let after : App p = if b then broadcast_ws p dead payload app else app in
        (after.db ≡ app.db) × (after.active_requests ≡ app.active_requests)
  unfolding broadcast_ws
  db-sent dead payload app b = (ground arith, ground arith)

  -- The balances hold for every step of a thread.
  pub advance-Balance :
      (pc : Pc p) (app : App p)
      → Found p pc app
      → let (pc', app') = advance p pc app in Balance p pc app pc' app'
  unfolding advance
  advance-Balance (arrived request draw) app f =
      quiet _ app _ _ refl (λ k. (refl, refl, refl, refl)) (omega arith) f.timed f
  advance-Balance (reading request draw) app f = read-Balance (body_data request) request draw app f
  advance-Balance (checking m draw) app f =
      check-Balance m draw app (message_exists m.msg_id app.db) f
  advance-Balance (keying m draw) app f =
      let (db, active) = db-keypair m.client_name draw.key_seed app in
      quiet _ app _ _ db (λ k. (refl, refl, refl, refl)) (omega (arith, active)) f.timed f
  advance-Balance (hashing m draw keys) app f =
      unfold hash_row in
      quiet _ app _ _ refl (λ k. (refl, refl, refl, refl)) refl (draw.now, refl, f.timed) f
  advance-Balance (noting m draw r) app f = note-Balance m draw r app f
  advance-Balance (feeding m draw r) app f = feed-Balance m draw r app f
  advance-Balance (queueing m draw r) app f = put-Balance m draw r app f
  advance-Balance (inserting m draw r) app f = insert-Balance m draw r app f
  advance-Balance (sending m draw b) app f =
      let (db, active) =
        db-sent draw.dead (message_event m.client_name m.msg_text (int draw.now)) app
          (b && has_clients p app.clients) in
      quiet _ app _ _ db (λ k. (refl, refl, refl, refl)) (omega (arith, active)) tt f
  advance-Balance (leaving r e) app f =
      quiet _ app _ _ refl (λ k. (refl, refl, refl, refl)) (omega (arith, f.counted)) tt f
  advance-Balance (timing r e) app f =
      unfold track_response_time in quiet _ app _ _ refl (λ k. (refl, refl, refl, refl)) refl tt f
  advance-Balance (left r) app f = quiet _ app _ _ refl (λ k. (refl, refl, refl, refl)) refl tt f
