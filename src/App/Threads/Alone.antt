-- ===== src/App/Threads/Alone.antt =====
-- A thread that runs with no other between its steps, against `post_message` as one step, and how
-- many steps any thread has left.
use chat_app_csd.Prelude.{
  ℕ, zero, suc, ◌+◌, ◌-◌, ◌≡◌, refl, ◌∙◌, inl, inr, Bool, true, false, Option, none, some, [], ◌∷◌,
  ◌++◌, contains, Bool-cases, is_empty, if_false, ltb, length,
}
use chat_app_csd.App.Post.{
  post_message, handle_data, accept_message, store_message, sealed_row, after_save, body_data,
  Request, Posted, named, read_posted,
}
use chat_app_csd.Db.{
  Outcome, raised, returned, Db, enqueue, ensure_writer_started, message_exists, save_message,
  feed_item, add_id, queue_max, insert_now,
}
use chat_app_csd.App.{Packages, App, Draw, Response, server_error, track_response_time}
use chat_app_csd.Value.{dict, Value, Fields}
use chat_app_csd.App.Threads.{
  Pc, arrived, checking, keying, noting, feeding, sending, leaving, left, advance, read_request,
  hash_row, note_id, queued, put_row, inserting,
}
use chat_app_csd.Store.{Row}
use chat_app_csd.Value.{Value}

module _ (p : Packages) where
  -- That many steps of one thread.
  unfoldable pub steps : ℕ → Pc p × App p → Pc p × App p
  steps zero s = s
  steps (suc n) (pc, app) = steps n (advance p pc app)

  steps-left : (n : ℕ) (r : Response) (app : App p) → steps n (left r, app) ≡ (left r, app)
  unfolding steps advance
  steps-left zero r app = refl
  steps-left (suc n) r app = steps-left n r app

  -- `finally`
  abbrev finished : ℕ → Response × App p → Pc p × App p
  finished elapsed (response, app) = (
    left response,
    track_response_time p elapsed (record app { active_requests = app.active_requests - 1 }),
  )

  from_leaving :
      (n : ℕ) (r : Response) (elapsed : ℕ) (app : App p)
      → steps (suc (suc n)) (leaving r elapsed, app) ≡ finished elapsed (r, app)
  unfolding steps advance
  from_leaving n r elapsed app = steps-left n r _

  from_queueing :
      (n : ℕ) (m : Posted) (draw : Draw) (app : App p) (o : Outcome Bool × Db)
      → steps (suc (suc (suc n))) (queued p m draw app o)
        ≡ finished draw.elapsed (after_save p m draw o.0 (record app { db = o.1 }))
  unfolding steps advance
  from_queueing n m draw app (raised, db) = from_leaving (suc n) server_error draw.elapsed _
  from_queueing n m draw app (returned b, db) = from_leaving n _ draw.elapsed _

  put_room :
      (m : Posted) (draw : Draw) (r : Row) (app : App p)
      → ltb (length app.db.queue) queue_max ≡ true
      → put_row p m draw r app ≡ queued p m draw app (enqueue p.config r app.db)
  unfolding put_row enqueue
  put_room m draw r app room = rw room refl

  put_full :
      (m : Posted) (draw : Draw) (r : Row) (app : App p)
      → ltb (length app.db.queue) queue_max ≡ false
      → put_row p m draw r app ≡ (inserting m draw r, app)
  unfolding put_row
  put_full m draw r app full = if_false _ _ full

  enqueue_full :
      (r : Row) (db : Db)
      → ltb (length db.queue) queue_max ≡ false
      → enqueue p.config r db ≡ insert_now p.config r db
  unfolding enqueue
  enqueue_full r db full = if_false _ _ full

  from_putting :
      (n : ℕ) (m : Posted) (draw : Draw) (r : Row) (app : App p)
      → let (saved, db) = enqueue p.config r app.db in
        steps (suc (suc (suc (suc n)))) (put_row p m draw r app)
        ≡ finished draw.elapsed (after_save p m draw saved (record app { db = db }))
  unfolding steps advance
  from_putting n m draw r app = elim (Bool-cases (ltb (length app.db.queue) queue_max)) [
    | inl room ↦
        rw (put_room m draw r app room)
          (from_queueing (suc n) m draw app (enqueue p.config r app.db))
    | inr full ↦
        rw (put_full m draw r app full, enqueue_full r app.db full)
          (from_queueing n m draw app (insert_now p.config r app.db))
  ]

  -- The caches after the sections for a new id.
  abbrev fed : Row → Db → Db
  fed r db = record (ensure_writer_started db) {
    seen = add_id r.msg_id db.seen;
    feed = db.feed ++ feed_item r ∷ [];
  }

  save_new :
      (r : Row) (db : Db)
      → contains db.seen r.msg_id ≡ false
      → save_message p.config r db ≡ enqueue p.config r (fed r db)
  unfolding save_message
  save_new r db new = if_false _ _ new

  save_known :
      (r : Row) (db : Db)
      → contains db.seen r.msg_id ≡ true
      → save_message p.config r db ≡ (returned false, ensure_writer_started db)
  unfolding save_message
  save_known r db known = rw known refl

  note_new :
      (m : Posted) (draw : Draw) (r : Row) (app : App p)
      → contains app.db.seen r.msg_id ≡ false
      → note_id p m draw r app ≡ (
        feeding m draw r,
        record app {
          db = record (ensure_writer_started app.db) { seen = add_id r.msg_id app.db.seen };
        },
      )
  unfolding note_id
  note_new m draw r app new = if_false _ _ new

  note_known :
      (m : Posted) (draw : Draw) (r : Row) (app : App p)
      → contains app.db.seen r.msg_id ≡ true
      → note_id p m draw r app
        ≡ (sending m draw false, record app { db = ensure_writer_started app.db })
  unfolding note_id
  note_known m draw r app known = rw known refl

  from_noting :
      (n : ℕ) (m : Posted) (draw : Draw) (r : Row) (app : App p)
      → let (saved, db) = save_message p.config r app.db in
        steps (suc (suc (suc (suc (suc (suc (suc n))))))) (noting m draw r, app)
        ≡ finished draw.elapsed (after_save p m draw saved (record app { db = db }))
  unfolding steps advance
  from_noting n m draw r app = elim (Bool-cases (contains app.db.seen r.msg_id)) [
    | inl known ↦
        rw (note_known m draw r app known, save_known r app.db known)
          (steps-left (suc (suc (suc n))) _ _)
    | inr new ↦
        rw (note_new m draw r app new, save_new r app.db new)
          (from_putting n m draw r (record app { db = fed r app.db }))
  ]

  from_keying :
      (n : ℕ) (m : Posted) (draw : Draw) (app : App p)
      → steps (suc (suc (suc (suc (suc (suc (suc (suc (suc n))))))))) (keying m draw, app)
        ≡ finished draw.elapsed (store_message p m draw app)
  unfolding steps advance store_message sealed_row hash_row
  from_keying n m draw app =
      let (row, chained) = sealed_row p m draw app in from_noting n m draw row chained

  from_checking :
      (m : Posted) (draw : Draw) (app : App p)
      → is_empty m.client_name ≡ false
      → is_empty m.msg_text ≡ false
      → steps 10 (checking (named m draw) draw, app)
        ≡ finished draw.elapsed (accept_message p m draw app)
  unfolding steps advance accept_message
  from_checking m draw app name content =
      elim (Bool-cases (message_exists (named m draw).msg_id app.db)) [
        | inl known ↦ rw (name, content, known) (from_leaving 7 _ draw.elapsed app)
        | inr new ↦ rw (name, content, new) (from_keying 0 (named m draw) draw app)
      ]

  read_valid :
      (d : Fields) (draw : Draw)
      → let m = read_posted p.config.repr d in
        is_empty m.client_name ≡ false
        → is_empty m.msg_text ≡ false
        → read_request p (some (dict d)) draw ≡ checking (named m draw) draw
  read_valid d draw name content = if_false _ _ name ∙ if_false _ _ content

  from_reading :
      (body : Option Value) (draw : Draw) (app : App p)
      → steps 10 (read_request p body draw, app)
        ≡ finished draw.elapsed (handle_data p body draw app)
  unfolding accept_message
  from_reading none draw app = from_leaving 8 server_error draw.elapsed app
  from_reading (some (dict d)) draw app =
      let m = read_posted p.config.repr d in
      elim (Bool-cases (is_empty m.client_name)) [
        | inl k ↦ rw k (from_leaving 8 _ draw.elapsed app)
        | inr k1 ↦ elim (Bool-cases (is_empty m.msg_text)) [
          | inl k ↦ rw (k1, k) (from_leaving 8 _ draw.elapsed app)
          | inr k2 ↦ rw (read_valid d draw k1 k2) (from_checking m draw app k1 k2)
        ]
      ]
  from_reading (some Value.null) draw app = from_leaving 8 server_error draw.elapsed app
  from_reading (some _) draw app = from_leaving 8 server_error draw.elapsed app

  -- A thread that is not interrupted does in twelve steps what `post_message` does in one: it ends
  -- with the same response, and leaves the same state.
  pub steps-post_message :
      (request : Request) (draw : Draw) (app : App p)
      → let (response, after) = post_message p request draw app in
        steps 12 (arrived request draw, app) ≡ (left response, after)
  unfolding steps advance post_message
  steps-post_message request draw app =
      from_reading (body_data request) draw
        (record app { active_requests = app.active_requests + 1 })
