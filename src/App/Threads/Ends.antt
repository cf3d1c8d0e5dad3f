-- ===== src/App/Threads/Ends.antt =====
-- How many steps the threads of `POST /message` have left, whatever the others do.
use chat_app_csd.Prelude.{ℕ, zero, suc, ◌+◌, ◌-◌, ◌≤◌, ◌<◌, Bool, Option, none, some, arith}
use chat_app_csd.App.Post.{Posted, body_data}
use chat_app_csd.App.{Packages, App, Draw}
use chat_app_csd.Value.{dict, Value}
use chat_app_csd.Db.{Outcome, raised, returned, Db, insert_now}
use chat_app_csd.App.Threads.{
  Pc, arrived, reading, checking, keying, hashing, noting, feeding, queueing, inserting, put_row,
  sending, leaving, timing, left, advance, read_request, note_id, queued,
}
use chat_app_csd.Store.{Row}
use chat_app_csd.App.Threads.Alone.{steps}

module _ (p : Packages) where
  -- An upper bound for the steps that are left.
  abbrev pub remaining : Pc p → ℕ
  remaining (arrived request draw) = 12
  remaining (reading request draw) = 11
  remaining (checking m draw) = 10
  remaining (keying m draw) = 9
  remaining (hashing m draw keys) = 8
  remaining (noting m draw r) = 7
  remaining (feeding m draw r) = 6
  remaining (queueing m draw r) = 5
  remaining (inserting m draw r) = 4
  remaining (sending m draw inserted) = 3
  remaining (leaving response elapsed) = 2
  remaining (timing response elapsed) = 1
  remaining (left response) = 0

  read_request-remaining :
      (body : Option Value) (draw : Draw) → remaining (read_request p body draw) ≤ 10
  read_request-remaining none draw = omega arith
  read_request-remaining (some (dict d)) draw = ground arith
  read_request-remaining (some Value.null) draw = omega arith
  read_request-remaining (some _) draw = omega arith

  queued-remaining :
      (m : Posted) (draw : Draw) (app : App p) (o : Outcome Bool × Db)
      → remaining (queued p m draw app o).0 ≤ 3
  queued-remaining m draw app (raised, db) = omega arith
  queued-remaining m draw app (returned b, db) = omega arith

  note_id-remaining :
      (m : Posted) (draw : Draw) (r : Row) (app : App p) → remaining (note_id p m draw r app).0 ≤ 6
  unfolding note_id
  note_id-remaining m draw r app = ground arith

  put_row-remaining :
      (m : Posted) (draw : Draw) (r : Row) (app : App p) → remaining (put_row p m draw r app).0 ≤ 4
  unfolding put_row
  put_row-remaining m draw r app = ground arith

  pub advance-remaining :
      (pc : Pc p) (app : App p)
      → 0 < remaining pc
      → remaining (advance p pc app).0 + 1 ≤ remaining pc
  unfolding advance
  advance-remaining (arrived request draw) app h = omega arith
  advance-remaining (reading request draw) app h =
      omega (arith, read_request-remaining (body_data request) draw)
  advance-remaining (checking m draw) app h = ground arith
  advance-remaining (keying m draw) app h = omega arith
  advance-remaining (hashing m draw keys) app h = omega arith
  advance-remaining (noting m draw r) app h = omega (arith, note_id-remaining m draw r app)
  advance-remaining (feeding m draw r) app h = omega arith
  advance-remaining (queueing m draw r) app h = omega (arith, put_row-remaining m draw r app)
  advance-remaining (inserting m draw r) app h =
      omega (arith, queued-remaining m draw app (insert_now p.config r app.db))
  advance-remaining (sending m draw b) app h = omega arith
  advance-remaining (leaving r e) app h = omega arith
  advance-remaining (timing r e) app h = omega arith
  advance-remaining (left r) app h = absurd (omega arith)

  advance-remaining-le :
      (pc : Pc p) (app : App p) → remaining (advance p pc app).0 ≤ remaining pc - 1
  unfolding advance
  advance-remaining-le (left r) app = omega arith
  advance-remaining-le pc app = omega (arith, advance-remaining pc app (ground arith))

  -- A thread that has been given so many steps.
  pub steps-remaining :
      (n : ℕ) (pc : Pc p) (app : App p) → remaining (steps p n (pc, app)).0 ≤ remaining pc - n
  unfolding steps
  steps-remaining zero pc app = omega arith
  steps-remaining (suc n) pc app =
      let (pc', app') = advance p pc app in
      omega (arith, steps-remaining n pc' app', advance-remaining-le pc app)
