-- ===== src/App/Threads/Acknowledged.antt =====
-- The ids of the messages that `POST /message` has answered for, while its threads and the writer
-- take turns.
use chat_app_csd.Prelude.{
  String, ◌≡◌, refl, ap, Bool, true, ◌&&◌, inl, inr, Bool-cases, Option, Option-cases, none, some,
  List, [], ◌∷◌, ◌++◌, arith, All, All-middle, contains, contains-append, nat_eq, if◌then◌else◌,
  length, ltb, eq_refl,
}
use chat_app_csd.Value.{Value, text, dict, int, get, get_or}
use chat_app_csd.Store.{Row, insert_or_ignore}
use chat_app_csd.Db.{Db, Config, Outcome, raised, returned, insert_now, message_exists, queue_max}
use chat_app_csd.Db.Stored.{All-snoc}
use chat_app_csd.Db.Steps.{writer_write_keeps_caches, writer_take-split}
use chat_app_csd.App.{Packages, App, Draw, Response, answer, track_response_time}
use chat_app_csd.App.Post.{Posted, body_data, ok_body, duplicate_body, has_clients, message_event}
use chat_app_csd.App.Threads.{
  Pc, arrived, reading, checking, keying, hashing, noting, feeding, queueing, inserting, put_row,
  sending, leaving, timing, left, advance, read_request, note_id, queued, hash_row, System, Move,
  Moves, arrive, go_on, take_next, write, still, then_move,
}
use chat_app_csd.App.Threads.Cases.{read_request_cases}
use chat_app_csd.App.Threads.Balance.{db-keypair, db-sent}

abbrev text_of : Value → Option String
text_of (text s) = some s
text_of v = none

-- The id that an answer with status 200 reports.
unfoldable pub acknowledged : Response → Option String
unfolding get
acknowledged (answer code (dict d)) = if nat_eq code 200 then text_of (get d "msg_id") else none
acknowledged _ = none

-- The answer reports no id that is not known.
abbrev pub Answers : List String → Response → Type 0
Answers seen r = (id : String) → acknowledged r ≡ some id → contains seen id ≡ true

module _ (p : Packages) where
  -- What a thread may rely on.
  abbrev pub Knows : List String → Pc p → Type 0
  Knows seen (noting m draw r) = r.msg_id ≡ m.msg_id
  Knows seen (feeding m draw r) = contains seen m.msg_id ≡ true
  Knows seen (queueing m draw r) = contains seen m.msg_id ≡ true
  Knows seen (inserting m draw r) = contains seen m.msg_id ≡ true
  Knows seen (sending m draw b) = contains seen m.msg_id ≡ true
  Knows seen (leaving r e) = Answers seen r
  Knows seen (timing r e) = Answers seen r
  Knows seen (left r) = Answers seen r
  Knows seen _ = Unit

  -- No id is forgotten.
  abbrev Grows : List String → List String → Type 0
  Grows seen after = (id : String) → contains seen id ≡ true → contains after id ≡ true

  Knows-mono :
      (seen after : List String) (pc : Pc p) → Grows seen after → Knows seen pc → Knows after pc
  Knows-mono seen after (noting m draw r) g h = h
  Knows-mono seen after (feeding m draw r) g h = g m.msg_id h
  Knows-mono seen after (queueing m draw r) g h = g m.msg_id h
  Knows-mono seen after (inserting m draw r) g h = g m.msg_id h
  Knows-mono seen after (sending m draw b) g h = g m.msg_id h
  Knows-mono seen after (leaving r e) g h = λ id a. g id (h id a)
  Knows-mono seen after (timing r e) g h = λ id a. g id (h id a)
  Knows-mono seen after (left r) g h = λ id a. g id (h id a)
  Knows-mono seen after _ g h = tt

  ok-Answers :
      (seen : List String) (m : Posted) (draw : Draw)
      → contains seen m.msg_id ≡ true
      → Answers seen (answer 200 (ok_body m draw.now))
  unfolding acknowledged get get_or
  ok-Answers seen m draw known = λ id e. ground (arith, known)

  duplicate-Answers :
      (seen : List String) (m : Posted)
      → contains seen m.msg_id ≡ true
      → Answers seen (answer 200 (duplicate_body m))
  unfolding acknowledged get get_or
  duplicate-Answers seen m known = λ id e. ground (arith, known)

  -- What a step does: no id is forgotten, and the thread may rely on the same again.
  abbrev Stepped : App p → Pc p × App p → Type 0
  Stepped app (pc', app') = Grows app.db.seen app'.db.seen × Knows app'.db.seen pc'

  seen-insert_now : (cfg : Config) (r : Row) (db : Db) → (insert_now cfg r db).1.seen ≡ db.seen
  unfolding insert_now
  seen-insert_now cfg r db = elim (Option-cases (insert_or_ignore cfg.engine r db.working)) [
    | inl e ↦ rw (e, insert_now) refl
    | inr (s, e) ↦ rw (e, insert_now) refl
  ]

  Grows-refl : (seen after : List String) → after ≡ seen → Grows seen after
  Grows-refl seen after same = λ id known. rw same known

  read_request-Knows :
      (seen : List String) (body : Option Value) (draw : Draw)
      → Knows seen (read_request p body draw)
  unfolding acknowledged get get_or
  read_request-Knows seen body draw =
      read_request_cases p (Knows seen) body draw (λ id e. cc) (λ message id e. cc) (λ m. tt)

  note_id-Stepped :
      (m : Posted) (draw : Draw) (r : Row) (app : App p)
      → r.msg_id ≡ m.msg_id
      → Stepped app (note_id p m draw r app)
  unfolding note_id
  note_id-Stepped m draw r app same = elim (Bool-cases (contains app.db.seen r.msg_id)) [
    | inl known ↦ rw known (λ id k. k, rw same at known)
    | inr new ↦ rw new (
      λ id k. ground (arith, k, contains-append app.db.seen (r.msg_id ∷ []) id),
      ground (arith, same, eq_refl m.msg_id, contains-append app.db.seen (r.msg_id ∷ []) m.msg_id),
    )
  ]

  put_row-Stepped :
      (m : Posted) (draw : Draw) (r : Row) (app : App p)
      → contains app.db.seen m.msg_id ≡ true
      → Stepped app (put_row p m draw r app)
  unfolding put_row
  put_row-Stepped m draw r app known = elim (Bool-cases (ltb (length app.db.queue) queue_max)) [
    | inl room ↦ rw room (λ id k. k, known)
    | inr full ↦ rw full (λ id k. k, known)
  ]

  queued-Stepped :
      (m : Posted) (draw : Draw) (app : App p) (o : Outcome Bool × Db)
      → o.1.seen ≡ app.db.seen
      → contains app.db.seen m.msg_id ≡ true
      → Stepped app (queued p m draw app o)
  unfolding acknowledged
  queued-Stepped m draw app (raised, db) same known =
      (Grows-refl app.db.seen db.seen same, λ id e. cc)
  queued-Stepped m draw app (returned b, db) same known =
      (Grows-refl app.db.seen db.seen same, rw same known)

  advance-Stepped :
      (pc : Pc p) (app : App p) → Knows app.db.seen pc → Stepped app (advance p pc app)
  unfolding advance
  advance-Stepped (arrived request draw) app h = (λ id k. k, tt)
  advance-Stepped (reading request draw) app h =
      (λ id k. k, read_request-Knows app.db.seen (body_data request) draw)
  advance-Stepped (checking m draw) app h = elim (Bool-cases (message_exists m.msg_id app.db)) [
    | inl known ↦
        rw known (λ id k. k, duplicate-Answers app.db.seen m (unfold message_exists in known))
    | inr new ↦ rw new (λ id k. k, tt)
  ]
  advance-Stepped (keying m draw) app h =
      let same = ap (λ (db : Db). db.seen) (db-keypair p m.client_name draw.key_seed app).0 in
      (Grows-refl app.db.seen _ same, tt)
  advance-Stepped (hashing m draw keys) app h = unfold hash_row in (λ id k. k, refl)
  advance-Stepped (noting m draw r) app h = note_id-Stepped m draw r app h
  advance-Stepped (feeding m draw r) app h = (λ id k. k, h)
  advance-Stepped (queueing m draw r) app h = put_row-Stepped m draw r app h
  advance-Stepped (inserting m draw r) app h =
      queued-Stepped m draw app (insert_now p.config r app.db) (seen-insert_now p.config r app.db) h
  advance-Stepped (sending m draw b) app h =
      let payload = message_event m.client_name m.msg_text (int draw.now) in
      let live = b && has_clients p app.clients in
      let same = ap (λ (db : Db). db.seen) (db-sent p draw.dead payload app live).0 in
      (
        Grows-refl app.db.seen _ same,
        λ id e. Grows-refl app.db.seen _ same id (ok-Answers app.db.seen m draw h id e),
      )
  advance-Stepped (leaving r e) app h = (λ id k. k, h)
  advance-Stepped (timing r e) app h = unfold track_response_time in (λ id k. k, h)
  advance-Stepped (left r) app h = (λ id k. k, h)

  -- What every thread may rely on.
  abbrev AllKnow : System p → Type 0
  AllKnow s = All (Knows s.app.db.seen) s.threads

  All-mono :
      (seen after : List String) (pcs : List (Pc p))
      → Grows seen after
      → All (Knows seen) pcs
      → All (Knows after) pcs
  All-mono seen after [] g h = tt
  All-mono seen after (pc ∷ pcs) g h =
      (Knows-mono seen after pc g h.0, All-mono seen after pcs g h.1)

  Move-AllKnow : {s t : System p} → Move p s t → AllKnow s → AllKnow t
  Move-AllKnow {s} (arrive request draw time) h =
      All-snoc (Knows s.app.db.seen) s.threads (arrived request draw) h tt
  Move-AllKnow {s} (go_on before pc after e) h =
      let later = (advance p pc s.app).1.db.seen in
      let here = (All-middle (Knows s.app.db.seen) before pc after (rw e at h)).0 in
      let (grows, knows) = advance-Stepped pc s.app here in
      let all = All-mono s.app.db.seen later (before ++ pc ∷ after) grows (rw e at h) in
      (All-middle (Knows later) before pc after all).1 (advance p pc s.app).0 knows
  Move-AllKnow {s} (take_next e) h = rw (writer_take-split s.app.db) h
  Move-AllKnow {s} write h =
      All-mono s.app.db.seen _ s.threads
        (Grows-refl s.app.db.seen _ (writer_write_keeps_caches p.config s.app.db).1) h

  pub Moves-AllKnow : {s t : System p} → Moves p s t → AllKnow s → AllKnow t
  Moves-AllKnow still h = h
  Moves-AllKnow (then_move run m) h = Move-AllKnow m (Moves-AllKnow run h)
