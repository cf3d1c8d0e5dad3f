-- ===== src/App/Threads.antt =====
-- `POST /message` of app.py on many threads (`threaded=True`): the handler cut at its locks. Each
-- constructor of `Pc` is a place at which another thread may run; `advance` is what a thread does
-- from there to the next place.
pub mod Alone
pub mod Ends
pub mod Cases
pub mod Counts
pub mod Weights
pub mod Balance
pub mod Balanced
pub mod Ledger
pub mod Settled
pub mod Flushed
pub mod Kept
pub mod Sealed
pub mod Order
pub mod Cleared
pub mod Joined
pub mod Acknowledged
pub mod Survived
use chat_app_csd.Prelude.{
  ℕ, zero, suc, ◌+◌, ◌-◌, ◌*◌, ◌/◌, ◌%◌, ◌^◌, ◌≤◌, ◌<◌, String, count, ◌≡◌, refl, sym, ap, ◌∙◌, ◌≢◌,
  ◌↔◌, ◌⊎◌, inl, inr, Bool, true, false, not, ◌&&◌, ◌||◌, Option, none, some, List, [], ◌∷◌, ◌++◌,
  map, append-nil, append_assoc, map-append, arith, ◌==◌, eq_iff, eq_refl, length, take, drop,
  take-append-drop, All-append, length-take, length-drop, drop_all, length-append, All, contains,
  contains-append, Distinct, Bool-cases, Option-cases, if◌then◌else◌, ltb, leb, nat_eq, ℤ, pos,
  negsuc, is_empty, str_int, int_of_text, int_of_text-str_int, is_empty-str_int, f_string, strip,
  prefix, count-prefix-le,
}
use chat_app_csd.App.Post.{
  Request, Posted, body_data, read_posted, named, error_body, duplicate_body, ok_body,
  message_event, has_clients,
}
use chat_app_csd.Db.{
  Outcome, raised, returned, Db, feed_item, add_id, insert_now, queue_max, ensure_writer_started,
  message_exists,
}
use chat_app_csd.Db.Writer.{writer_take, writer_write}
use chat_app_csd.App.{
  Packages, App, Draw, Keys, Response, answer, server_error, get_or_create_keypair, get_next_hashes,
  canonical_message, broadcast_ws, track_response_time,
}
use chat_app_csd.Store.{Row, in_int64}
use chat_app_csd.Value.{Value, int, dict}
use chat_app_csd.Signatures.{sign_message}
use chat_app_csd.CryptoUtils.{encrypt_text}

module _ (p : Packages) where
  -- In the order of the handler: before `_active_requests += 1`; before the body is read; before
  -- `message_exists`; before `get_or_create_keypair`; before `get_next_hashes`; in `save_message`
  -- before the set of ids, before the feed, before the queue and, where that was full, before the
  -- INSERT; before the broadcast; in `finally` before the count and before the time; at the end.
  pub data Pc : Type 0 where
    arrived : Request → Draw → Pc
    reading : Request → Draw → Pc
    checking : Posted → Draw → Pc
    keying : Posted → Draw → Pc
    hashing : Posted → Draw → Keys p → Pc
    noting : Posted → Draw → Row → Pc
    feeding : Posted → Draw → Row → Pc
    queueing : Posted → Draw → Row → Pc
    inserting : Posted → Draw → Row → Pc
    sending : Posted → Draw → Bool → Pc
    leaving : Response → ℕ → Pc
    timing : Response → ℕ → Pc
    left : Response → Pc

  -- The reading and the checks of the body, which touch nothing that is shared.
  abbrev pub read_request : Option Value → Draw → Pc
  read_request (some (dict d)) draw =
      let m = read_posted p.config.repr d in
      if is_empty m.client_name
      then leaving (answer 400 (error_body "client-name is required")) draw.elapsed
      else if is_empty m.msg_text
      then leaving (answer 400 (error_body "msg is required")) draw.elapsed
      else checking (named m draw) draw
  read_request _ draw = leaving server_error draw.elapsed

  -- Signing and encrypting are local, and Unicode texts can be encoded; the hashes are drawn under `_hash_chain_lock`.
  unfoldable pub hash_row : Posted → Draw → Keys p → App p → Row × App p
  unfolding sign_message canonical_message encrypt_text get_next_hashes
  hash_row m draw keys app =
      let message = canonical_message p.config.repr m.client_name m.msg_text (int draw.now) in
      let signature = sign_message p.ecdsa keys.0 draw.nonce message in
      let ciphertext = encrypt_text p.fernet p.secret_key draw.iv m.msg_text in
      let (prev, rec_hash, chained) =
        get_next_hashes p m.client_name ciphertext signature (int draw.now) app in
      (
        record {
          msg_id = m.msg_id;
          username = m.client_name;
          plaintext = m.msg_text;
          ciphertext = ciphertext;
          signature = signature;
          pubkey_jwk = keys.1;
          timestamp = int draw.now;
          prev_hash = prev;
          record_hash = rec_hash;
        },
        chained,
      )

  -- `ensure_writer_started`, whose flag nothing else reads, and the section under `_seen_lock`
  pub note_id : Posted → Draw → Row → App p → Pc × App p
  unfolding ensure_writer_started
  note_id m draw r app =
      let started = ensure_writer_started app.db in
      if contains started.seen r.msg_id
      then (sending m draw false, record app { db = started })
      else (
        feeding m draw r,
        record app { db = record started { seen = add_id r.msg_id started.seen } },
      )

  -- `put_nowait`
  pub put_row : Posted → Draw → Row → App p → Pc × App p
  put_row m draw r app =
      if ltb (length app.db.queue) queue_max
      then (
        sending m draw true,
        record app { db = record app.db { queue = app.db.queue ++ r ∷ [] } },
      )
      else (inserting m draw r, app)

  -- The end of the INSERT
  abbrev pub queued : Posted → Draw → App p → Outcome Bool × Db → Pc × App p
  queued m draw app (raised, db) = (leaving server_error draw.elapsed, record app { db = db })
  queued m draw app (returned inserted, db) = (sending m draw inserted, record app { db = db })

  unfoldable pub advance : Pc → App p → Pc × App p
  unfolding hash_row note_id put_row message_exists get_or_create_keypair broadcast_ws
      track_response_time
  advance (arrived request draw) app =
      (reading request draw, record app { active_requests = app.active_requests + 1 })
  advance (reading request draw) app = (read_request (body_data request) draw, app)
  advance (checking m draw) app = (
    if message_exists m.msg_id app.db
        then leaving (answer 200 (duplicate_body m)) draw.elapsed
        else keying m draw,
    app,
  )
  advance (keying m draw) app =
      let (keys, keyed) = get_or_create_keypair p m.client_name draw.key_seed app in
      (hashing m draw keys, keyed)
  advance (hashing m draw keys) app =
      let (r, chained) = hash_row m draw keys app in (noting m draw r, chained)
  advance (noting m draw r) app = note_id m draw r app
  advance (feeding m draw r) app = (
    queueing m draw r,
    record app { db = record app.db { feed = app.db.feed ++ feed_item r ∷ [] } },
  )
  advance (queueing m draw r) app = put_row m draw r app
  advance (inserting m draw r) app = queued m draw app (insert_now p.config r app.db)
  advance (sending m draw inserted) app = (
    leaving (answer 200 (ok_body m draw.now)) draw.elapsed,
    if inserted && has_clients p app.clients
        then broadcast_ws p draw.dead (message_event m.client_name m.msg_text (int draw.now)) app
        else app,
  )
  advance (leaving response elapsed) app =
      (timing response elapsed, record app { active_requests = app.active_requests - 1 })
  advance (timing response elapsed) app = (left response, track_response_time p elapsed app)
  advance (left response) app = (left response, app)

  -- A process with the threads of its requests, those that have ended included.
  pub record System : Type 0 where
    pub app : App p
    pub threads : List Pc

  -- Requests arrive, any thread goes on, and the writer takes a batch or writes it.
  pub data Move (s : System) : System → Type 0 where
    arrive :
        (request : Request) (draw : Draw)
        → in_int64 draw.now ≡ true
        → Move s (record s { threads = s.threads ++ arrived request draw ∷ [] })
    go_on :
        (before : List Pc) (pc : Pc) (after : List Pc)
        → s.threads ≡ before ++ pc ∷ after
        → Move s (record {
          app = (advance pc s.app).1;
          threads = before ++ (advance pc s.app).0 ∷ after;
        })
    take_next :
        s.app.db.in_flight ≡ []
        → Move s (record s { app = record s.app { db = writer_take s.app.db } })
    write : Move s (record s { app = record s.app { db = (writer_write p.config s.app.db).0 } })

  pub data Moves (s : System) : System → Type 0 where
    still : Moves s s
    then_move : {t u : System} → Moves s t → Move t u → Moves s u
