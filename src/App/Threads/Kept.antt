-- ===== src/App/Threads/Kept.antt =====
-- What a thread of `POST /message` holds while it is on its way, and what its steps do to it.
use chat_app_csd.Prelude.{
  ℕ, ◌≡◌, inl, inr, Bool, true, ◌&&◌, Option, arith, All, contains, Bool-cases, if◌then◌else◌, ltb,
  length,
}
use chat_app_csd.App.Signed.{IsPair, ArePairs, IsSealed, cache-ArePairs, signed-IsPair}
use chat_app_csd.CryptoUtils.{decrypt_text, encrypt_text}
use chat_app_csd.Store.{Row}
use chat_app_csd.Db.{Db, insert_now, queue_max, Outcome, raised, returned, message_exists}
use chat_app_csd.Value.{Value, int}
use chat_app_csd.App.Post.{Posted, body_data, has_clients, message_event}
use chat_app_csd.App.{
  Packages, App, Draw, Keys, canonical_message, broadcast_ws, track_response_time,
}
use chat_app_csd.App.Threads.{
  Pc, arrived, reading, checking, keying, hashing, noting, feeding, queueing, inserting, put_row,
  sending, leaving, timing, left, advance, read_request, hash_row, note_id, queued,
}
use chat_app_csd.App.Threads.Weights.{IsTimed}
use chat_app_csd.App.Threads.Balance.{db-keypair, db-sent}
use chat_app_csd.Db.Stored.{stored, queue-All, insert_now-All}
use chat_app_csd.App.Threads.Cases.{read_request_cases}

module _ (p : Packages) where
  -- What a thread holds: a pair of keys, or a row that is signed and encrypted.
  abbrev pub Holds : Pc p → Type 0
  Holds (hashing m draw keys) = IsPair p keys
  Holds (noting m draw r) = IsSealed p r
  Holds (feeding m draw r) = IsSealed p r
  Holds (queueing m draw r) = IsSealed p r
  Holds (inserting m draw r) = IsSealed p r
  Holds _ = Unit

  pub record Kept (pc : Pc p) (app : App p) : Type 0 where
    pub pairs : ArePairs p app.keypair_cache
    pub holds : Holds pc
    pub rows : All (IsSealed p) (stored app.db)

  read_request-Holds : (body : Option Value) (draw : Draw) → Holds (read_request p body draw)
  read_request-Holds body draw = read_request_cases p Holds body draw tt (λ message. tt) (λ m. tt)

  hash_row-IsSealed :
      (m : Posted) (draw : Draw) (keys : Keys p) (app : App p)
      → p.fernet.accepts p.secret_key ≡ true
      → IsPair p keys
      → IsSealed p (hash_row p m draw keys app).0
  unfolding hash_row
  hash_row-IsSealed m draw keys app accepted pair = record {
    signed =
        signed-IsPair p keys draw.nonce
          (canonical_message p.config.repr m.client_name m.msg_text (int draw.now)) pair;
    encrypted =
        unfold decrypt_text encrypt_text in
        p.fernet.decrypt-encrypt p.secret_key draw.iv m.msg_text accepted;
  }

  note_id-Kept :
      (m : Posted) (draw : Draw) (r : Row) (app : App p)
      → Kept (noting m draw r) app
      → let (pc', app') = note_id p m draw r app in Kept pc' app'
  unfolding note_id
  note_id-Kept m draw r app h = elim (Bool-cases (contains app.db.seen r.msg_id)) [
    | inl known ↦ rw known (record { pairs = h.pairs; holds = tt; rows = h.rows })
    | inr new ↦ rw new (record { pairs = h.pairs; holds = h.holds; rows = h.rows })
  ]

  put_row-Kept :
      (m : Posted) (draw : Draw) (r : Row) (app : App p)
      → Kept (queueing m draw r) app
      → let (pc', app') = put_row p m draw r app in Kept pc' app'
  unfolding put_row
  put_row-Kept m draw r app h = elim (Bool-cases (ltb (length app.db.queue) queue_max)) [
    | inl room ↦ rw room (record {
      pairs = h.pairs;
      holds = tt;
      rows = queue-All p.config (IsSealed p) r app.db h.holds h.rows;
    })
    | inr full ↦ rw full (record { pairs = h.pairs; holds = h.holds; rows = h.rows })
  ]

  queued-Kept :
      (m : Posted) (draw : Draw) (app : App p) (o : Outcome Bool × Db)
      → ArePairs p app.keypair_cache
      → All (IsSealed p) (stored o.1)
      → let (pc', app') = queued p m draw app o in Kept pc' app'
  queued-Kept m draw app (raised, db) pairs rows = record { pairs = pairs; holds = tt; rows = rows }
  queued-Kept m draw app (returned b, db) pairs rows = record {
    pairs = pairs;
    holds = tt;
    rows = rows;
  }

  keys-sent :
      (dead : ℕ → Bool) (payload : Value) (app : App p) (b : Bool)
      → let after : App p = if b then broadcast_ws p dead payload app else app in
        after.keypair_cache ≡ app.keypair_cache
  unfolding broadcast_ws
  keys-sent dead payload app b = ground arith

  pub advance-Kept :
      (pc : Pc p) (app : App p)
      → p.fernet.accepts p.secret_key ≡ true
      → IsTimed p pc
      → Kept pc app
      → let (pc', app') = advance p pc app in Kept pc' app'
  unfolding advance
  advance-Kept (arrived request draw) app accepted time h = record {
    pairs = h.pairs;
    holds = tt;
    rows = h.rows;
  }
  advance-Kept (reading request draw) app accepted time h = record {
    pairs = h.pairs;
    holds = read_request-Holds (body_data request) draw;
    rows = h.rows;
  }
  advance-Kept (checking m draw) app accepted time h =
      elim (Bool-cases (message_exists m.msg_id app.db)) [
        | inl known ↦ rw known (record { pairs = h.pairs; holds = tt; rows = h.rows })
        | inr new ↦ rw new (record { pairs = h.pairs; holds = tt; rows = h.rows })
      ]
  advance-Kept (keying m draw) app accepted time h =
      let (pair, pairs) = cache-ArePairs p m.client_name draw.key_seed app h.pairs in
      record {
        pairs = pairs;
        holds = pair;
        rows = rw ((db-keypair p m.client_name draw.key_seed app).0) h.rows;
      }
  advance-Kept (hashing m draw keys) app accepted time h = record {
    pairs = unfold hash_row in h.pairs;
    holds = hash_row-IsSealed m draw keys app accepted h.holds;
    rows = unfold hash_row in h.rows;
  }
  advance-Kept (noting m draw r) app accepted time h = note_id-Kept m draw r app h
  advance-Kept (feeding m draw r) app accepted time h = record {
    pairs = h.pairs;
    holds = h.holds;
    rows = h.rows;
  }
  advance-Kept (queueing m draw r) app accepted time h = put_row-Kept m draw r app h
  advance-Kept (inserting m draw r) app accepted time h =
      queued-Kept m draw app (insert_now p.config r app.db) h.pairs
        (insert_now-All p.config (IsSealed p) r app.db time h.holds h.rows)
  advance-Kept (sending m draw b) app accepted time h =
      let payload = message_event m.client_name m.msg_text (int draw.now) in
      let live = b && has_clients p app.clients in
      record {
        pairs = rw (keys-sent draw.dead payload app live) h.pairs;
        holds = tt;
        rows = rw ((db-sent p draw.dead payload app live).0) h.rows;
      }
  advance-Kept (leaving r e) app accepted time h = record {
    pairs = h.pairs;
    holds = tt;
    rows = h.rows;
  }
  advance-Kept (timing r e) app accepted time h =
      unfold track_response_time in record { pairs = h.pairs; holds = tt; rows = h.rows }
  advance-Kept (left r) app accepted time h = h
