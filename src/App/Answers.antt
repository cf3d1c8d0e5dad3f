-- ===== src/App/Answers.antt =====
-- What `POST /message` answers, and what it leaves.
use chat_app_csd.Db.{raised, returned, Outcome, save_message, add_id, message_exists}
use chat_app_csd.Prelude.{
  inl, inr, Bool-cases, ◌+◌, String, ◌≡◌, refl, ap, ◌∙◌, Bool, true, false, Option, none, some,
  List, [], ◌∷◌, arith, eq_refl, contains, contains-append, is_empty, Bool-cases,
}
use chat_app_csd.App.Post.{
  handle_data, post_message, accept_message, store_message, sealed_row, after_save, body_data,
  Request, Posted, named, read_posted, duplicate_body,
}
use chat_app_csd.App.{Packages, Draw, App, broadcast_ws, track_response_time, track, answer}
use chat_app_csd.Value.{Value, dict, Fields}
use chat_app_csd.Db.Saving.{seen-save_message}

contains-add_id : (k : String) (s : List String) → contains (add_id k s) k ≡ true
contains-add_id k s = ground (arith, contains-append s (k ∷ []) k, eq_refl k)

module _ (p : Packages) where
  pub db-sealed_row :
      (m : Posted) (draw : Draw) (app : App p) → (sealed_row p m draw app).1.db ≡ app.db
  unfolding sealed_row
  db-sealed_row m draw app = ground arith

  pub msg_id-sealed_row :
      (m : Posted) (draw : Draw) (app : App p) → (sealed_row p m draw app).0.msg_id ≡ m.msg_id
  unfolding sealed_row
  msg_id-sealed_row m draw app = refl

  -- What the handler leaves alone on every path.
  abbrev Untouched : App p → App p → Type 0
  Untouched app after =
      (after.active_requests ≡ app.active_requests) × (after.response_times ≡ app.response_times)

  sealed-Untouched :
      (m : Posted) (draw : Draw) (app : App p) → Untouched app (sealed_row p m draw app).1
  unfolding sealed_row
  sealed-Untouched m draw app = (ground arith, ground arith)

  saved-Untouched :
      (m : Posted) (draw : Draw) (saved : Outcome Bool) (app : App p)
      → Untouched app (after_save p m draw saved app).1
  unfolding broadcast_ws
  saved-Untouched m draw raised app = (refl, refl)
  saved-Untouched m draw (returned inserted) app = (ground arith, ground arith)

  pub db-after_save :
      (m : Posted) (draw : Draw) (saved : Outcome Bool) (app : App p)
      → (after_save p m draw saved app).1.db ≡ app.db
  unfolding broadcast_ws
  db-after_save m draw raised app = refl
  db-after_save m draw (returned inserted) app = ground arith

  store-Untouched :
      (m : Posted) (draw : Draw) (app : App p) → Untouched app (store_message p m draw app).1
  unfolding store_message
  store-Untouched m draw app =
      let (row, chained) = sealed_row p m draw app in
      let (saved, db) = save_message p.config row chained.db in
      let h = sealed-Untouched m draw app in
      let k = saved-Untouched m draw saved (record chained { db = db }) in (k.0 ∙ h.0, k.1 ∙ h.1)

  -- What holds before `accept_message` and after `store_message` for a new id holds after it.
  pub accept_induction {ℓ} :
      (P : App p → Type ℓ) (m : Posted) (draw : Draw) (app : App p)
      → P app
      → (message_exists (named m draw).msg_id app.db ≡ false
          → P (store_message p (named m draw) draw app).1)
      → P (accept_message p m draw app).1
  unfolding accept_message
  accept_induction P m draw app same stored = elim (Bool-cases (is_empty m.client_name)) [
    | inl k ↦ rw k same
    | inr k1 ↦ elim (Bool-cases (is_empty m.msg_text)) [
      | inl k ↦ rw (k1, k) same
      | inr k2 ↦ elim (Bool-cases (message_exists (named m draw).msg_id app.db)) [
        | inl k ↦ rw (k1, k2, k) same
        | inr k3 ↦ rw (k1, k2, k3) (stored k3)
      ]
    ]
  ]

  -- The same for the body of the `try`, which leaves the state alone if there is no dict.
  pub handle_induction {ℓ} :
      (P : App p → Type ℓ) (body : Option Value) (draw : Draw) (app : App p)
      → P app
      → ((m : Posted)
          → message_exists (named m draw).msg_id app.db ≡ false
          → P (store_message p (named m draw) draw app).1)
      → P (handle_data p body draw app).1
  handle_induction P none draw app same stored = same
  handle_induction P (some (dict d)) draw app same stored =
      let m = read_posted p.config.repr d in accept_induction P m draw app same (stored m)
  handle_induction P (some Value.null) draw app same stored = same
  handle_induction P (some _) draw app same stored = same

  -- On every path, exceptions included, `POST /message` leaves the number of active requests as it
  -- was before, and records its own time once, behind the others.
  pub post_message_counted :
      (request : Request) (draw : Draw) (app : App p)
      → let after = (post_message p request draw app).1 in
        (after.active_requests ≡ app.active_requests)
        × (after.response_times ≡ track draw.elapsed app.response_times)
  unfolding post_message track_response_time
  post_message_counted request draw app =
      let entered : App p = record app { active_requests = app.active_requests + 1 } in
      let h =
        handle_induction (Untouched entered) (body_data request) draw entered (refl, refl)
          (λ m new. store-Untouched (named m draw) draw entered) in
      (omega (arith, h.0), ap (track draw.elapsed) h.1)

  pub seen-store :
      (m : Posted) (draw : Draw) (app : App p)
      → contains (store_message p m draw app).1.db.seen m.msg_id ≡ true
  unfolding store_message
  seen-store m draw app =
      let (row, chained) = sealed_row p m draw app in
      let (saved, db) = save_message p.config row chained.db in
      rw (db-after_save m draw saved (record chained { db = db })) (
        rw (seen-save_message p.config row chained.db, msg_id-sealed_row m draw app)
          (contains-add_id m.msg_id chained.db.seen))

  seen-accept :
      (m : Posted) (draw : Draw) (app : App p)
      → is_empty m.client_name ≡ false
      → is_empty m.msg_text ≡ false
      → is_empty m.msg_id ≡ false
      → contains (accept_message p m draw app).1.db.seen m.msg_id ≡ true
  unfolding accept_message message_exists
  seen-accept m draw app name content id = ground (arith, name, content, id, seen-store m draw app)

  accept_known :
      (m : Posted) (draw : Draw) (app : App p)
      → is_empty m.client_name ≡ false
      → is_empty m.msg_text ≡ false
      → is_empty m.msg_id ≡ false
      → contains app.db.seen m.msg_id ≡ true
      → accept_message p m draw app ≡ (answer 200 (duplicate_body m), app)
  unfolding accept_message message_exists
  accept_known m draw app name content id known = rw (name, content, id, known)

  post_known :
      (request : Request) (d : Fields) (later : Draw) (once : App p)
      → body_data request ≡ some (dict d)
      → let m = read_posted p.config.repr d in
        is_empty m.client_name ≡ false
        → is_empty m.msg_text ≡ false
        → is_empty m.msg_id ≡ false
        → contains once.db.seen m.msg_id ≡ true
        → let (response, twice) = post_message p request later once in
          (response ≡ answer 200 (duplicate_body m))
          × (twice.db ≡ once.db)
          × (twice.last_hash ≡ once.last_hash)
          × (twice.keypair_cache ≡ once.keypair_cache)
          × (twice.sent ≡ once.sent)
  unfolding post_message track_response_time
  post_known request d later once body name content id known =
      let m = read_posted p.config.repr d in
      let entered : App p = record once { active_requests = once.active_requests + 1 } in
      rw body
        (rw (accept_known m later entered name content id known) (refl, refl, refl, refl, refl))

  seen-post_message :
      (request : Request) (d : Fields) (draw : Draw) (app : App p)
      → body_data request ≡ some (dict d)
      → let m = read_posted p.config.repr d in
        is_empty m.client_name ≡ false
        → is_empty m.msg_text ≡ false
        → is_empty m.msg_id ≡ false
        → contains (post_message p request draw app).1.db.seen m.msg_id ≡ true
  unfolding post_message track_response_time
  seen-post_message request d draw app body name content id =
      let m = read_posted p.config.repr d in
      let entered : App p = record app { active_requests = app.active_requests + 1 } in
      rw body (seen-accept m draw entered name content id)

  -- A message of Unicode texts, without lone surrogates, that has been sent once, with an id, a name
  -- and a text that are not empty, is answered with "duplicate" when it is sent again, whatever the first answer was; the second
  -- request changes neither the database, nor the last hash, nor the cached keys, nor what sockets
  -- are sent.
  pub retry_is_duplicate :
      (request : Request) (d : Fields) (draw later : Draw) (app : App p)
      → body_data request ≡ some (dict d)
      → let m = read_posted p.config.repr d in
        is_empty m.client_name ≡ false
        → is_empty m.msg_text ≡ false
        → is_empty m.msg_id ≡ false
        → let once = (post_message p request draw app).1 in
          let (response, twice) = post_message p request later once in
          (response ≡ answer 200 (duplicate_body m))
          × (twice.db ≡ once.db)
          × (twice.last_hash ≡ once.last_hash)
          × (twice.keypair_cache ≡ once.keypair_cache)
          × (twice.sent ≡ once.sent)
  retry_is_duplicate request d draw later app body name content id =
      post_known request d later (post_message p request draw app).1 body name content id
        (seen-post_message request d draw app body name content id)
