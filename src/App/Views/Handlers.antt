-- ===== src/App/Views/Handlers.antt =====
-- Each handler of app.py, and the page of one socket.
use chat_app_csd.Prelude.{
  ℕ, ◌+◌, ◌<◌, ◌≡◌, refl, ◌∙◌, false, ◌&&◌, Option, none, some, nat_eq, arith, inl, inr, Bool-cases,
  Option-cases, String, length, is_empty, prefix, strip, append-nil,
}
use chat_app_csd.Value.{Value, Fields, text, dict, str, get, get_or}
use chat_app_csd.Db.{
  Db, feed_item, Outcome, raised, returned, queue_max, message_exists, upsert_user_pubkey,
}
use chat_app_csd.Db.Steps.{save_new}
use chat_app_csd.App.{
  Packages, App, Draw, Keys, find_name, find_socket, broadcast_ws, track_response_time,
}
use chat_app_csd.App.Answers.{db-sealed_row, msg_id-sealed_row, handle_induction}
use chat_app_csd.App.Post.{
  Request, Posted, sealed_row, store_message, named, post_message, body_data,
}
use chat_app_csd.App.Socket.{
  Received, message, closed, not_json, ws_turn, ws_leave, text_is, on_join, on_message, join_as,
  ws_store, ws_row, join_name,
}
use chat_app_csd.App.Views.{joins}
use chat_app_csd.App.Views.Sends.{
  IsCurrent, broadcast-IsCurrent, screen-append, screen_other, seats-put_other, seats-pop_socket,
  has_clients-seats,
}

module _ (p : Packages) (ws : ℕ) where
  -- A new state of the database with the same feed.
  pub db-IsCurrent :
      (db : Db) (app : App p)
      → db.feed ≡ app.db.feed
      → IsCurrent p ws app
      → IsCurrent p ws (record app { db = db })
  db-IsCurrent db app same h = record { seated = h.seated; shows = rw same h.shows }

  sealed-IsCurrent :
      (m : Posted) (draw : Draw) (app : App p)
      → IsCurrent p ws app
      → IsCurrent p ws (sealed_row p m draw app).1
  unfolding sealed_row
  sealed-IsCurrent m draw app h = elim (Option-cases (find_name m.client_name app.keypair_cache)) [
    | inl e ↦ rw e (record { seated = h.seated; shows = h.shows })
    | inr (keys, e) ↦ rw e (record { seated = h.seated; shows = h.shows })
  ]

  store-IsCurrent :
      (m : Posted) (draw : Draw) (app : App p)
      → draw.dead ws ≡ false
      → length app.db.queue < queue_max
      → message_exists m.msg_id app.db ≡ false
      → IsCurrent p ws app
      → IsCurrent p ws (store_message p m draw app).1
  unfolding store_message broadcast_ws sealed_row
  store-IsCurrent m draw app alive room new h =
      let (row, chained) = sealed_row p m draw app in
      let sealed = sealed-IsCurrent m draw app h in
      let saved =
        save_new p.config row chained.db
          (rw (db-sealed_row p m draw app, msg_id-sealed_row p m draw app)
            (unfold message_exists in new))
          (rw (db-sealed_row p m draw app) room) in
      rw saved (
        rw (has_clients-seats p ws chained.clients sealed.seated) (
          broadcast-IsCurrent p ws draw.dead (feed_item row) _ alive sealed.seated chained.db.feed
            sealed.shows refl))

  pub post_message-IsCurrent :
      (request : Request) (draw : Draw) (app : App p)
      → draw.dead ws ≡ false
      → length app.db.queue < queue_max
      → IsCurrent p ws app
      → IsCurrent p ws (post_message p request draw app).1
  unfolding post_message track_response_time
  post_message-IsCurrent request draw app alive room h =
      let entered : App p = record app { active_requests = app.active_requests + 1 } in
      let before : IsCurrent p ws entered = record { seated = h.seated; shows = h.shows } in
      let r =
        handle_induction p (IsCurrent p ws) (body_data request) draw entered before
          (λ m new. store-IsCurrent (named m draw) draw entered alive room new before) in
      record { seated = r.seated; shows = r.shows }

  -- A message of a socket under a new id.
  ws_store-IsCurrent :
      (keys : Option (Keys p)) (name content : String) (time : Value) (draw : Draw) (app : App p)
      → draw.dead ws ≡ false
      → length app.db.queue < queue_max
      → message_exists draw.uuid app.db ≡ false
      → IsCurrent p ws app
      → IsCurrent p ws (ws_store p keys name content time draw app).1
  unfolding ws_row
  ws_store-IsCurrent none name content time draw app alive room new h = h
  ws_store-IsCurrent (some keys) name content time draw app alive room new h =
      let row = ws_row p keys name content time draw app in
      rw (save_new p.config row app.db (unfold message_exists in new) room) (
        broadcast-IsCurrent p ws draw.dead (feed_item row) _ alive h.seated app.db.feed h.shows
          refl)

  on_message-IsCurrent :
      (sender : ℕ) (username : Option String) (draw : Draw) (msg : Fields) (app : App p)
      → draw.dead ws ≡ false
      → length app.db.queue < queue_max
      → message_exists draw.uuid app.db ≡ false
      → IsCurrent p ws app
      → IsCurrent p ws (on_message p sender username draw msg app).1
  unfolding on_message
  on_message-IsCurrent sender none draw msg app alive room new h = h
  on_message-IsCurrent sender (some name) draw msg app alive room new h =
      let content = prefix 2000 (str p.config.repr (get_or (text "") msg "text")) in
      elim (Bool-cases (is_empty (strip content))) [
        | inl blank ↦ rw blank h
        | inr said ↦ rw said (
            ws_store-IsCurrent (find_socket sender app.client_keys) name content _ draw app alive
              room new h)
      ]

  -- Another socket joins.
  join_as-IsCurrent :
      (other : ℕ) (draw : Draw) (app : App p) (name : Outcome String)
      → nat_eq other ws ≡ false
      → IsCurrent p ws app
      → IsCurrent p ws (join_as p other draw app name).1
  unfolding upsert_user_pubkey
  join_as-IsCurrent other draw app raised away h = h
  join_as-IsCurrent other draw app (returned name) away h =
      let seated = seats-put_other ws other name app.clients away ∙ h.seated in
      elim (Bool-cases (draw.dead other)) [
        | inl dead ↦ rw dead (record { seated = seated; shows = h.shows })
        | inr alive ↦ rw alive (record {
          seated = seated;
          shows =
              screen-append p ws app.sent _
              ∙ rw (screen_other p ws other _ away, append-nil) h.shows;
        })
      ]

  pub ws_turn-IsCurrent :
      (sender : ℕ) (username : Option String) (draw : Draw) (event : Received) (app : App p)
      → draw.dead ws ≡ false
      → length app.db.queue < queue_max
      → message_exists draw.uuid app.db ≡ false
      → nat_eq sender ws && joins p event ≡ false
      → IsCurrent p ws app
      → IsCurrent p ws (ws_turn p sender username draw event app).1
  unfolding ws_turn on_join
  ws_turn-IsCurrent sender username draw closed app alive room new away h = h
  ws_turn-IsCurrent sender username draw not_json app alive room new away h = h
  ws_turn-IsCurrent sender username draw (message (dict msg)) app alive room new away h =
      elim (Bool-cases (text_is p "join" (get msg "type"))) [
        | inl k ↦
            rw k (join_as-IsCurrent sender draw app (join_name msg) (ground (arith, k, away)) h)
        | inr k1 ↦ elim (Bool-cases (text_is p "message" (get msg "type"))) [
          | inl k ↦ rw (k1, k) (on_message-IsCurrent sender username draw msg app alive room new h)
          | inr k ↦ rw (k1, k) h
        ]
      ]
  ws_turn-IsCurrent sender username draw (message _) app alive room new away h = h

  pub ws_leave-IsCurrent :
      (other : ℕ) (app : App p)
      → nat_eq other ws ≡ false
      → IsCurrent p ws app
      → IsCurrent p ws (ws_leave p other app)
  unfolding ws_leave
  ws_leave-IsCurrent other app away h = record {
    seated = seats-pop_socket ws other app.clients away ∙ h.seated;
    shows = h.shows;
  }
