-- ===== src/App/Kept.antt =====
-- What every handler of app.py keeps, if it is about the sockets and what they are sent only.
use chat_app_csd.Prelude.{
  ℕ, ◌+◌, String, ◌≡◌, refl, inl, inr, Bool, ◌&&◌, Option, none, some, Bool-cases, ℤ, is_empty,
  prefix, strip, arith,
}
use chat_app_csd.App.Socket.{
  Received, message, closed, not_json, ws_turn, ws_leave, ws_store, ws_saved, ws_row, on_message,
  on_join, join_as, join_name, text_is,
}
use chat_app_csd.App.Routes.{post_messages_batch, batch_answer}
use chat_app_csd.Db.{raised, returned, Outcome, save_message, Db}
use chat_app_csd.Db.Ingest.{save_messages_batch}
use chat_app_csd.Value.{list, cons, Value, Fields, text, dict, str, get, get_or}
use chat_app_csd.App.{Packages, App, Draw, Keys, track_response_time, find_socket, broadcast_ws}
use chat_app_csd.App.Post.{
  Posted, post_message, sealed_row, store_message, Request, after_save, has_clients, body_data,
  named, message_event,
}
use chat_app_csd.App.Answers.{handle_induction}

module _ (p : Packages) where
  -- It depends on the sockets and on what they were sent, and the code that changes these keeps it:
  -- a broadcast, the end of a socket, and a join.
  pub record IsKept {ℓ} (P : App p → Type ℓ) : Type ℓ where
    pub same :
        (app after : App p)
        → after.clients ≡ app.clients
        → after.client_keys ≡ app.client_keys
        → after.sent ≡ app.sent
        → P app
        → P after
    pub told :
        (dead : ℕ → Bool) (username content : String) (time : Value) (app : App p)
        → P app
        → P (broadcast_ws p dead (message_event username content time) app)
    pub gone : (ws : ℕ) (app : App p) → P app → P (ws_leave p ws app)
    pub came :
        (ws : ℕ) (draw : Draw) (msg : Fields) (app : App p)
        → P app
        → P (join_as p ws draw app (join_name msg)).1

  module _ {ℓ} (P : App p → Type ℓ) (k : IsKept P) where
    db-kept : (db : Db) (app : App p) → P app → P (record app { db = db })
    db-kept db app h = k.same app (record app { db = db }) refl refl refl h

    sealed_row-kept :
        (m : Posted) (draw : Draw) (app : App p) → P app → P (sealed_row p m draw app).1
    unfolding sealed_row
    sealed_row-kept m draw app h =
        k.same app (sealed_row p m draw app).1 (ground arith) (ground arith) (ground arith) h

    after_save-kept :
        (m : Posted) (draw : Draw) (saved : Outcome Bool) (app : App p)
        → P app
        → P (after_save p m draw saved app).1
    after_save-kept m draw raised app h = h
    after_save-kept m draw (returned inserted) app h =
        elim (Bool-cases (inserted && has_clients p app.clients)) [
          | inl b ↦ rw b (k.told draw.dead m.client_name m.msg_text _ app h)
          | inr b ↦ rw b h
        ]

    store_message-kept :
        (m : Posted) (draw : Draw) (app : App p) → P app → P (store_message p m draw app).1
    unfolding store_message
    store_message-kept m draw app h =
        let (row, chained) = sealed_row p m draw app in
        let (saved, db) = save_message p.config row chained.db in
        after_save-kept m draw saved (record chained { db = db })
          (db-kept db chained (sealed_row-kept m draw app h))

    pub post_message-kept :
        (request : Request) (draw : Draw) (app : App p)
        → P app
        → P (post_message p request draw app).1
    unfolding post_message track_response_time
    post_message-kept request draw app h =
        let entered : App p = record app { active_requests = app.active_requests + 1 } in
        let before : P entered = k.same app entered refl refl refl h in
        k.same _ _ refl refl refl (
          handle_induction p P (body_data request) draw entered before
            (λ m new. store_message-kept (named m draw) draw entered before))

    answer-kept : (app : App p) (o : Outcome ℕ × Db) → P app → P (batch_answer p app o).1
    answer-kept app (raised, db) h = db-kept db app h
    answer-kept app (returned n, db) h = db-kept db app h

    pub post_messages_batch-kept :
        (now : ℤ) (body : Value) (app : App p) → P app → P (post_messages_batch p now body app).1
    unfolding post_messages_batch
    post_messages_batch-kept now (list (cons v vs)) app h =
        answer-kept app (save_messages_batch p.config now (cons v vs) app.db) h
    post_messages_batch-kept now _ app h = h

    ws_saved-kept :
        (name content : String) (time : Value) (draw : Draw) (saved : Outcome Bool) (app : App p)
        → P app
        → P (ws_saved p name content time draw saved app).1
    ws_saved-kept name content time draw raised app h = h
    ws_saved-kept name content time draw (returned _) app h =
        k.told draw.dead name content time app h

    ws_store-kept :
        (keys : Option (Keys p)) (name content : String) (time : Value) (draw : Draw) (app : App p)
        → P app
        → P (ws_store p keys name content time draw app).1
    ws_store-kept none name content time draw app h = h
    ws_store-kept (some keys) name content time draw app h =
        let (saved, db) = save_message p.config (ws_row p keys name content time draw app) app.db in
        ws_saved-kept name content time draw saved (record app { db = db }) (db-kept db app h)

    on_message-kept :
        (ws : ℕ) (username : Option String) (draw : Draw) (msg : Fields) (app : App p)
        → P app
        → P (on_message p ws username draw msg app).1
    unfolding on_message
    on_message-kept ws none draw msg app h = h
    on_message-kept ws (some name) draw msg app h =
        let content = prefix 2000 (str p.config.repr (get_or (text "") msg "text")) in
        elim (Bool-cases (is_empty (strip content))) [
          | inl blank ↦ rw blank h
          | inr said ↦
              rw said (ws_store-kept (find_socket ws app.client_keys) name content _ draw app h)
        ]

    pub ws_turn-kept :
        (ws : ℕ) (username : Option String) (draw : Draw) (event : Received) (app : App p)
        → P app
        → P (ws_turn p ws username draw event app).1
    unfolding ws_turn on_join
    ws_turn-kept ws username draw closed app h = h
    ws_turn-kept ws username draw not_json app h = h
    ws_turn-kept ws username draw (message (dict msg)) app h =
        elim (Bool-cases (text_is p "join" (get msg "type"))) [
          | inl b ↦ rw b (k.came ws draw msg app h)
          | inr b1 ↦ elim (Bool-cases (text_is p "message" (get msg "type"))) [
            | inl b ↦ rw (b1, b) (on_message-kept ws username draw msg app h)
            | inr b ↦ rw (b1, b) h
          ]
        ]
    ws_turn-kept ws username draw (message _) app h = h
