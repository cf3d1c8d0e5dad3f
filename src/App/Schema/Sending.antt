-- ===== src/App/Schema/Sending.antt =====
-- The events that `POST /message` sends, and the history, against the shapes that the browser reads.
use chat_app_csd.Prelude.{
  zero, ◌&&◌, ◌+◌, map, ℕ, String, Bool, true, ◌≡◌, refl, inl, inr, Bool-cases, List, [], ◌∷◌, All,
  All-append, pos, take, suc, arith,
}
use chat_app_csd.Value.{Value}
use chat_app_csd.Db.{
  HistoryRow, FeedItem, Db, Outcome, raised, returned, load_history, save_message,
}
use chat_app_csd.App.{Packages, App, Draw, sends, broadcast_ws, track_response_time}
use chat_app_csd.App.Post.{
  message_event, post_message, sealed_row, store_message, Posted, Request, after_save, has_clients,
  body_data, named,
}
use chat_app_csd.App.Socket.{history_entry, history_event}
use chat_app_csd.App.Schema.{validate, is_event, message_members, object, each-map, is_json}
use chat_app_csd.App.Schema.Times.{HasJsonTime, save_message-JsonTimes}
use chat_app_csd.App.Answers.{db-sealed_row, handle_induction}

-- A payload with the socket that it went to.
abbrev pub IsEvent : ℕ × Value → Type 0
unfolding is_event
IsEvent sent = is_event sent.1 ≡ true

message_event-IsEvent :
    (ws : ℕ) (username content : String) (time : Value)
    → is_json time ≡ true
    → IsEvent (ws, message_event username content time)
unfolding is_event validate
message_event-IsEvent ws username content time h = rw h refl

All-take : {A : Type 0} (P : A → Type 0) (n : ℕ) (l : List A) → All P l → All P (take n l)
All-take P zero l h = tt
All-take P (suc n) [] h = tt
All-take P (suc n) (x ∷ l) h = (h.0, All-take P n l h.1)

HasReadableTime : HistoryRow → Type 0
HasReadableTime t = is_json t.timestamp ≡ true

history_times :
    (l : List FeedItem)
    → All HasJsonTime l
    → All HasReadableTime (
        map
          (λ t. record { username = t.username; plaintext = t.plaintext; timestamp = t.timestamp })
          l)
unfolding HasReadableTime
history_times [] h = tt
history_times (t ∷ l) h = (h.0, history_times l h.1)

pub history_event-IsEvent :
    (ws : ℕ) (db : Db) → All HasJsonTime db.feed → IsEvent (ws, history_event db)
unfolding is_event validate HasReadableTime
history_event-IsEvent ws db h =
    rw
      (each-map (object message_members) HasReadableTime history_entry (λ t time. rw time refl)
        (load_history (pos 100000) db)
        (history_times (take 100000 db.feed) (All-take HasJsonTime 100000 db.feed h)))
      refl

pub sends-IsEvent :
    (dead : ℕ → Bool) (payload : Value) (cs : List (ℕ × String))
    → ((ws : ℕ) → IsEvent (ws, payload))
    → All IsEvent (sends dead payload cs)
sends-IsEvent dead payload [] h = tt
sends-IsEvent dead payload ((ws, name) ∷ cs) h = elim (Bool-cases (dead ws)) [
  | inl d ↦ rw d (sends-IsEvent dead payload cs h)
  | inr d ↦ rw d (h ws, sends-IsEvent dead payload cs h)
]

module _ (p : Packages) where
  -- The timestamps of the feed, and all that sockets were sent, can be read by a page.
  pub record IsReadable (app : App p) : Type 0 where
    pub times : All HasJsonTime app.db.feed
    pub events : All IsEvent app.sent

  pub broadcast_ws-IsReadable :
      (dead : ℕ → Bool) (username content : String) (time : Value) (app : App p)
      → is_json time ≡ true
      → IsReadable app
      → IsReadable (broadcast_ws p dead (message_event username content time) app)
  unfolding broadcast_ws
  broadcast_ws-IsReadable dead username content time app timed h = record {
    times = h.times;
    events = All-append IsEvent app.sent _ h.events (
        sends-IsEvent dead _ app.clients
          (λ ws. message_event-IsEvent ws username content time timed));
  }

  after_save-IsReadable :
      (m : Posted) (draw : Draw) (saved : Outcome Bool) (app : App p)
      → IsReadable app
      → IsReadable (after_save p m draw saved app).1
  unfolding is_json
  after_save-IsReadable m draw raised app h = h
  after_save-IsReadable m draw (returned inserted) app h =
      elim (Bool-cases (inserted && has_clients p app.clients)) [
        | inl k ↦ rw k (broadcast_ws-IsReadable draw.dead m.client_name m.msg_text _ app refl h)
        | inr k ↦ rw k h
      ]

  sent-sealed_row :
      (m : Posted) (draw : Draw) (app : App p) → (sealed_row p m draw app).1.sent ≡ app.sent
  unfolding sealed_row
  sent-sealed_row m draw app = ground arith

  time-sealed_row :
      (m : Posted) (draw : Draw) (app : App p)
      → is_json (sealed_row p m draw app).0.timestamp ≡ true
  unfolding sealed_row is_json
  time-sealed_row m draw app = refl

  store_message-IsReadable :
      (m : Posted) (draw : Draw) (app : App p)
      → IsReadable app
      → IsReadable (store_message p m draw app).1
  unfolding store_message
  store_message-IsReadable m draw app h =
      let (row, chained) = sealed_row p m draw app in
      let (saved, db) = save_message p.config row chained.db in
      after_save-IsReadable m draw saved (record chained { db = db })
        (record {
          times =
              save_message-JsonTimes p.config row chained.db (time-sealed_row m draw app)
                (rw (db-sealed_row p m draw app) h.times);
          events = rw (sent-sealed_row m draw app) h.events;
        })

  pub post_message-IsReadable :
      (request : Request) (draw : Draw) (app : App p)
      → IsReadable app
      → IsReadable (post_message p request draw app).1
  unfolding post_message track_response_time
  post_message-IsReadable request draw app h =
      let entered : App p = record app { active_requests = app.active_requests + 1 } in
      let before : IsReadable entered = record { times = h.times; events = h.events } in
      let k =
        handle_induction p IsReadable (body_data request) draw entered before
          (λ m new. store_message-IsReadable (named m draw) draw entered before) in
      record { times = k.times; events = k.events }
