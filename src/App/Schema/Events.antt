-- ===== src/App/Schema/Events.antt =====
-- What app.py sends to the sockets, against the shapes that the browser reads.
use chat_app_csd.Prelude.{
  none, strip, is_empty, ℕ, String, Bool, true, ◌≡◌, refl, inl, inr, Bool-cases, All, All-append,
  Option, ℤ, some, prefix,
}
use chat_app_csd.Value.{str, get_or, text, int, Value, Fields, dict, list, cons, get}
use chat_app_csd.Db.{reset_db, Db, Outcome, raised, returned, upsert_user_pubkey, save_message}
use chat_app_csd.App.{Packages, App, Draw, new_keys, track_response_time, Keys, find_socket}
use chat_app_csd.App.Socket.{
  closed, not_json, join_as, join_name, ws_leave, Received, on_message, ws_row, ws_turn, message,
  on_join, ws_saved, text_is, ws_store,
}
use chat_app_csd.Db.Writer.{writer_round, writer_take}
use chat_app_csd.Db.Steps.{writer_take-split, writer_write_keeps_caches}
use chat_app_csd.App.Runs.{
  Handled, received, left, ingested, cleared, showed, flushed, started, then_next, Run,
}
use chat_app_csd.App.Schema.{is_json}
use chat_app_csd.App.Schema.Times.{
  HasJsonTime, save_message-JsonTimes, save_messages_batch-JsonTimes, or-is_json,
}
use chat_app_csd.App.Routes.{reset_state, get_feed, post_messages_batch, batch_answer}
use chat_app_csd.Db.Ingest.{save_messages_batch}
use chat_app_csd.App.Schema.Sending.{
  IsEvent, IsReadable, history_event-IsEvent, broadcast_ws-IsReadable, post_message-IsReadable,
}

module _ (p : Packages) where
  join_as-IsReadable :
      (ws : ℕ) (draw : Draw) (app : App p) (name : Outcome String)
      → IsReadable p app
      → IsReadable p (join_as p ws draw app name).1
  unfolding upsert_user_pubkey
  join_as-IsReadable ws draw app raised h = h
  join_as-IsReadable ws draw app (returned name) h = elim (Bool-cases (draw.dead ws)) [
    | inl dead ↦ rw dead (record { times = h.times; events = h.events })
    | inr alive ↦ rw alive (record {
      times = h.times;
      events = All-append IsEvent app.sent _ h.events (
        history_event-IsEvent ws (upsert_user_pubkey name (new_keys p draw.key_seed).1 app.db)
            h.times,
        tt,
      );
    })
  ]

  ws_saved-IsReadable :
      (name content : String) (time : Value) (draw : Draw) (saved : Outcome Bool) (app : App p)
      → is_json time ≡ true
      → IsReadable p app
      → IsReadable p (ws_saved p name content time draw saved app).1
  ws_saved-IsReadable name content time draw raised app timed h = h
  ws_saved-IsReadable name content time draw (returned _) app timed h =
      broadcast_ws-IsReadable p draw.dead name content time app timed h

  ws_store-IsReadable :
      (keys : Option (Keys p)) (name content : String) (time : Value) (draw : Draw) (app : App p)
      → is_json time ≡ true
      → IsReadable p app
      → IsReadable p (ws_store p keys name content time draw app).1
  unfolding ws_row
  ws_store-IsReadable none name content time draw app timed h = h
  ws_store-IsReadable (some keys) name content time draw app timed h =
      let row = ws_row p keys name content time draw app in
      let (saved, db) = save_message p.config row app.db in
      ws_saved-IsReadable name content time draw saved (record app { db = db }) timed
        (record {
          times = save_message-JsonTimes p.config row app.db timed h.times;
          events = h.events;
        })

  on_message-IsReadable :
      (ws : ℕ) (username : Option String) (draw : Draw) (msg : Fields) (app : App p)
      → is_json (get msg "timestamp") ≡ true
      → IsReadable p app
      → IsReadable p (on_message p ws username draw msg app).1
  unfolding on_message is_json
  on_message-IsReadable ws none draw msg app timed h = h
  on_message-IsReadable ws (some name) draw msg app timed h =
      let content = prefix 2000 (str p.config.repr (get_or (text "") msg "text")) in
      elim (Bool-cases (is_empty (strip content))) [
        | inl blank ↦ rw blank h
        | inr said ↦ rw said (
            ws_store-IsReadable (find_socket ws app.client_keys) name content _ draw app
              (or-is_json (get msg "timestamp") (int draw.now) timed refl) h)
      ]

  -- What a socket gives as the time of its message, if anything, is written as JSON.
  unfoldable pub GivesJsonTime : Received → Type 0
  GivesJsonTime (message (dict msg)) = is_json (get msg "timestamp") ≡ true
  GivesJsonTime _ = Unit

  ws_turn-IsReadable :
      (ws : ℕ) (username : Option String) (draw : Draw) (event : Received) (app : App p)
      → GivesJsonTime event
      → IsReadable p app
      → IsReadable p (ws_turn p ws username draw event app).1
  unfolding ws_turn on_join GivesJsonTime
  ws_turn-IsReadable ws username draw closed app timed h = h
  ws_turn-IsReadable ws username draw not_json app timed h = h
  ws_turn-IsReadable ws username draw (message (dict msg)) app timed h =
      elim (Bool-cases (text_is p "join" (get msg "type"))) [
        | inl b ↦ rw b (join_as-IsReadable ws draw app (join_name msg) h)
        | inr b1 ↦ elim (Bool-cases (text_is p "message" (get msg "type"))) [
          | inl b ↦ rw (b1, b) (on_message-IsReadable ws username draw msg app timed h)
          | inr b ↦ rw (b1, b) h
        ]
      ]
  ws_turn-IsReadable ws username draw (message _) app timed h = h

  answer-IsReadable :
      (app : App p) (o : Outcome ℕ × Db)
      → All HasJsonTime o.1.feed
      → IsReadable p app
      → IsReadable p (batch_answer p app o).1
  answer-IsReadable app (raised, db) times h = record { times = times; events = h.events }
  answer-IsReadable app (returned n, db) times h = record { times = times; events = h.events }

  batch-IsReadable :
      (now : ℤ) (body : Value) (app : App p)
      → IsReadable p app
      → IsReadable p (post_messages_batch p now body app).1
  unfolding post_messages_batch
  batch-IsReadable now (list (cons v vs)) app h =
      answer-IsReadable app (save_messages_batch p.config now (cons v vs) app.db)
        (save_messages_batch-JsonTimes p.config now (cons v vs) app.db h.times) h
  batch-IsReadable now _ app h = h

  -- What the sockets give as times, in the course of a run, is written as JSON.
  abbrev StepJsonTime : {app after : App p} → Handled p app after → Type 0
  StepJsonTime (received ws username draw event) = GivesJsonTime event
  StepJsonTime _ = Unit

  unfoldable pub RunJsonTimes : {app after : App p} → Run p app after → Type 0
  RunJsonTimes started = Unit
  RunJsonTimes (then_next step run) = StepJsonTime step × RunJsonTimes run

  Handled-IsReadable :
      {app after : App p}
      → (step : Handled p app after) → StepJsonTime step
      → IsReadable p app
      → IsReadable p after
  unfolding reset_state reset_db get_feed track_response_time ws_leave writer_round
  Handled-IsReadable {app} (Handled.posted request draw) k h =
      post_message-IsReadable p request draw app h
  Handled-IsReadable {app} (received ws username draw event) k h =
      ws_turn-IsReadable ws username draw event app k h
  Handled-IsReadable {app} (left ws) k h = record { times = h.times; events = h.events }
  Handled-IsReadable {app} (ingested now body) k h = batch-IsReadable now body app h
  Handled-IsReadable {app} cleared k h = record { times = tt; events = h.events }
  Handled-IsReadable {app} (showed elapsed) k h = record { times = h.times; events = h.events }
  Handled-IsReadable {app} flushed k h = record {
    times =
        rw ((writer_write_keeps_caches p.config (writer_take app.db)).0, writer_take-split app.db)
          h.times;
    events = h.events;
  }

  Run-IsReadable :
      {app after : App p}
      → (run : Run p app after) → RunJsonTimes run
      → IsReadable p app
      → IsReadable p after
  unfolding RunJsonTimes
  Run-IsReadable started k h = h
  Run-IsReadable (then_next step run) k h = Handled-IsReadable step k.0 (Run-IsReadable run k.1 h)

  -- Let requests, socket events, posted batches, resets and writer rounds come in any order, where
  -- no socket gives a time with a float in it that is NaN or infinite, from a state whose feed has
  -- no such times. Then everything that any socket was ever sent is an event that the browser can
  -- read, if that was so at the start: a message with texts as name and content, or a history of
  -- such messages, each with a time that is written as JSON, and each said to be verified and not
  -- tampered with.
  pub Run-SentEvents :
      {app after : App p}
      → (run : Run p app after) → RunJsonTimes run
      → All HasJsonTime app.db.feed
      → All IsEvent app.sent
      → All IsEvent after.sent
  Run-SentEvents run k times events =
      (Run-IsReadable run k (record { times = times; events = events })).events
