-- ===== src/App/Runs.antt =====
-- Any order of the handlers of app.py, and what they keep of the sockets.
use chat_app_csd.Prelude.{ℕ, String, ◌≡◌, refl, Option, none, List, [], ◌∷◌, ℤ}
use chat_app_csd.App.Sockets.{IsPaired, IsPaired-IsKept, ws_leave-IsPaired, find-pop_socket}
use chat_app_csd.App.Kept.{IsKept, post_message-kept, ws_turn-kept, post_messages_batch-kept}
use chat_app_csd.App.Socket.{Received, Turn, leave, next, ws_turn, ws_leave, ws_handler}
use chat_app_csd.App.Routes.{get_feed, reset_state, post_messages_batch}
use chat_app_csd.Db.Writer.{writer_round}
use chat_app_csd.Value.{Value}
use chat_app_csd.App.{Packages, App, Draw, track_response_time, find_socket}
use chat_app_csd.App.Post.{post_message, Request}

module _ (p : Packages) where
  -- The handlers, and the writer's rounds between them.
  pub data Handled (app : App p) : App p → Type 0 where
    posted : (request : Request) (draw : Draw) → Handled app (post_message p request draw app).1
    received :
        (ws : ℕ) (username : Option String) (draw : Draw) (event : Received)
        → Handled app (ws_turn p ws username draw event app).1
    left : (ws : ℕ) → Handled app (ws_leave p ws app)
    ingested : (now : ℤ) (body : Value) → Handled app (post_messages_batch p now body app).1
    cleared : Handled app (reset_state p app).1
    showed : (elapsed : ℕ) → Handled app (get_feed p elapsed app).1
    flushed : Handled app (record app { db = (writer_round p.config app.db).0 })

  pub data Run (app : App p) : App p → Type 0 where
    started : Run app app
    then_next : {t u : App p} → Handled t u → Run app t → Run app u

  module _ {ℓ} (P : App p → Type ℓ) (k : IsKept p P) where
    Handled-kept : {app after : App p} → Handled app after → P app → P after
    unfolding reset_state get_feed track_response_time
    Handled-kept {app} (posted request draw) h = post_message-kept p P k request draw app h
    Handled-kept {app} (received ws username draw event) h =
        ws_turn-kept p P k ws username draw event app h
    Handled-kept {app} (left ws) h = k.gone ws app h
    Handled-kept {app} (ingested now body) h = post_messages_batch-kept p P k now body app h
    Handled-kept {app} cleared h = k.same app _ refl refl refl h
    Handled-kept {app} (showed elapsed) h = k.same app _ refl refl refl h
    Handled-kept {app} flushed h = k.same app _ refl refl refl h

    pub Run-kept : {app after : App p} → Run app after → P app → P after
    Run-kept started h = h
    Run-kept (then_next step run) h = Handled-kept step (Run-kept run h)

  -- After any run of requests, socket events, resets and writer rounds, the sockets with a name
  -- and those with keys are the same, in the same order, and no name has more than 24 characters,
  -- if that was so at the start.
  pub Run-IsPaired : {app after : App p} → Run app after → IsPaired p app → IsPaired p after
  Run-IsPaired run h = Run-kept (IsPaired p) (IsPaired-IsKept p) run h

  -- The socket is in neither dict, and the others are in both.
  abbrev HasLeft : ℕ → App p → Type 0
  HasLeft ws after =
      (find_socket ws after.clients ≡ none)
      × (find_socket ws after.client_keys ≡ none)
      × IsPaired p after

  turn_induction :
      (P : App p → Type 0) (turn : Turn) (go_on : Option String → App p) (end_here : App p)
      → ((name : Option String) → P (go_on name))
      → P end_here
      → P (elim turn [ next name ↦ go_on name | leave ↦ end_here ])
  turn_induction P (next name) go_on end_here h k = h name
  turn_induction P leave go_on end_here h k = k

  left_behind : (ws : ℕ) (app : App p) → IsPaired p app → HasLeft ws (ws_leave p ws app)
  unfolding ws_leave
  left_behind ws app h = (
    find-pop_socket ws app.clients,
    find-pop_socket ws app.client_keys,
    ws_leave-IsPaired p ws app h,
  )

  -- If names and keys belong to the same sockets at the start, then whatever a socket sends, and
  -- wherever its loop ends, by the end of the connection or by an exception: afterwards the
  -- process has neither a name nor keys of it, and names and keys belong to the same sockets
  -- again.
  pub ws_handler_lem :
      (ws : ℕ) (username : Option String) (events : List (Draw × Received)) (app : App p)
      → IsPaired p app
      → let after = ws_handler p ws username events app in
        (find_socket ws after.clients ≡ none)
        × (find_socket ws after.client_keys ≡ none)
        × IsPaired p after
  unfolding ws_handler
  ws_handler_lem ws username [] app h = left_behind ws app h
  ws_handler_lem ws username ((draw, event) ∷ events) app h =
      let (turn, after) = ws_turn p ws username draw event app in
      let paired = ws_turn-kept p (IsPaired p) (IsPaired-IsKept p) ws username draw event app h in
      turn_induction (HasLeft ws) turn (λ name. ws_handler p ws name events after)
        (ws_leave p ws after) (λ name. ws_handler_lem ws name events after paired)
        (left_behind ws after paired)
