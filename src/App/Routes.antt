-- ===== src/App/Routes.antt =====
-- The other routes of app.py; App/Metrics has the figures of `/health`.
use chat_app_csd.Prelude.{ℕ, ◌+◌, List, [], ◌∷◌, length, ℤ, pos}
use chat_app_csd.Db.{
  raised, returned, Outcome, get_message_count, reset_db, Db, get_messages_for_feed,
  load_shared_messages, genesis,
}
use chat_app_csd.Value.{dict, end, field, cons, list, Value, text, int}
use chat_app_csd.App.{Packages, App, track_response_time, Response, answer, server_error}
use chat_app_csd.Db.Ingest.{save_messages_batch}

-- `sum(times)`
abbrev pub total : List ℕ → ℕ
total [] = 0
total (t ∷ times) = t + total times

module _ (p : Packages) where
  -- The feed as the list that is written as JSON.
  unfoldable pub get_feed : ℕ → App p → List Value × App p
  unfolding track_response_time get_messages_for_feed
  get_feed elapsed app = (get_messages_for_feed app.db, track_response_time p elapsed app)

  unfoldable pub reset_state : App p → Response × App p
  unfolding reset_db
  reset_state app = (
    answer 200
        (dict (field "status" (text "ok") (field "message" (text "database reset complete") end))),
    record app { db = reset_db app.db; last_hash = genesis; keypair_cache = [] },
  )

  abbrev inserted_body : ℕ → Value
  inserted_body n = dict (field "status" (text "ok") (field "inserted" (int (pos n)) end))

  abbrev pub batch_answer : App p → Outcome ℕ × Db → Response × App p
  batch_answer app (raised, db) = (server_error, record app { db = db })
  batch_answer app (returned n, db) = (answer 200 (inserted_body n), record app { db = db })

  -- `get_json(silent=True) or []`: anything but a list with items is answered at once.
  unfoldable pub post_messages_batch : ℤ → Value → App p → Response × App p
  post_messages_batch now (list (cons v vs)) app =
      batch_answer app (save_messages_batch p.config now (cons v vs) app.db)
  post_messages_batch now _ app = (answer 200 (inserted_body 0), app)

  abbrev pub get_messages : ℤ → App p → List Value
  get_messages limit app = load_shared_messages limit app.db

  -- `active_connections`, `message_count`, and the sum and the number that `avg_response_ms` is
  -- the quotient of.
  unfoldable pub health_counts : App p → ℕ × ℕ × ℕ × ℕ
  unfolding get_message_count
  health_counts app = (
    app.active_requests,
    get_message_count app.db,
    total app.response_times,
    length app.response_times,
  )
