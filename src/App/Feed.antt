-- ===== src/App/Feed.antt =====
-- What `GET /feed` and `/health` show after `POST /message` and `POST /reset-state`.
use chat_app_csd.Prelude.{ℕ, ◌+◌, ◌≡◌, refl, false, some, [], ◌∷◌, ◌++◌, map-append, is_empty}
use chat_app_csd.App.Answers.{db-sealed_row, db-after_save, msg_id-sealed_row}
use chat_app_csd.App.Routes.{get_feed, reset_state, health_counts}
use chat_app_csd.Db.{
  FeedItem, feed_item, message_exists, get_messages_for_feed, save_message, get_message_count,
}
use chat_app_csd.Db.Saving.{save_message_lem}
use chat_app_csd.App.Post.{
  Posted, accept_message, post_message, sealed_row, store_message, Request, named, body_data,
  read_posted,
}
use chat_app_csd.App.{Packages, Draw, App, track_response_time}
use chat_app_csd.Integrity.{verify_chain, verify_from}
use chat_app_csd.Value.{Value, int, dict, Fields, field, text, end}
use chat_app_csd.App.Chained.{IsChained}

-- The dict of `/feed` for an accepted message.
abbrev pub feed_entry : Posted → Draw → Value
feed_entry m draw = dict (
    field "id" (text m.msg_id) (
      field "client-name" (text m.client_name)
        (field "msg" (text m.msg_text) (field "timestamp" (int draw.now) end))))

abbrev item_of : Posted → Draw → FeedItem
item_of m draw = record {
  id = m.msg_id;
  username = m.client_name;
  plaintext = m.msg_text;
  timestamp = int draw.now;
}

module _ (p : Packages) where
  item-sealed_row :
      (m : Posted) (draw : Draw) (app : App p)
      → feed_item (sealed_row p m draw app).0 ≡ item_of m draw
  unfolding sealed_row
  item-sealed_row m draw app = refl

  -- The feed and the number of ids after a message with a new id.
  abbrev Accepted : Posted → Draw → App p → App p → Type 0
  Accepted m draw app after =
      (after.db.feed ≡ app.db.feed ++ item_of m draw ∷ [])
      × (get_message_count after.db ≡ get_message_count app.db + 1)

  store-Accepted :
      (m : Posted) (draw : Draw) (app : App p)
      → message_exists m.msg_id app.db ≡ false
      → Accepted m draw app (store_message p m draw app).1
  unfolding store_message
  store-Accepted m draw app new =
      let (row, chained) = sealed_row p m draw app in
      let (saved, db) = save_message p.config row chained.db in
      let stored : App p = record chained { db = db } in
      let known : message_exists row.msg_id chained.db ≡ false =
        rw (db-sealed_row p m draw app, msg_id-sealed_row p m draw app) new in
      let (feed, _, counted) = (save_message_lem p.config row chained.db).1 known in
      rw (db-after_save p m draw saved stored) (
        rw feed (rw (item-sealed_row m draw app, db-sealed_row p m draw app) refl),
        rw counted (rw (db-sealed_row p m draw app) refl),
      )

  accept-Accepted :
      (m : Posted) (draw : Draw) (app : App p)
      → is_empty m.client_name ≡ false
      → is_empty m.msg_text ≡ false
      → message_exists (named m draw).msg_id app.db ≡ false
      → Accepted (named m draw) draw app (accept_message p m draw app).1
  unfolding accept_message
  accept-Accepted m draw app name content new =
      rw (name, content, new) (store-Accepted (named m draw) draw app new)

  -- If the body is a dict of Unicode texts, without lone surrogates, with a name, a text and an id
  -- that is not known, given or drawn, then
  -- the next feed is the feed of before with the message behind it, under its id, with its name,
  -- its text and the time of the request, and the next health report counts one message more.
  pub post_then_feed :
      (request : Request) (d : Fields) (draw : Draw) (elapsed : ℕ) (app : App p)
      → body_data request ≡ some (dict d)
      → let m = read_posted p.config.repr d in
        is_empty m.client_name ≡ false
        → is_empty m.msg_text ≡ false
        → message_exists (named m draw).msg_id app.db ≡ false
        → let after = (post_message p request draw app).1 in
          ((get_feed p elapsed after).0
            ≡ (get_feed p elapsed app).0 ++ feed_entry (named m draw) draw ∷ [])
          × ((health_counts p after).1 ≡ (health_counts p app).1 + 1)
  unfolding post_message track_response_time get_feed get_messages_for_feed health_counts
  post_then_feed request d draw elapsed app body name content new =
      let m = read_posted p.config.repr d in
      let entered : App p = record app { active_requests = app.active_requests + 1 } in
      let done = accept-Accepted m draw entered name content new in
      rw body (rw done.0 (map-append _ app.db.feed (item_of (named m draw) draw ∷ [])), done.1)

  -- After a reset while the writer holds no batch, whatever the state was: the feed is empty, no
  -- message is counted, and the stored messages, of which there are none, and the last hash are as
  -- `IsChained` asks, so that later messages start a new chain.
  pub reset_then_fresh :
      (elapsed : ℕ) (app : App p)
      → app.db.in_flight ≡ []
      → let after = (reset_state p app).1 in
        ((get_feed p elapsed after).0 ≡ []) × ((health_counts p after).1 ≡ 0) × IsChained p after
  unfolding reset_state get_feed health_counts verify_chain verify_from get_messages_for_feed
      get_message_count
  reset_then_fresh elapsed app idle =
      (refl, refl, record { verified = rw idle refl; continued = rw idle refl })
