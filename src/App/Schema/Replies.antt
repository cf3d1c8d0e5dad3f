-- ===== src/App/Schema/Replies.antt =====
-- What app.py answers, against the shapes that its docstrings name.
use chat_app_csd.Prelude.{
  ◌∷◌, [], List, All, ℕ, ◌+◌, ◌<◌, true, false, ◌≡◌, refl, inl, inr, Bool-cases, some, length,
  is_empty,
}
use chat_app_csd.Value.{Fields, items_of, list, dict}
use chat_app_csd.Db.{message_exists, queue_max, get_messages_for_feed}
use chat_app_csd.Db.Steps.{save_new}
use chat_app_csd.App.{Packages, App, Draw}
use chat_app_csd.App.Answers.{db-sealed_row, msg_id-sealed_row}
use chat_app_csd.App.Post.{
  Request, Posted, post_message, accept_message, store_message, sealed_row, named, read_posted,
  body_data,
}
use chat_app_csd.App.Routes.{get_feed}
use chat_app_csd.App.Schema.{
  validate, keeps_contract, message_contract, feed_shape, each-map, feed_entry_shape,
}

always : {A : Type 0} (l : List A) → All {0, 0} (λ a. Unit) l
always [] = tt
always (a ∷ l) = (tt, always l)

module _ (p : Packages) where
  store_message-valid :
      (m : Posted) (draw : Draw) (app : App p)
      → message_exists m.msg_id app.db ≡ false
      → length app.db.queue < queue_max
      → keeps_contract message_contract (store_message p m draw app).0 ≡ true
  unfolding store_message keeps_contract validate
  store_message-valid m draw app new room =
      let (row, chained) = sealed_row p m draw app in
      rw
        (save_new p.config row chained.db
          (rw (db-sealed_row p m draw app, msg_id-sealed_row p m draw app)
            (unfold message_exists in new))
          (rw (db-sealed_row p m draw app) room))
        refl

  accept_message-valid :
      (m : Posted) (draw : Draw) (app : App p)
      → length app.db.queue < queue_max
      → keeps_contract message_contract (accept_message p m draw app).0 ≡ true
  unfolding accept_message keeps_contract validate
  accept_message-valid m draw app room = elim (Bool-cases (is_empty m.client_name)) [
    | inl k ↦ rw k refl
    | inr k1 ↦ elim (Bool-cases (is_empty m.msg_text)) [
      | inl k ↦ rw (k1, k) refl
      | inr k2 ↦ elim (Bool-cases (message_exists (named m draw).msg_id app.db)) [
        | inl k ↦ rw (k1, k2, k) refl
        | inr k3 ↦ rw (k1, k2, k3) (store_message-valid (named m draw) draw app k3 room)
      ]
    ]
  ]

  -- While the queue has room, a request whose body is a dict of Unicode texts, without lone
  -- surrogates, whatever its fields are, is answered without an exception: with status 200 and the
  -- report of a stored message or of a duplicate, or with status 400 and an error text, each with
  -- the fields that the client relies on, of the types it relies on. The feed afterwards is a list of messages with the four documented fields.
  pub replies_valid :
      (request : Request) (d : Fields) (draw : Draw) (elapsed : ℕ) (app : App p)
      → body_data request ≡ some (dict d)
      → length app.db.queue < queue_max
      → let (response, after) = post_message p request draw app in
        (keeps_contract message_contract response ≡ true)
        × (validate feed_shape (list (items_of (get_feed p elapsed after).0)) ≡ true)
  unfolding post_message get_feed get_messages_for_feed validate
  replies_valid request d draw elapsed app body room =
      let entered : App p = record app { active_requests = app.active_requests + 1 } in
      (
        rw body (accept_message-valid (read_posted p.config.repr d) draw entered room),
        each-map feed_entry_shape (λ t. Unit) _ (λ t u. refl)
            (post_message p request draw app).1.db.feed
            (always (post_message p request draw app).1.db.feed),
      )
