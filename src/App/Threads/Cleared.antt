-- ===== src/App/Threads/Cleared.antt =====
-- A reset while a thread of `POST /message` is between the set of ids and the feed: `reset_db`
-- clears each cache under its own lock, and no lock spans the sections of `save_message`.
use chat_app_csd.Prelude.{◌≡◌, refl, true, false, [], ◌∷◌}
use chat_app_csd.Db.{feed_item, message_exists, save_message, reset_db}
use chat_app_csd.Db.Saving.{feed_ids}
use chat_app_csd.Store.{Row}
use chat_app_csd.App.{Packages, App, Draw}
use chat_app_csd.App.Post.{Posted}
use chat_app_csd.App.Routes.{reset_state}
use chat_app_csd.App.Threads.{feeding, sending, advance, put_row}
use chat_app_csd.App.Threads.Alone.{steps}

module _ (p : Packages) where
  -- When a reset comes between the step in which a request puts its id into the set and the step in
  -- which it puts its message into the feed, then the request goes on to its answer "ok", and the
  -- feed and the queue, which the reset has emptied, have its message, but the set of ids does not
  -- have its id: a retry with this id is saved again, and stands in the feed for the second time.
  pub reset_splits_message :
      (m : Posted) (draw : Draw) (r again : Row) (app : App p)
      → again.msg_id ≡ r.msg_id
      → let cleared = (reset_state p app).1 in
        let (pc, after) = steps p 2 (feeding m draw r, cleared) in
        (pc ≡ sending m draw true)
        × (message_exists r.msg_id after.db ≡ false)
        × (after.db.feed ≡ feed_item r ∷ [])
        × (after.db.queue ≡ r ∷ [])
        × (feed_ids (save_message p.config again after.db).1.feed ≡ r.msg_id ∷ r.msg_id ∷ [])
  unfolding reset_state reset_db steps advance put_row message_exists save_message
  reset_splits_message m draw r again app same = (refl, refl, refl, refl, rw same refl)
