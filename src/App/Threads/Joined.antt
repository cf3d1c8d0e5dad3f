-- ===== src/App/Threads/Joined.antt =====
-- A socket that joins while a thread of `POST /message` is between the feed and the broadcast: the
-- join reads the history under `_feed_lock`, and the broadcast goes to all who have joined by then.
use chat_app_csd.Value.{int}
use chat_app_csd.Db.{FeedItem}
use chat_app_csd.Store.{Row}
use chat_app_csd.App.{Packages, App, Draw}
use chat_app_csd.App.Post.{Posted}
use chat_app_csd.App.Views.Wire.{Wire}

module _ (p : Packages) where
  -- The message that the broadcast shows.
  abbrev sent_item : Posted → Draw → Row → FeedItem
  sent_item m draw r = record {
    id = r.msg_id;
    username = m.client_name;
    plaintext = m.msg_text;
    timestamp = int draw.now;
  }
