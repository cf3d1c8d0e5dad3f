-- ===== src/App/Views/Follow.antt =====
-- The page of a socket from its join on.
use chat_app_csd.Prelude.{
  ℕ, ◌≤◌, ◌≡◌, refl, ap, sym, ◌∙◌, false, true, none, String, List, [], ◌++◌, map, length, take,
  take-append-drop, append-nil, drop_all,
}
use chat_app_csd.Value.{Fields, dict, get, get_or}
use chat_app_csd.Db.{returned, upsert_user_pubkey, Db}
use chat_app_csd.App.{Packages, App, Draw, new_keys}
use chat_app_csd.App.Socket.{message, ws_turn, on_join, join_name, history_event}
use chat_app_csd.App.Views.{seats, screen, shown, joins, handle_server_message}
use chat_app_csd.App.Views.Wire.{Wire}
use chat_app_csd.App.Views.Sends.{
  IsCurrent, screen-append, screen_one, render_all-history, seats-put_socket,
}

take_all : {A : Type 0} (n : ℕ) (l : List A) → length l ≤ n → take n l ≡ l
take_all n l le =
    sym (append-nil (take n l))
    ∙ ap (◌++◌ (take n l)) (sym (drop_all n l le))
    ∙ take-append-drop n l

module _ (p : Packages) (ws : ℕ) where
  history_shown :
      (db : Db)
      → length db.feed ≤ 100000
      → handle_server_message p (history_event db) ≡ map shown db.feed
  unfolding handle_server_message get get_or
  history_shown db le = rw (take_all 100000 db.feed le) (render_all-history p ws db.feed)

  pub join-IsCurrent :
      (draw : Draw) (msg : Fields) (username : String) (app : App p)
      → joins p (message (dict msg)) ≡ true
      → join_name msg ≡ returned username
      → draw.dead ws ≡ false
      → seats ws app.clients ≡ 0
      → screen p ws app.sent ≡ []
      → length app.db.feed ≤ 100000
      → IsCurrent p ws (ws_turn p ws none draw (message (dict msg)) app).1
  unfolding ws_turn on_join upsert_user_pubkey
  join-IsCurrent draw msg username app join name alive away blank le =
      rw (join, name, alive)
        (record {
          seated = seats-put_socket ws username app.clients away;
          shows =
              screen-append p ws app.sent _
              ∙ rw (blank, screen_one p ws)
                  (history_shown (upsert_user_pubkey username (new_keys p draw.key_seed).1 app.db)
                    le);
        })

  -- A join leaves the messages as they are.
  pub join_keeps_messages :
      (draw : Draw) (msg : Fields) (username : String) (app : App p)
      → joins p (message (dict msg)) ≡ true
      → join_name msg ≡ returned username
      → draw.dead ws ≡ false
      → let after = (ws_turn p ws none draw (message (dict msg)) app).1 in
        (after.db.feed ≡ app.db.feed) × (after.db.queue ≡ app.db.queue)
  unfolding ws_turn on_join upsert_user_pubkey
  join_keeps_messages draw msg username app join name alive = rw (join, name, alive) (refl, refl)
