-- ===== src/App/Views/Sends.antt =====
-- What a broadcast sends to one socket, and what it does to the socket's seat.
use chat_app_csd.Prelude.{
  zero, ℕ, ◌≡◌, refl, ap, sym, ◌∙◌, Bool, true, false, List, [], ◌∷◌, ◌++◌, map, nat_eq, arith, inl,
  inr, Bool-cases, All, append_assoc, append-nil, String, suc, map-append,
}
use chat_app_csd.Value.{Value, items_of, list, get, get_or, truthy}
use chat_app_csd.Db.{FeedItem}
use chat_app_csd.App.{Packages, App, sends, dead_of, pop_all, pop_socket, put_socket, broadcast_ws}
use chat_app_csd.App.Socket.{history_entry}
use chat_app_csd.App.Post.{message_event, has_clients}
use chat_app_csd.App.Views.{
  shown, seats, screen, handle_server_message, render_message, render_all, signature_badge,
}

-- That many copies.
abbrev copies : {A : Type 0} → ℕ → A → List A
copies zero v = []
copies (suc n) v = v ∷ copies n v

module _ {A : Type 0} (ws : ℕ) where
  pub seats-pop_socket :
      (k : ℕ) (d : List (ℕ × A)) → nat_eq k ws ≡ false → seats ws (pop_socket k d) ≡ seats ws d
  seats-pop_socket k [] other = refl
  seats-pop_socket k ((j, v) ∷ d) other = ground (arith, seats-pop_socket k d other)

  pub seats-pop_all :
      (gone : List ℕ) (d : List (ℕ × A))
      → All (λ k. nat_eq k ws ≡ false) gone
      → seats ws (pop_all gone d) ≡ seats ws d
  seats-pop_all [] d others = refl
  seats-pop_all (k ∷ gone) d others =
      seats-pop_all gone (pop_socket k d) others.1 ∙ seats-pop_socket k d others.0

  pub seats-put_other :
      (k : ℕ) (v : A) (d : List (ℕ × A))
      → nat_eq k ws ≡ false
      → seats ws (put_socket k v d) ≡ seats ws d
  seats-put_other k v [] other = rw other refl
  seats-put_other k v ((j, w) ∷ d) other = ground (arith, seats-put_other k v d other)

  pub seats-put_socket :
      (v : A) (d : List (ℕ × A)) → seats ws d ≡ 0 → seats ws (put_socket ws v d) ≡ 1
  seats-put_socket v [] none_yet = ground arith
  seats-put_socket v ((j, w) ∷ d) none_yet = ground (arith, seats-put_socket v d)

dead_others :
    (ws : ℕ) (dead : ℕ → Bool) (cs : List (ℕ × String))
    → dead ws ≡ false
    → All (λ k. nat_eq k ws ≡ false) (dead_of dead cs)
dead_others ws dead [] alive = tt
dead_others ws dead ((k, name) ∷ cs) alive = elim (Bool-cases (dead k)) [
  | inl d ↦ rw d (ground (arith, ap dead), dead_others ws dead cs alive)
  | inr d ↦ rw d (dead_others ws dead cs alive)
]

module _ (p : Packages) (ws : ℕ) where
  pub screen-append :
      (xs ys : List (ℕ × Value)) → screen p ws (xs ++ ys) ≡ screen p ws xs ++ screen p ws ys
  unfolding screen
  screen-append [] ys = refl
  screen-append ((k, v) ∷ xs) ys = elim (Bool-cases (nat_eq k ws)) [
    | inl k ↦ rw k (rw (screen-append xs ys) (sym (append_assoc (handle_server_message p v) _ _)))
    | inr k ↦ rw k (screen-append xs ys)
  ]

  -- What each event for the socket adds to its page.
  pub screen_one : (v : Value) → screen p ws ((ws, v) ∷ []) ≡ handle_server_message p v
  unfolding screen
  screen_one v = ground (arith, append-nil (handle_server_message p v))

  pub screen_other : (k : ℕ) (v : Value) → nat_eq k ws ≡ false → screen p ws ((k, v) ∷ []) ≡ []
  unfolding screen
  screen_other k v other = rw other refl

  event_shown :
      (t : FeedItem)
      → handle_server_message p (message_event t.username t.plaintext t.timestamp) ≡ shown t ∷ []
  unfolding handle_server_message render_message signature_badge get get_or truthy
  event_shown t = refl

  pub render_all-history :
      (feed : List FeedItem)
      → render_all (
          list (
            items_of (
              map history_entry (
                map
                  (λ t. record {
                    username = t.username;
                    plaintext = t.plaintext;
                    timestamp = t.timestamp;
                  })
                  feed))))
        ≡ map shown feed
  unfolding render_all render_message signature_badge get get_or truthy
  render_all-history [] = refl
  render_all-history (t ∷ feed) = ap (◌∷◌ (shown t)) (render_all-history feed)

  -- Each seat of the socket is sent the event once.
  screen-sends :
      (dead : ℕ → Bool) (t : FeedItem) (cs : List (ℕ × String))
      → dead ws ≡ false
      → screen p ws (sends dead (message_event t.username t.plaintext t.timestamp) cs)
        ≡ copies (seats ws cs) (shown t)
  unfolding screen render_message signature_badge get get_or truthy
  screen-sends dead t [] alive = refl
  screen-sends dead t ((k, name) ∷ cs) alive = elim (Bool-cases (nat_eq k ws)) [
    | inl same ↦
        let open_seat : dead k ≡ false = ground (arith, ap dead, same, alive) in
        rw (open_seat, screen) (rw same (ap (◌∷◌ (shown t)) (screen-sends dead t cs alive)))
    | inr other ↦ elim (Bool-cases (dead k)) [
      | inl d ↦ rw (other, d) (screen-sends dead t cs alive)
      | inr d ↦ rw (d, screen) (rw other (screen-sends dead t cs alive))
    ]
  ]

  pub has_clients-seats : (cs : List (ℕ × String)) → seats ws cs ≡ 1 → has_clients p cs ≡ true
  has_clients-seats [] there = cc
  has_clients-seats (c ∷ cs) there = refl

  -- The page of the socket shows the feed, and its socket has one seat.
  pub record IsCurrent (app : App p) : Type 0 where
    pub seated : seats ws app.clients ≡ 1
    pub shows : screen p ws app.sent ≡ map shown app.db.feed

  -- A broadcast puts its message behind those of the page.
  pub screen-broadcast_ws :
      (dead : ℕ → Bool) (t : FeedItem) (app : App p)
      → dead ws ≡ false
      → seats ws app.clients ≡ 1
      → screen p ws
          (broadcast_ws p dead (message_event t.username t.plaintext t.timestamp) app).sent
        ≡ screen p ws app.sent ++ shown t ∷ []
  unfolding broadcast_ws
  screen-broadcast_ws dead t app alive seated =
      screen-append app.sent _ ∙ rw (screen-sends dead t app.clients alive, seated) refl

  -- So a page that shows the feed of before shows the feed with the message behind it.
  pub broadcast-IsCurrent :
      (dead : ℕ → Bool) (t : FeedItem) (app : App p)
      → dead ws ≡ false
      → seats ws app.clients ≡ 1
      → (feed : List FeedItem) → screen p ws app.sent ≡ map shown feed
      → app.db.feed ≡ feed ++ t ∷ []
      → IsCurrent (broadcast_ws p dead (message_event t.username t.plaintext t.timestamp) app)
  unfolding broadcast_ws
  broadcast-IsCurrent dead t app alive seated feed shows fed = record {
    seated =
        seats-pop_all ws (dead_of dead app.clients) app.clients
          (dead_others ws dead app.clients alive)
        ∙ seated;
    shows =
        (unfold broadcast_ws in screen-broadcast_ws dead t app alive seated)
        ∙ rw (shows, fed) (sym (map-append shown feed (t ∷ [])));
  }
