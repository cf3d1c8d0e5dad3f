-- ===== src/Balancer/FeedStore/Contents.antt =====
-- What `GetFeedBytes` of load_balancer/main.go shows of the messages that were added.
use chat_app_csd.Prelude.{
  ◌-◌, ◌+◌, String, ◌≡◌, refl, sym, ap, ◌∙◌, inl, inr, Bool-cases, List, [], ◌∷◌, ◌++◌,
  append_assoc, arith, length, length-append, ltb,
}
use chat_app_csd.App.Threads.Counts.{occurrences, occurrences-append}
use chat_app_csd.Balancer.FeedStore.{
  FeedStore, Ledger, channel_max, with_separator, closed, append_message, add_message, receive,
  append_held, drain, get_feed_bytes, discard, clear_builder, Uses, unused, then_add, then_receive,
  then_append, then_discard, then_clear,
}

-- The pieces of a list with these items, with commas between them and in brackets.
abbrev commas : List String → List String
commas [] = []
commas (x ∷ xs) = "," ∷ x ∷ commas xs

abbrev begun : List String → List String
begun [] = []
begun (x ∷ xs) = "[" ∷ x ∷ commas xs

abbrev pub bracketed : List String → List String
bracketed [] = "[]" ∷ []
bracketed (x ∷ xs) = ("[" ∷ x ∷ commas xs) ++ "]" ∷ []

-- The builder has the items `items`; with what is in hands and what waits, they are the ledger.
record Holding (ledger : Ledger) (s : FeedStore) : Type 0 where
  pub items : List String
  pub built : s.builder ≡ begun items
  pub counted : s.count ≡ length items
  pub kept :
      (k : String) → occurrences k items + occurrences k s.held + occurrences k s.channel ≡ ledger k

commas-snoc : (xs : List String) (x : String) → commas (xs ++ x ∷ []) ≡ commas xs ++ "," ∷ x ∷ []
commas-snoc [] x = refl
commas-snoc (y ∷ xs) x = rw (commas-snoc xs x) refl

begun-snoc :
    (xs : List String) (x : String) → begun (xs ++ x ∷ []) ≡ with_separator (begun xs) ++ x ∷ []
begun-snoc [] x = refl
begun-snoc (y ∷ xs) x = rw (commas-snoc xs x) (rw append_assoc refl)

closed-begun : (xs : List String) → closed (begun xs) ≡ bracketed xs
closed-begun [] = refl
closed-begun (x ∷ xs) = refl

-- A message goes from where it waits into the builder.
append-Holding :
    (ledger later : Ledger) (bytes : String) (s : FeedStore) (held channel : List String)
    → (h : Holding ledger s)
    → ((k : String)
        → occurrences k held + occurrences k channel + occurrences k (bytes ∷ []) + ledger k
          ≡ occurrences k s.held + occurrences k s.channel + later k)
    → Holding later (record (append_message bytes s) { held = held; channel = channel })
unfolding append_message
append-Holding ledger later bytes s held channel h moved = record {
  items = h.items ++ bytes ∷ [];
  built = rw h.built (sym (begun-snoc h.items bytes));
  counted = rw h.counted (omega (arith, length-append h.items (bytes ∷ [])));
  kept = λ k. omega (arith, h.kept k, moved k, occurrences-append k h.items (bytes ∷ []));
}

drain-Holding :
    (ledger : Ledger) (waiting : List String) (s : FeedStore)
    → s.channel ≡ waiting
    → Holding ledger s
    → Holding ledger (drain waiting s)
      × ((drain waiting s).channel ≡ [])
      × ((drain waiting s).held ≡ s.held)
unfolding drain append_message
drain-Holding ledger [] s e h = (h, e, refl)
drain-Holding ledger (bytes ∷ rest) s e h =
    let next : FeedStore = append_message bytes (record s { channel = rest }) in
    let held : Holding ledger next =
      append-Holding ledger ledger bytes s s.held rest h (λ k. rw e (omega arith)) in
    drain-Holding ledger rest next refl held

add_message-Holding :
    (ledger : Ledger) (bytes : String) (s : FeedStore)
    → Holding ledger s
    → Holding (λ k. ledger k + occurrences k (bytes ∷ [])) (add_message bytes s)
unfolding add_message
add_message-Holding ledger bytes s h = elim (Bool-cases (ltb (length s.channel) channel_max)) [
  | inl room ↦ rw room (record {
    items = h.items;
    built = h.built;
    counted = h.counted;
    kept = λ k. omega (arith, h.kept k, occurrences-append k s.channel (bytes ∷ []));
  })
  | inr full ↦ rw full (
      append-Holding ledger (λ k. ledger k + occurrences k (bytes ∷ [])) bytes s s.held s.channel h
        (λ k. omega arith))
]

receive-Holding :
    (ledger : Ledger) (waiting : List String) (s : FeedStore)
    → s.channel ≡ waiting
    → Holding ledger s
    → Holding ledger (receive s)
unfolding receive
receive-Holding ledger [] s e h = rw (e, receive) h
receive-Holding ledger (bytes ∷ rest) s e h =
    rw (e, receive)
      (record {
        items = h.items;
        built = h.built;
        counted = h.counted;
        kept = λ k.
            omega (arith, h.kept k, occurrences-append k s.held (bytes ∷ []), ap (occurrences k) e);
      })

append_held-Holding :
    (ledger : Ledger) (before : List String) (bytes : String) (after : List String) (s : FeedStore)
    → s.held ≡ before ++ bytes ∷ after
    → Holding ledger s
    → Holding ledger (append_held before bytes after s)
unfolding append_held append_message
append_held-Holding ledger before bytes after s e h =
    append-Holding ledger ledger bytes s (before ++ after) s.channel h (λ k. omega (
      arith,
      ap (occurrences k) e,
      occurrences-append k before (bytes ∷ after),
      occurrences-append k before after,
    ))

discard-Holding :
    (ledger : Ledger) (bytes : String) (rest : List String) (s : FeedStore)
    → s.channel ≡ bytes ∷ rest
    → Holding ledger s
    → Holding (λ k. ledger k - occurrences k (bytes ∷ [])) (discard s)
unfolding discard
discard-Holding ledger bytes rest s e h =
    rw (e, discard)
      (record {
        items = h.items;
        built = h.built;
        counted = h.counted;
        kept = λ k. omega (arith, h.kept k, ap (occurrences k) e);
      })

Uses-Holding : {ledger : Ledger} {s : FeedStore} → Uses ledger s → Holding ledger s
unfolding clear_builder
Uses-Holding unused = record { items = []; built = refl; counted = refl; kept = λ k. refl }
Uses-Holding (then_add {ledger} {t} bytes run) =
    add_message-Holding ledger bytes t (Uses-Holding run)
Uses-Holding (then_receive {ledger} {t} run) =
    receive-Holding ledger t.channel t refl (Uses-Holding run)
Uses-Holding (then_append {ledger} {t} before bytes after e run) =
    append_held-Holding ledger before bytes after t e (Uses-Holding run)
Uses-Holding (then_discard {ledger} {t} bytes rest e run) =
    discard-Holding ledger bytes rest t e (Uses-Holding run)
Uses-Holding (then_clear {ledger} {t} run) = record {
  items = [];
  built = refl;
  counted = refl;
  kept = λ k. omega arith;
}

-- Let messages be added, the worker and any number of requests for the feed receive messages from
-- the channel and append them, and resets drop what waits and clear the feed, in any order, also
-- between the receive and the append of another. At any moment, the bytes that a request reads
-- under the lock are the pieces of a list, in brackets and with commas, and the count is its length;
-- its items, the messages in the hands of the worker and of requests, and those that wait in the
-- channel are together the messages that were added and not dropped by a reset, each as often. A
-- request that empties the channel without another step between, and then reads, leaves out
-- exactly the messages that are in the hands of others at its start. So no message is lost, one
-- in the hands of the worker or of another request is not shown, and a message that is added twice
-- is shown twice.
pub get_feed_bytes_lem :
    (ledger : Ledger) (s : FeedStore)
    → Uses ledger s
    → let (feed, after) = get_feed_bytes s in
      ((items : List String) × (closed s.builder ≡ bracketed items)
        × (s.count ≡ length items)
        × ((k : String)
            → occurrences k items + occurrences k s.held + occurrences k s.channel ≡ ledger k))
      × ((items : List String) × (feed ≡ bracketed items)
          × (after.count ≡ length items)
          × ((k : String) → occurrences k items + occurrences k s.held ≡ ledger k))
unfolding get_feed_bytes
get_feed_bytes_lem ledger s run =
    let now = Uses-Holding run in
    let (h, empty, same) = drain-Holding ledger s.channel s refl now in
    (
      (now.items, ap closed now.built ∙ closed-begun now.items, now.counted, now.kept),
      (
        h.items,
        ap closed h.built ∙ closed-begun h.items,
        h.counted,
        λ k. omega (arith, h.kept k, ap (occurrences k) empty, ap (occurrences k) same),
      ),
    )
