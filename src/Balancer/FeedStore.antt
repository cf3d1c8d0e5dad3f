-- ===== src/Balancer/FeedStore.antt =====
-- `AtomicFeedStore` of load_balancer/main.go: the bytes of the feed as it is built up, and the
-- channel to the worker. `held` are the messages that the worker and the requests for the feed have
-- received from the channel and not appended yet, each in a variable `data` of its goroutine. A
-- byte slice is the list of the pieces that were appended to it. The copy in /dev/shm is left out,
-- and the set `seen` with it, which only the recovery from that copy reads.
pub mod Contents
use chat_app_csd.App.Threads.Counts.{occurrences}
use chat_app_csd.Prelude.{
  ℕ, zero, suc, ◌+◌, ◌-◌, String, ◌≡◌, Bool, Option, none, some, List, [], ◌∷◌, ◌++◌, length, ltb,
  if◌then◌else◌,
}

pub record FeedStore : Type 0 where
  pub builder : List String
  pub count : ℕ
  pub channel : List String
  pub held : List String

-- `make(chan []byte, 50000)`
abbrev pub channel_max : ℕ
channel_max = 50000

abbrev pub new_feed_store : FeedStore
new_feed_store = record { builder = []; count = 0; channel = []; held = [] }

abbrev pub with_separator : List String → List String
with_separator [] = "[" ∷ []
with_separator (b ∷ bs) = (b ∷ bs) ++ "," ∷ []

-- The section under `mu`
pub append_message : String → FeedStore → FeedStore
append_message bytes s = record s {
  builder = with_separator s.builder ++ bytes ∷ [];
  count = s.count + 1;
}

-- A send that would block appends the message at once.
unfoldable pub add_message : String → FeedStore → FeedStore
unfolding append_message
add_message bytes s =
    if ltb (length s.channel) channel_max
    then record s { channel = s.channel ++ bytes ∷ [] }
    else append_message bytes s

-- A receive from the channel, of the worker or of a request for the feed; it has the message until
-- its section under `mu`.
unfoldable pub receive : FeedStore → FeedStore
receive s = elim s.channel [
  | [] ↦ s
  | bytes ∷ rest ↦ record s { channel = rest; held = s.held ++ bytes ∷ [] }
]

-- The section of the one that has received `bytes`
unfoldable pub append_held : List String → String → List String → FeedStore → FeedStore
unfolding append_message
append_held before bytes after s = record (append_message bytes s) { held = before ++ after }

-- The loop of `GetFeedBytes` that empties the channel, when nothing comes between
pub drain : List String → FeedStore → FeedStore
unfolding append_message
drain [] s = s
drain (bytes ∷ rest) s = drain rest (append_message bytes (record s { channel = rest }))

abbrev pub closed : List String → List String
closed [] = "[]" ∷ []
closed (b ∷ bs) = (b ∷ bs) ++ "]" ∷ []

unfoldable pub get_feed_bytes : FeedStore → List String × FeedStore
unfolding drain
get_feed_bytes s = let drained = drain s.channel s in (closed drained.builder, drained)

-- `Reset`: a turn of its loop, and its section under `mu`
unfoldable pub discard : FeedStore → FeedStore
discard s = elim s.channel [ [] ↦ s | bytes ∷ rest ↦ record s { channel = rest } ]

unfoldable pub clear_builder : FeedStore → FeedStore
clear_builder s = record s { builder = []; count = 0 }

-- How often each message has been added and not been dropped by a reset
abbrev pub Ledger : Type 0
Ledger = String → ℕ

-- What the worker and any number of concurrent requests do, in any order: requests for the feed
-- receive and append like the worker.
pub data Uses : Ledger → FeedStore → Type 0 where
  unused : Uses (λ k. 0) new_feed_store
  then_add :
      {ledger : Ledger} {t : FeedStore} (bytes : String)
      → Uses ledger t
      → Uses (λ k. ledger k + occurrences k (bytes ∷ [])) (add_message bytes t)
  then_receive : {ledger : Ledger} {t : FeedStore} → Uses ledger t → Uses ledger (receive t)
  then_append :
      {ledger : Ledger} {t : FeedStore} (before : List String) (bytes : String)
      (after : List String)
      → t.held ≡ before ++ bytes ∷ after
      → Uses ledger t
      → Uses ledger (append_held before bytes after t)
  then_discard :
      {ledger : Ledger} {t : FeedStore} (bytes : String) (rest : List String)
      → t.channel ≡ bytes ∷ rest
      → Uses ledger t
      → Uses (λ k. ledger k - occurrences k (bytes ∷ [])) (discard t)
  then_clear :
      {ledger : Ledger} {t : FeedStore}
      → Uses ledger t
      → Uses (λ k. occurrences k t.held + occurrences k t.channel) (clear_builder t)
