-- ===== src/Tests/Balancers.antt =====
-- Examples for the load balancer.
use chat_app_csd.Prelude.{
  ℕ, ◌+◌, ◌*◌, String, ◌≡◌, refl, Bool, true, false, none, some, List, [], ◌∷◌, ltb, leb, length,
  arith,
}
use chat_app_csd.App.Threads.Counts.{occurrences}
use chat_app_csd.Balancer.FeedStore.{
  FeedStore, Ledger, new_feed_store, closed, add_message, receive, append_held, get_feed_bytes,
  discard, clear_builder, Uses, unused, then_add, then_receive, then_append,
}
use chat_app_csd.Balancer.FeedStore.Contents.{get_feed_bytes_lem, bracketed}
use chat_app_csd.Balancer.Selection.{
  Scores, Server, select_best, set_alive, record_failure, record_success, is_available,
}
use chat_app_csd.Balancer.Selection.Least.{select_best_lem, Selected}

-- One message three times; the worker has one in its hands, a request has appended another, and
-- the third waits in the channel.
abbrev repeated : FeedStore
repeated = add_message "{1}" (
    append_held ("{1}" ∷ []) "{1}" []
      (receive (receive (add_message "{1}" (add_message "{1}" new_feed_store)))))

abbrev three : Ledger
three =
    λ k. 0 + occurrences k ("{1}" ∷ []) + occurrences k ("{1}" ∷ []) + occurrences k ("{1}" ∷ [])

repeated-Uses : Uses three repeated
unfolding add_message receive append_held
repeated-Uses = then_add "{1}" (
    then_append ("{1}" ∷ []) "{1}" [] refl
      (then_receive (then_receive (then_add "{1}" (then_add "{1}" unused)))))

get_feed_bytes_lem_example :
    let (feed, after) = get_feed_bytes repeated in
    ((items : List String) × (closed repeated.builder ≡ bracketed items)
      × (repeated.count ≡ length items)
      × ((k : String)
          → occurrences k items + occurrences k repeated.held + occurrences k repeated.channel
            ≡ three k))
    × ((items : List String) × (feed ≡ bracketed items)
        × (after.count ≡ length items)
        × ((k : String) → occurrences k items + occurrences k repeated.held ≡ three k))
get_feed_bytes_lem_example = get_feed_bytes_lem three repeated repeated-Uses

feed_tests :
    ((get_feed_bytes new_feed_store).0 ≡ "[]" ∷ [])
    × ((get_feed_bytes repeated).0 ≡ "[" ∷ "{1}" ∷ "," ∷ "{1}" ∷ "]" ∷ [])
    × (closed (append_held [] "{1}" [] (clear_builder repeated)).builder ≡ "[" ∷ "{1}" ∷ "]" ∷ [])
    × ((discard repeated).channel ≡ [])
unfolding get_feed_bytes add_message receive append_held clear_builder discard
feed_tests = (refl, refl, refl, refl)

ltb_irrefl : (s : ℕ) → ltb s s ≡ false
ltb_irrefl s = ground arith

ltb_trans : (r s t : ℕ) → ltb r s ≡ true → ltb s t ≡ true → ltb r t ≡ true
ltb_trans r s t h k = ground arith

-- Scores in halves.
abbrev scores : Scores
scores = record {
  Score = ℕ;
  lt = ltb;
  le = leb;
  max_float = 1000000;
  with_in_flight = λ s n. s + 3 * n;
  lt_irrefl = ltb_irrefl;
  lt_trans = ltb_trans;
}

abbrev server : Bool → ℕ → ℕ → Server scores
server alive score in_flight = record {
  alive = alive;
  consecutive_fail = 0;
  cooldown_until = some 0;
  health_load_score = score;
  active_in_flight = in_flight;
}

abbrev servers : List (Server scores)
servers = server false 0 0 ∷ server true 60 0 ∷ server true 40 8 ∷ []

select_best_lem_example : Selected scores 120 5 none servers (select_best scores 120 5 none servers)
select_best_lem_example = select_best_lem scores 120 5 none servers

selection_tests :
    (select_best scores 120 5 none servers ≡ some (server true 60 0))
    × (select_best scores 50 5 none servers ≡ some (server true 60 0))
    × (select_best scores 120 5 none (server false 0 0 ∷ []) ≡ none)
unfolding select_best
selection_tests = (refl, refl, refl)

-- The third failure in a row takes a server out for the cooldown.
abbrev failed_thrice : Server scores
failed_thrice =
    set_alive scores false 9
      (set_alive scores false 8 (set_alive scores false 7 (server true 60 0)))

failure_tests :
    (failed_thrice.alive ≡ false)
    × (is_available scores 2009 failed_thrice ≡ false)
    × (is_available scores 2010 failed_thrice ≡ true)
    × ((set_alive scores true 10 failed_thrice).consecutive_fail ≡ 0)
unfolding set_alive is_available
failure_tests = (refl, refl, refl, refl)

-- `record_failure` takes a server out at the fifth failure in a row; a success brings it back.
request_tests :
    ((record_failure scores 8 (record_failure scores 7 (server true 60 0))).alive ≡ true)
    × ((record_failure scores 12 (record_failure scores 11 failed_thrice)).cooldown_until
        ≡ some 2012)
    × ((record_success scores failed_thrice).alive ≡ true)
unfolding set_alive record_failure record_success
request_tests = (refl, refl, refl)
