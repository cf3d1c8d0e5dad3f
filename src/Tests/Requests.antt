-- ===== src/Tests/Requests.antt =====
-- Examples for the handlers of app.py.
use chat_app_csd.App.Socket.{Received, message, ws_turn, ws_row, ws_handler}
use chat_app_csd.App.Runs.{then_next, received, started, Handled, ws_handler_lem}
use chat_app_csd.Integrity.{verify_chain, hash_after, compute_record_hash, record_payload}
use chat_app_csd.Prelude.{
  ◌+◌, String, ◌≡◌, refl, sym, ◌∙◌, ◌≢◌, false, none, some, [], ◌∷◌, ◌++◌, ◌==◌, eq_iff, pos,
  str_int, strip, List,
}
use chat_app_csd.App.Trusted.{IsTrusted}
use chat_app_csd.App.Trusted.Steps.{Run-IsTrusted}
use chat_app_csd.Tests.{packages, app, draw, posted, request}
use chat_app_csd.App.{Draw, answer, App, Keys, canonical_message, find_socket}
use chat_app_csd.App.Post.{
  Posted, body_data, post_message, read_posted, duplicate_body, named, store_message, sealed_row,
  ok_body,
}
use chat_app_csd.Db.{start, message_exists, save_message, get_last_hash}
use chat_app_csd.App.Signed.{IsGenuine}
use chat_app_csd.App.Chained.{IsChained}
use chat_app_csd.Value.{get, ◌or◌, get_or, truthy, dict, str, field, text, end, int, list, nil}
use chat_app_csd.Integrity.{verify_chain, verify_from}
use chat_app_csd.App.Answers.{retry_is_duplicate}
use chat_app_csd.App.Routes.{get_feed, health_counts}
use chat_app_csd.App.Feed.{feed_entry, post_then_feed}
use chat_app_csd.Store.{Row}
use chat_app_csd.Integrity.Chain.{all_true}
use chat_app_csd.App.Forks.{sockets_fork}
use chat_app_csd.Signatures.{sign_message}
use chat_app_csd.CryptoUtils.{encrypt_text}
use chat_app_csd.Db.Pipeline.{pending}
use chat_app_csd.App.Race.{racing_requests}
use chat_app_csd.App.Sockets.{IsPaired}

abbrev later : Draw
later = record draw { now = pos 1700000000500; uuid = "u-2"; elapsed = 9 }

request_body : body_data request ≡ some (dict posted)
unfolding body_data ◌or◌ truthy
request_body = refl

abbrev fields : Posted
fields = read_posted packages.config.repr posted

read_fields : fields ≡ record { client_name = "ann"; msg_text = "hi"; msg_id = "m-1" }
unfolding read_posted strip get get_or ◌or◌ truthy str
read_fields = refl

app-IsGenuine : IsGenuine packages app
unfolding start
app-IsGenuine = record { keys = tt; rows = tt }

app-IsChained : IsChained packages app
unfolding start verify_chain verify_from
app-IsChained = record { verified = refl; continued = refl }

retry_is_duplicate_example :
    let once = (post_message packages request draw app).1 in
    let (response, twice) = post_message packages request later once in
    (response ≡ answer 200 (duplicate_body fields))
    × (twice.db ≡ once.db)
    × (twice.last_hash ≡ once.last_hash)
    × (twice.keypair_cache ≡ once.keypair_cache)
    × (twice.sent ≡ once.sent)
retry_is_duplicate_example =
    retry_is_duplicate packages request posted draw later app request_body (rw read_fields refl)
      (rw read_fields refl) (rw read_fields refl)

fresh_id : message_exists (named fields draw).msg_id app.db ≡ false
unfolding message_exists start
fresh_id = refl

post_then_feed_example :
    let after = (post_message packages request draw app).1 in
    ((get_feed packages 4 after).0
      ≡ (get_feed packages 4 app).0 ++ feed_entry (named fields draw) draw ∷ [])
    × ((health_counts packages after).1 ≡ (health_counts packages app).1 + 1)
post_then_feed_example =
    post_then_feed packages request posted draw 4 app request_body (rw read_fields refl)
      (rw read_fields refl) fresh_id

-- Before any socket has joined.
abbrev quiet : App packages
quiet = record app { clients = [] }

abbrev join : Received
join = message (dict (field "type" (text "join") (field "username" (text "bob") end)))

abbrev joined : App packages
joined = (ws_turn packages 7 none draw join quiet).1

quiet-IsPaired : IsPaired packages quiet
quiet-IsPaired = record { paired = refl; short = tt }

-- A socket that joins, and then sends a list, whose `get` raises.
abbrev visit : List (Draw × Received)
visit = (draw, join) ∷ (draw, message (list nil)) ∷ []

ws_handler_lem_example :
    let after = ws_handler packages 7 none visit quiet in
    (find_socket 7 after.clients ≡ none)
    × (find_socket 7 after.client_keys ≡ none)
    × IsPaired packages after
ws_handler_lem_example = ws_handler_lem packages 7 none visit quiet quiet-IsPaired

quiet-IsTrusted : IsTrusted packages quiet
unfolding start
quiet-IsTrusted = record { genuine = record { keys = tt; rows = tt }; sockets = tt }

Run-IsTrusted_example : IsTrusted packages (post_message packages request later joined).1
Run-IsTrusted_example =
    Run-IsTrusted packages refl
      (then_next (Handled.posted request later) (then_next (received 7 none draw join) started))
      quiet-IsTrusted

-- Two sockets' messages, the second saved before the writer stores the first.
abbrev socket_keys : Keys packages
socket_keys = ("key", "key")

abbrev first_row : Row
first_row = ws_row packages socket_keys "ann" "hi" (int (pos 5)) draw app

abbrev saved_first : App packages
saved_first = record app { db = (save_message packages.config first_row app.db).1 }

abbrev second_row : Row
second_row = ws_row packages socket_keys "bob" "ho" (int (pos 6)) later saved_first

abbrev behind_first : String
behind_first = hash_after packages.config.repr packages.sha256_hex first_row.record_hash second_row

fork_seen : behind_first == second_row.record_hash ≡ false
unfolding ws_row compute_record_hash record_payload str str_int start save_message get_last_hash
    sign_message encrypt_text canonical_message
fork_seen = refl

fork_apart : behind_first ≢ second_row.record_hash
fork_apart = λ e. cc (sym fork_seen ∙ (eq_iff behind_first second_row.record_hash).1 e)

sockets_fork_example :
    (second_row.prev_hash ≡ first_row.prev_hash)
    × (all_true (
          verify_chain packages.config.repr packages.sha256_hex
            (first_row ∷ second_row ∷ first_row ∷ []))
        ≡ false)
sockets_fork_example =
    sockets_fork packages socket_keys socket_keys "ann" "bob" "hi" "ho" (int (pos 5)) (int (pos 6))
      draw later app [] (first_row ∷ []) (unfold start in refl) fork_apart

racing_requests_example :
    let once = (store_message packages fields draw app).1 in
    let lost = (sealed_row packages fields later once).0 in
    let (response, twice) = store_message packages fields later once in
    (response ≡ answer 200 (ok_body fields (pos 1700000000500)))
    × (twice.db.feed ≡ once.db.feed)
    × (pending twice.db ≡ pending once.db)
    × (twice.db.working ≡ once.db.working)
    × (twice.db.committed ≡ once.db.committed)
    × (twice.last_hash ≡ hash_after packages.config.repr packages.sha256_hex once.last_hash lost)
racing_requests_example = racing_requests packages fields draw later app
