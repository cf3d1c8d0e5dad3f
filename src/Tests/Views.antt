-- ===== src/Tests/Views.antt =====
-- Examples for the page of a socket and for the shapes of what app.py sends.
use chat_app_csd.Prelude.{
  if◌then◌else◌, ◌≡◌, refl, true, false, none, [], arith, All, some, Option, pos,
}
use chat_app_csd.Tests
use chat_app_csd.Tests.{packages, app, draw, row, request}
use chat_app_csd.Value.{
  Fields, field, text, end, dict, get, truthy, ◌or◌, list, null, items_of, Value, float, int,
  value_error,
}
use chat_app_csd.Db.{start}
use chat_app_csd.App.{App, Keys}
use chat_app_csd.App.Post.{Posted, post_message, body_data, message_event}
use chat_app_csd.App.Socket.{message, ws_turn}
use chat_app_csd.App.Runs.{then_next, started, received, Run}
use chat_app_csd.App.Views.{shown, posted}
use chat_app_csd.App.Views.Wire.{Wire, is_exact}
use chat_app_csd.App.Schema.{
  is_event, keeps_contract, message_contract, validate, feed_shape, is_json,
}
use chat_app_csd.App.Schema.Sending.{IsEvent}
use chat_app_csd.App.Schema.Events.{Run-SentEvents, RunJsonTimes, GivesJsonTime}
use chat_app_csd.App.Routes.{get_feed}
use chat_app_csd.App.Schema.Replies.{replies_valid}

-- No socket has joined yet.
abbrev quiet : App packages
quiet = record app { clients = [] }

abbrev join : Fields
join = field "type" (text "join") (field "username" (text "bob") end)

abbrev joined : App packages
joined = (ws_turn packages 7 none draw (message (dict join)) quiet).1

-- What `JSON.parse` makes of numbers that are not exact is `none` here.
abbrev exact_only : Value → Option Value
exact_only v = if is_exact v then some v else none

exact_arrives : (v : Value) → is_exact v ≡ true → exact_only v ≡ some v
exact_arrives v h = rw h refl

abbrev wire : Wire
wire = record { parsed = exact_only; parsed_exact = exact_arrives }

abbrev keys : Keys packages
keys = ("key", "key")

abbrev hello : Posted
hello = record { client_name = "ann"; msg_text = "hi"; msg_id = "m-1" }

-- A socket that joins, and then gives a time of its own.
abbrev timed : Fields
timed =
    field "type" (text "message") (field "text" (text "hi") (field "timestamp" (int (pos 5)) end))

abbrev visit_run :
    Run packages quiet (ws_turn packages 7 (some "bob") draw (message (dict timed)) joined).1
visit_run =
    then_next (received 7 (some "bob") draw (message (dict timed)))
      (then_next (received 7 none draw (message (dict join))) started)

visit_times : RunJsonTimes packages visit_run
unfolding RunJsonTimes GivesJsonTime is_json get
visit_times = (refl, (refl, tt))

Run-SentEvents_example :
    All IsEvent (ws_turn packages 7 (some "bob") draw (message (dict timed)) joined).1.sent
unfolding start
Run-SentEvents_example = Run-SentEvents packages visit_run visit_times tt tt

abbrev not_a_number : Value
not_a_number = float (record { shown = "nan"; is_zero = false; trunc = value_error })

request_dict : body_data request ≡ some (dict Tests.posted)
unfolding body_data ◌or◌ truthy
request_dict = refl

replies_valid_example :
    let (response, after) = post_message packages request draw quiet in
    (keeps_contract message_contract response ≡ true)
    × (validate feed_shape (list (items_of (get_feed packages 4 after).0)) ≡ true)
replies_valid_example =
    replies_valid packages request Tests.posted draw 4 quiet request_dict
      (unfold start in omega arith)

event_tests :
    (is_event (message_event "ann" "hi" null) ≡ true)
    × (is_event (dict (field "type" (text "message") end)) ≡ false)
    × (is_event null ≡ false)
    × (is_event (message_event "ann" "hi" not_a_number) ≡ false)
unfolding is_event validate is_json
event_tests = (refl, refl, refl, refl)
