-- ===== src/Tests/Services.antt =====
-- Examples for the shared service of dbservice/main.py.
use chat_app_csd.Prelude.{String, ◌≡◌, refl, Option, none, some, List, [], ◌∷◌, map, pos, arith}
use chat_app_csd.Tests.{config, row}
use chat_app_csd.DbService.Twice.{posted_twice}
use chat_app_csd.DbService.Arrival.{posted_batch_arrives, arrived, unnumbered}
use chat_app_csd.DbService.{
  TextEngine, Params, Table, params_of, params_of_all, service_batch, insert_all, service_reset,
}
use chat_app_csd.Value.{
  Value, text, dict, field, end, nil, cons, list, get, get_or, str, items_of, null,
}
use chat_app_csd.Db.{returned}
use chat_app_csd.Db.Writer.{payload}
use chat_app_csd.Store.Batch.{fresh_rows}
use chat_app_csd.DbService.Requests.{IsSound, Served-IsSound, then_batch, then_reset, unserved}

abbrev pub column : Value → Option String
column (text s) = some s
column _ = none

abbrev pub text_engine : TextEngine
text_engine = record { id_gap = 0; column_text = column; column_text_text = λ s. refl }

abbrev repr : Value → String
repr v = "[...]"

abbrev item : Value
item =
    dict (field "msg_id" (text "a") (field "username" (text "ann") (field "msg" (text "hi") end)))

abbrev no_rows : Table
no_rows = record { rows = []; seq = 0 }

abbrev params : List Params
params =
    record {
      msg_id = text "a";
      username = text "ann";
      display_name = text "ann";
      ciphertext = text "";
      signature = text "";
      hmac_digest = text "";
      timestamp = text "";
      plaintext = text "hi";
    }
    ∷ []

item_read : params_of_all repr (cons item nil) ≡ returned params
unfolding params_of_all params_of get get_or str
item_read = refl

posted_once : (service_batch text_engine repr (list (cons item nil)) no_rows).0 ≡ returned 1
unfolding service_batch params_of_all params_of get get_or str insert_all
posted_once = refl

posted_batch_arrives_example :
    let sent = items_of (map (payload config) (row "a" (pos 1) ∷ row "a" (pos 2) ∷ [])) in
    let (result, after) = service_batch text_engine config.repr (list sent) no_rows in
    (result ≡ returned 2)
    × (map unnumbered after.rows
        ≡ map (arrived config) (fresh_rows [] (row "a" (pos 1) ∷ row "a" (pos 2) ∷ [])))
posted_batch_arrives_example =
    posted_batch_arrives config text_engine (row "a" (pos 1)) (row "a" (pos 2) ∷ []) no_rows

posted_twice_example :
    let once = (service_batch text_engine repr (list (cons item nil)) no_rows).1 in
    let (result, twice) = service_batch text_engine repr (list (cons item nil)) once in
    (result ≡ returned 1) × (twice.rows ≡ once.rows)
posted_twice_example =
    posted_twice text_engine repr item nil params no_rows item_read (("a", refl), tt) posted_once

abbrev served : Table
served =
    (service_batch text_engine repr (list (cons item (cons item nil)))
      (service_batch text_engine repr null (service_reset no_rows)).1).1

Served-IsSound_example : IsSound served
Served-IsSound_example =
    Served-IsSound text_engine repr {t = no_rows}
      (then_batch (list (cons item (cons item nil))) (then_batch null (then_reset unserved)))
      (record { distinct = tt; ascending = omega arith })
