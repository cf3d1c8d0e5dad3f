-- ===== src/Tests/SharedDbs.antt =====
-- Examples for the database of the load balancer.
use chat_app_csd.Prelude.{◌+◌, String, ◌≡◌, refl, List, [], ◌∷◌, length, pos, str_int}
use chat_app_csd.Value.{Value, Fields, end, field, text, null, int}
use chat_app_csd.Balancer.SharedDb.{
  Formats, SharedMessageRecord, SharedDb, new_shared_db, single, batch, read_all, clear,
  operate_all, Operation, get_messages_bytes, add_batch, index_of,
}
use chat_app_csd.Balancer.SharedDb.Reference.{put_all, put_items}
use chat_app_csd.Balancer.SharedDb.Indexed.{position}
use chat_app_csd.Balancer.SharedDb.Answers.{shared_db_lem}

abbrev shown_int : Value → String
shown_int (int n) = str_int n
shown_int v = ""

-- Only whether there are records
abbrev any_records : List SharedMessageRecord → String
any_records [] = "[]"
any_records (r ∷ rs) = r.msg_id

abbrev formats : Formats
formats = record { shown = shown_int; marshal = any_records; marshal_empty = refl }

-- A message that the load balancer enters itself, and what a backend posts of it.
abbrev posted_item : Fields
posted_item =
    field "msg_id" (text "m1")
      (field "signature" (text "sig") (field "plaintext" (text "other") end))

abbrev nameless_item : Fields
nameless_item = field "msg_id" null end

abbrev numbered_item : Fields
numbered_item = field "id" (int (pos 7)) (field "msg" (text "hello") end)

abbrev operations : List (Operation formats)
operations =
    single "m0" "eve" "gone" (pos 1)
    ∷ clear
    ∷ single "m1" "bob" "hi" (pos 5)
    ∷ read_all
    ∷ batch (posted_item ∷ nameless_item ∷ numbered_item ∷ [])
    ∷ []

abbrev db_after : SharedDb
db_after = operate_all formats operations new_shared_db

shared_db_lem_example :
    let rows = put_all formats operations [] in
    ((get_messages_bytes formats db_after).0 ≡ formats.marshal rows)
    × ((k : String) → index_of k db_after.index_map ≡ position k rows)
    × ((items : List Fields)
        → (add_batch formats items db_after).0 + length rows
          ≡ length (put_items formats items rows))
shared_db_lem_example = shared_db_lem formats operations

-- The record takes the signature and keeps its text; the item without an id is left out.
shared_db_tests :
    (db_after.messages
      ≡ record {
        id = 1;
        msg_id = "m1";
        username = "bob";
        display_name = "bob";
        ciphertext = "";
        signature = "sig";
        hmac_digest = "";
        timestamp = "5";
        plaintext = "hi";
      }
        ∷ record {
          id = 2;
          msg_id = "7";
          username = "";
          display_name = "";
          ciphertext = "";
          signature = "";
          hmac_digest = "";
          timestamp = "";
          plaintext = "hello";
        }
        ∷ [])
    × ((add_batch formats (posted_item ∷ numbered_item ∷ []) db_after).0 ≡ 0)
    × (put_all formats operations [] ≡ db_after.messages)
unfolding operate_all add_batch put_all str_int
shared_db_tests = (refl, refl, refl)
