-- ===== src/App/Schema/Times.antt =====
-- The timestamps of the feed of app.py are written as JSON if those of the sockets' messages are.
use chat_app_csd.Prelude.{
  String, true, ◌≡◌, refl, inl, inr, Bool-cases, Option, none, some, List, [], ◌∷◌, map, All,
  All-append, ℤ, is_empty, contains,
}
use chat_app_csd.Value.{Value, Fields, Items, dict, nil, cons, text, get, str, ◌or◌, truthy}
use chat_app_csd.Store.{Row, executemany}
use chat_app_csd.Db.{Db, Config, Outcome, raised, returned, FeedItem, feed_item, save_message}
use chat_app_csd.Db.Saving.{feed-save_message}
use chat_app_csd.Db.Ingest.{
  parse_item, parse_items, add_row, item_row, timestamp_of, ingest, ingest_parsed,
  save_messages_batch,
}
use chat_app_csd.Db.Stored.{All-snoc}
use chat_app_csd.App.Schema.{is_json}

-- The message can be sent to a page.
abbrev pub HasJsonTime : FeedItem → Type 0
HasJsonTime t = is_json t.timestamp ≡ true

abbrev RowTimed : Row → Type 0
RowTimed r = is_json r.timestamp ≡ true

pub or-is_json : (a b : Value) → is_json a ≡ true → is_json b ≡ true → is_json (a or b) ≡ true
unfolding ◌or◌
or-is_json a b h k = elim (Bool-cases (truthy a)) [ inl t ↦ rw t h | inr t ↦ rw t k ]

pub save_message-JsonTimes :
    (cfg : Config) (r : Row) (db : Db)
    → is_json r.timestamp ≡ true
    → All HasJsonTime db.feed
    → All HasJsonTime (save_message cfg r db).1.feed
save_message-JsonTimes cfg r db time h =
    rw (feed-save_message cfg r db) (elim (Bool-cases (contains db.seen r.msg_id)) [
      | inl known ↦ rw known h
      | inr new ↦ rw new (All-snoc HasJsonTime db.feed (feed_item r) h time)
    ])

abbrev OptionTimed : Option Row → Type 0
OptionTimed none = Unit
OptionTimed (some r) = RowTimed r

abbrev ItemTimed : Outcome (Option Row) → Type 0
ItemTimed raised = Unit
ItemTimed (returned row) = OptionTimed row

abbrev BatchTimed : Outcome (List Row) → Type 0
BatchTimed raised = Unit
BatchTimed (returned rows) = All RowTimed rows

item_row-ItemTimed :
    (repr : Value → String) (item : Fields) (id : String) (o : Outcome ℤ)
    → ItemTimed (item_row repr item id o)
unfolding is_json
item_row-ItemTimed repr item id raised = tt
item_row-ItemTimed repr item id (returned time) = refl

parse_item-ItemTimed :
    (repr : Value → String) (now : ℤ) (v : Value) → ItemTimed (parse_item repr now v)
unfolding parse_item
parse_item-ItemTimed repr now (dict item) =
    let id = str repr (get item "msg_id" or get item "id" or text "") in
    elim (Bool-cases (is_empty id)) [
      | inl nameless ↦ rw nameless tt
      | inr named ↦ rw named (item_row-ItemTimed repr item id (timestamp_of now item))
    ]
parse_item-ItemTimed repr now _ = tt

add_row-BatchTimed :
    (row : Option Row) (o : Outcome (List Row))
    → OptionTimed row
    → BatchTimed o
    → BatchTimed (add_row row o)
add_row-BatchTimed row raised h k = tt
add_row-BatchTimed none (returned rows) h k = k
add_row-BatchTimed (some r) (returned rows) h k = (h, k)

and_then :
    (o : Outcome (Option Row)) (rest : Outcome (List Row))
    → ItemTimed o
    → BatchTimed rest
    → BatchTimed (elim o [ raised ↦ raised | returned row ↦ add_row row rest ])
and_then raised rest h k = tt
and_then (returned row) rest h k = add_row-BatchTimed row rest h k

parse_items-BatchTimed :
    (repr : Value → String) (now : ℤ) (vs : Items) → BatchTimed (parse_items repr now vs)
unfolding parse_items
parse_items-BatchTimed repr now nil = tt
parse_items-BatchTimed repr now (cons v vs) =
    and_then (parse_item repr now v) (parse_items repr now vs) (parse_item-ItemTimed repr now v)
      (parse_items-BatchTimed repr now vs)

fed : (rows : List Row) → All RowTimed rows → All HasJsonTime (map feed_item rows)
fed [] h = tt
fed (r ∷ rows) h = (h.0, fed rows h.1)

module _ (cfg : Config) where
  ingest-JsonTimes :
      (rows : List Row) (db : Db)
      → All RowTimed rows
      → All HasJsonTime db.feed
      → All HasJsonTime (ingest cfg rows db).1.feed
  unfolding ingest
  ingest-JsonTimes [] db k h = h
  ingest-JsonTimes (r ∷ rows) db k h =
      let more = All-append HasJsonTime db.feed (map feed_item (r ∷ rows)) h (fed (r ∷ rows) k) in
      elim (Bool-cases (executemany cfg.engine (r ∷ rows) db.working).1) [
        | inl done ↦ elim (Bool-cases cfg.is_shared_db_host) [
          | inl shared ↦ rw (done, shared) h
          | inr own ↦ rw (done, own) more
        ]
        | inr failed ↦ rw failed h
      ]

  parsed-JsonTimes :
      (o : Outcome (List Row)) (db : Db)
      → BatchTimed o
      → All HasJsonTime db.feed
      → All HasJsonTime (ingest_parsed cfg db o).1.feed
  parsed-JsonTimes raised db k h = h
  parsed-JsonTimes (returned rows) db k h = ingest-JsonTimes rows db k h

  pub save_messages_batch-JsonTimes :
      (now : ℤ) (batch : Items) (db : Db)
      → All HasJsonTime db.feed
      → All HasJsonTime (save_messages_batch cfg now batch db).1.feed
  unfolding save_messages_batch
  save_messages_batch-JsonTimes now batch db h =
      parsed-JsonTimes (parse_items cfg.repr now batch) db
        (parse_items-BatchTimed cfg.repr now batch) h
