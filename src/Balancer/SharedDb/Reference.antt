-- ===== src/Balancer/SharedDb/Reference.antt =====
-- A description of `SharedDB` of load_balancer/main.go without its index, its counter and its
-- cache: a list of records that is searched from the front.
use chat_app_csd.Prelude.{ℕ, suc, String, List, [], ◌∷◌, ◌==◌, if◌then◌else◌, is_empty}
use chat_app_csd.Value.{Fields}
use chat_app_csd.Balancer.SharedDb.{
  SharedMessageRecord, Formats, merge, single_record, item_record, Operation, single, batch,
  read_all, clear,
}

-- The record with this id is changed, or a new one put at the end, numbered by its place.
unfoldable pub put_record :
    String
    → (ℕ → SharedMessageRecord)
    → (SharedMessageRecord → SharedMessageRecord)
    → ℕ
    → List SharedMessageRecord
    → List SharedMessageRecord
put_record k new change n [] = new (suc n) ∷ []
put_record k new change n (r ∷ rs) =
    if r.msg_id == k then change r ∷ rs else r ∷ put_record k new change (suc n) rs

module _ (f : Formats) where
  unfoldable pub put_item : Fields → List SharedMessageRecord → List SharedMessageRecord
  unfolding item_record merge put_record
  put_item item rows =
      let r = item_record f item 0 in
      if is_empty r.msg_id then rows else put_record r.msg_id (item_record f item) (merge r) 0 rows

  unfoldable pub put_items : List Fields → List SharedMessageRecord → List SharedMessageRecord
  unfolding put_item
  put_items [] rows = rows
  put_items (item ∷ items) rows = put_items items (put_item item rows)

  unfoldable pub put : Operation f → List SharedMessageRecord → List SharedMessageRecord
  unfolding put_items put_record single_record
  put (single msg_id username plaintext timestamp) rows =
      put_record msg_id (single_record msg_id username plaintext timestamp) (λ r. r) 0 rows
  put (batch items) rows = put_items items rows
  put read_all rows = rows
  put clear rows = []

  unfoldable pub put_all : List (Operation f) → List SharedMessageRecord → List SharedMessageRecord
  unfolding put
  put_all [] rows = rows
  put_all (o ∷ os) rows = put_all os (put o rows)
