-- ===== src/Balancer/SharedDb/Answers.antt =====
-- What `SharedDB` of load_balancer/main.go answers, against its reference description.
use chat_app_csd.Prelude.{
  ℕ, ◌+◌, String, ◌≡◌, refl, sym, ap, inl, inr, true, false, Option, none, some, List, [], ◌∷◌,
  arith, length, Bool-cases, ℤ, is_empty,
}
use chat_app_csd.Value.{Fields}
use chat_app_csd.Balancer.SharedDb.{
  SharedMessageRecord, Formats, SharedDb, new_shared_db, index_of, merge, single_record, add_single,
  item_record, add_item, add_items, add_batch, get_messages_bytes, Operation, single, batch,
  read_all, clear, operate, operate_all,
}
use chat_app_csd.Balancer.SharedDb.Reference.{put_item, put_items, put, put_all}
use chat_app_csd.Balancer.SharedDb.Indexed.{
  position, KeepsId, IsIndexed, IsIndexed-put_record, length-put_record, put_record_same,
  bytes-IsIndexed,
}

merge-KeepsId : (new : SharedMessageRecord) → KeepsId (merge new)
unfolding merge
merge-KeepsId new r = refl

module _ (f : Formats) where
  -- The records are these, and the kept bytes are current unless they are marked.
  record IsServing (rows : List SharedMessageRecord) (db : SharedDb) : Type 0 where
    pub records : IsIndexed rows db
    pub cached : db.dirty ≡ false → db.cache_bytes ≡ f.marshal rows

  -- The entry of one item that has an id
  entered :
      (item : Fields) (inserted : ℕ) (rows : List SharedMessageRecord) (db : SharedDb)
      (o : Option ℕ)
      → IsIndexed rows db
      → position (item_record f item 0).msg_id rows ≡ o
      → index_of (item_record f item 0).msg_id db.index_map ≡ o
      → is_empty (item_record f item 0).msg_id ≡ false
      → let after = add_item f item (inserted, db) in
        IsIndexed (put_item f item rows) after.1
        × (after.0 + length rows ≡ inserted + length (put_item f item rows))
  unfolding add_item put_item item_record
  entered item inserted rows db none h found index_found named =
      rw (named, index_found)
        (
          IsIndexed-put_record (item_record f item 0).msg_id (item_record f item)
              (merge (item_record f item 0)) rows db none h (merge-KeepsId (item_record f item 0))
              (λ n. refl) (λ n. refl) found,
          omega (
            arith,
            length-put_record (item_record f item 0).msg_id (item_record f item)
                (merge (item_record f item 0)) rows none found,
          ),
        )
  entered item inserted rows db (some i) h found index_found named =
      rw (named, index_found)
        (
          IsIndexed-put_record (item_record f item 0).msg_id (item_record f item)
              (merge (item_record f item 0)) rows db (some i) h
              (merge-KeepsId (item_record f item 0)) (λ n. refl) (λ n. refl) found,
          omega (
            arith,
            length-put_record (item_record f item 0).msg_id (item_record f item)
                (merge (item_record f item 0)) rows (some i) found,
          ),
        )

  add_item-IsIndexed :
      (item : Fields) (inserted : ℕ) (rows : List SharedMessageRecord) (db : SharedDb)
      → IsIndexed rows db
      → let after = add_item f item (inserted, db) in
        IsIndexed (put_item f item rows) after.1
        × (after.0 + length rows ≡ inserted + length (put_item f item rows))
  unfolding add_item put_item item_record
  add_item-IsIndexed item inserted rows db h =
      let k : String = (item_record f item 0).msg_id in
      elim (Bool-cases (is_empty k)) [
        | inl nameless ↦ rw nameless (h, refl)
        | inr named ↦ entered item inserted rows db (position k rows) h refl (h.indexed k) named
      ]

  add_items-IsIndexed :
      (items : List Fields) (inserted : ℕ) (rows : List SharedMessageRecord) (db : SharedDb)
      → IsIndexed rows db
      → let after = add_items f items (inserted, db) in
        IsIndexed (put_items f items rows) after.1
        × (after.0 + length rows ≡ inserted + length (put_items f items rows))
  unfolding add_items put_items
  add_items-IsIndexed [] inserted rows db h = (h, refl)
  add_items-IsIndexed (item ∷ items) inserted rows db h =
      let (one, grown) = add_item-IsIndexed item inserted rows db h in
      let step : ℕ × SharedDb = add_item f item (inserted, db) in
      let (rest, grown') = add_items-IsIndexed items step.0 (put_item f item rows) step.1 one in
      (rest, omega (arith, grown, grown'))

  added_single :
      (msg_id username plaintext : String) (timestamp : ℤ) (rows : List SharedMessageRecord)
      (db : SharedDb) (o : Option ℕ)
      → IsServing rows db
      → position msg_id rows ≡ o
      → index_of msg_id db.index_map ≡ o
      → IsServing
          (put f (single msg_id username plaintext timestamp) rows)
          (add_single msg_id username plaintext timestamp db)
  unfolding put add_single single_record
  added_single msg_id username plaintext timestamp rows db none h found index_found =
      rw (index_found, add_single)
        (record {
          records = bytes-IsIndexed _ _ db.cache_bytes true (
              IsIndexed-put_record msg_id (single_record msg_id username plaintext timestamp)
                (λ r. r) rows db none h.records (λ r. refl) (λ n. refl) (λ n. refl) found);
          cached = λ clean. ground (arith, clean);
        })
  added_single msg_id username plaintext timestamp rows db (some i) h found index_found =
      rw
        (
          index_found,
          add_single,
          put_record_same msg_id (single_record msg_id username plaintext timestamp) i rows found,
        )
        h

  read-IsServing :
      (rows : List SharedMessageRecord) (db : SharedDb)
      → IsServing rows db
      → ((get_messages_bytes f db).0 ≡ f.marshal rows) × IsServing rows (get_messages_bytes f db).1
  unfolding get_messages_bytes
  read-IsServing rows db h = elim (Bool-cases db.dirty) [
    | inl marked ↦ rw marked (
      ap f.marshal h.records.same,
      record {
        records = bytes-IsIndexed rows db (f.marshal db.messages) false h.records;
        cached = λ clean. ap f.marshal h.records.same;
      },
    )
    | inr clean ↦ rw clean (
      h.cached clean,
      record {
        records = bytes-IsIndexed rows db db.cache_bytes false h.records;
        cached = λ still. h.cached clean;
      },
    )
  ]

  new-IsServing : IsServing [] new_shared_db
  new-IsServing = record {
    records = record { same = refl; indexed = λ k. refl; numbered = refl };
    cached = λ clean. sym f.marshal_empty;
  }

  operate-IsServing :
      (o : Operation f) (rows : List SharedMessageRecord) (db : SharedDb)
      → IsServing rows db
      → IsServing (put f o rows) (operate f o db)
  unfolding operate put add_batch
  operate-IsServing (single msg_id username plaintext timestamp) rows db h =
      added_single msg_id username plaintext timestamp rows db (position msg_id rows) h refl
        (h.records.indexed msg_id)
  operate-IsServing (batch items) rows db h = record {
    records = bytes-IsIndexed _ _ _ true (add_items-IsIndexed items 0 rows db h.records).0;
    cached = λ clean. ground (arith, clean);
  }
  operate-IsServing read_all rows db h = (read-IsServing rows db h).1
  operate-IsServing clear rows db h = new-IsServing

  operate_all-IsServing :
      (os : List (Operation f)) (rows : List SharedMessageRecord) (db : SharedDb)
      → IsServing rows db
      → IsServing (put_all f os rows) (operate_all f os db)
  unfolding operate_all put_all
  operate_all-IsServing [] rows db h = h
  operate_all-IsServing (o ∷ os) rows db h =
      operate_all-IsServing os (put f o rows) (operate f o db) (operate-IsServing o rows db h)

  -- After any sequence of single messages, batches, reads and resets: the bytes that are answered
  -- are those of the list that the reference description has, which searches it from the front and
  -- numbers its records by their places; the index says of every id the place of its first record,
  -- and of an id that is not there nothing; and the number that the answer to a further batch
  -- reports is the number of records by which that list grows.
  pub shared_db_lem :
      (os : List (Operation f))
      → let db = operate_all f os new_shared_db in
        let rows = put_all f os [] in
        ((get_messages_bytes f db).0 ≡ f.marshal rows)
        × ((k : String) → index_of k db.index_map ≡ position k rows)
        × ((items : List Fields)
            → (add_batch f items db).0 + length rows ≡ length (put_items f items rows))
  unfolding add_batch
  shared_db_lem os =
      let h : IsServing (put_all f os []) (operate_all f os new_shared_db) =
        operate_all-IsServing os [] new_shared_db new-IsServing in
      (
        (read-IsServing _ _ h).0,
        h.records.indexed,
        λ items. omega (arith, (add_items-IsIndexed items 0 (put_all f os []) _ h.records).1),
      )
