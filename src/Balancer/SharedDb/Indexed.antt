-- ===== src/Balancer/SharedDb/Indexed.antt =====
-- The index of `SharedDB` of load_balancer/main.go against a search from the front.
use chat_app_csd.Prelude.{
  ℕ, zero, suc, ◌+◌, String, ◌≡◌, refl, sym, ap, ◌∙◌, inl, inr, Bool, false, Option, none, some,
  List, [], ◌∷◌, ◌++◌, arith, ◌==◌, eq_iff, length, length-append, Bool-cases, if◌then◌else◌,
}
use chat_app_csd.Balancer.SharedDb.{SharedMessageRecord, SharedDb, index_of, update, insert_record}
use chat_app_csd.Balancer.SharedDb.Reference.{put_record}

abbrev pub next : Option ℕ → Option ℕ
next none = none
next (some i) = some (suc i)

-- The place of the first record with this id
abbrev pub position : String → List SharedMessageRecord → Option ℕ
position k [] = none
position k (r ∷ rs) = if r.msg_id == k then some 0 else next (position k rs)

abbrev pub Change : Type 0
Change = SharedMessageRecord → SharedMessageRecord

abbrev pub KeepsId : Change → Type 0
KeepsId change = (r : SharedMessageRecord) → (change r).msg_id ≡ r.msg_id

-- What the entries of the index say is so.
pub record IsIndexed (rows : List SharedMessageRecord) (db : SharedDb) : Type 0 where
  pub same : db.messages ≡ rows
  pub indexed : (k : String) → index_of k db.index_map ≡ position k rows
  pub numbered : db.counter ≡ length rows

-- The records after a search that ended like this
abbrev placed :
    (ℕ → SharedMessageRecord)
    → Change
    → ℕ
    → List SharedMessageRecord
    → Option ℕ
    → List SharedMessageRecord
placed new change n rows none = rows ++ new (suc (n + length rows)) ∷ []
placed new change n rows (some i) = update i change rows

placed-cons :
    (new : ℕ → SharedMessageRecord) (change : Change) (n : ℕ) (r : SharedMessageRecord)
    (rows : List SharedMessageRecord) (o : Option ℕ)
    → r ∷ placed new change (suc n) rows o ≡ placed new change n (r ∷ rows) (next o)
placed-cons new change n r rows none = ap (λ (m : ℕ). r ∷ rows ++ new (suc m) ∷ []) (omega arith)
placed-cons new change n r rows (some i) = refl

put_record_lem :
    (k : String) (new : ℕ → SharedMessageRecord) (change : Change) (n : ℕ)
    (rows : List SharedMessageRecord)
    → put_record k new change n rows ≡ placed new change n rows (position k rows)
unfolding put_record
put_record_lem k new change n [] = ap (λ (m : ℕ). new (suc m) ∷ []) (omega arith)
put_record_lem k new change n (r ∷ rs) = elim (Bool-cases (r.msg_id == k)) [
  | inl here ↦ rw here refl
  | inr there ↦
      rw (there, put_record_lem k new change (suc n) rs)
        (placed-cons new change n r rs (position k rs))
]

position-update :
    (j : String) (change : Change) (i : ℕ) (rows : List SharedMessageRecord)
    → KeepsId change
    → position j (update i change rows) ≡ position j rows
position-update j change i [] kept = refl
position-update j change zero (r ∷ rs) kept = rw (kept r) refl
position-update j change (suc i) (r ∷ rs) kept = rw (position-update j change i rs kept) refl

length-update :
    (change : Change) (i : ℕ) (rows : List SharedMessageRecord)
    → length (update i change rows) ≡ length rows
length-update change i [] = refl
length-update change zero (r ∷ rs) = refl
length-update change (suc i) (r ∷ rs) = rw (length-update change i rs) refl

next-none : (o : Option ℕ) → next o ≡ none → o ≡ none
next-none none e = refl
next-none (some i) e = ground (arith, e)

absent_head :
    (k : String) (r : SharedMessageRecord) (rows : List SharedMessageRecord)
    → position k (r ∷ rows) ≡ none
    → (r.msg_id == k ≡ false) × (position k rows ≡ none)
absent_head k r rows absent = elim (Bool-cases (r.msg_id == k)) [
  | inl here ↦ ground (arith, (rw here at absent))
  | inr there ↦ (there, next-none (position k rows) (rw there at absent))
]

-- The index with the new record's entry finds what is found after the record was appended.
position-snoc :
    (j : String) (r : SharedMessageRecord) (rows : List SharedMessageRecord)
    → position r.msg_id rows ≡ none
    → (if r.msg_id == j then some (length rows) else position j rows) ≡ position j (rows ++ r ∷ [])
position-snoc j r [] absent = refl
position-snoc j r (x ∷ xs) absent =
    let (other, rest) = absent_head r.msg_id x xs absent in
    rw (sym (position-snoc j r xs rest)) (elim (Bool-cases (x.msg_id == j)) [
      | inl here ↦ elim (Bool-cases (r.msg_id == j)) [
        | inl same ↦ ground (
          arith,
          other,
          (eq_iff x.msg_id r.msg_id).1
              ((eq_iff x.msg_id j).0 here ∙ sym ((eq_iff r.msg_id j).0 same)),
        )
        | inr apart ↦ rw (here, apart) refl
      ]
      | inr there ↦ elim (Bool-cases (r.msg_id == j)) [
        | inl same ↦ rw (there, same) refl
        | inr apart ↦ rw (there, apart) refl
      ]
    ])

-- A record is put in, which the index does not have, with the next number.
insert-IsIndexed :
    (r : SharedMessageRecord) (rows : List SharedMessageRecord) (db : SharedDb)
    → IsIndexed rows db
    → r.id ≡ suc db.counter
    → position r.msg_id rows ≡ none
    → IsIndexed (rows ++ r ∷ []) (insert_record r db)
unfolding insert_record
insert-IsIndexed r rows db h next_id absent = record {
  same = rw h.same refl;
  indexed = λ k. rw (h.indexed k, h.same) (position-snoc k r rows absent);
  numbered = omega (arith, next_id, h.numbered, length-append rows (r ∷ []));
}

update-IsIndexed :
    (change : Change) (i : ℕ) (rows : List SharedMessageRecord) (db : SharedDb)
    → KeepsId change
    → IsIndexed rows db
    → IsIndexed (update i change rows) (record db { messages = update i change db.messages })
update-IsIndexed change i rows db kept h = record {
  same = rw h.same refl;
  indexed = λ k. h.indexed k ∙ sym (position-update k change i rows kept);
  numbered = h.numbered ∙ sym (length-update change i rows);
}

the_next : (counter n : ℕ) → counter ≡ n → suc (0 + n) ≡ suc counter
the_next counter n same = omega arith

-- A record with the id `k` is found by the index and changed, or put in.
pub IsIndexed-put_record :
    (k : String) (new : ℕ → SharedMessageRecord) (change : Change) (rows : List SharedMessageRecord)
    (db : SharedDb) (o : Option ℕ)
    → IsIndexed rows db
    → KeepsId change
    → ((n : ℕ) → (new n).id ≡ n)
    → ((n : ℕ) → (new n).msg_id ≡ k)
    → position k rows ≡ o
    → IsIndexed (put_record k new change 0 rows) (elim o [
      | some i ↦ record db { messages = update i change db.messages }
      | none ↦ insert_record (new (suc db.counter)) db
    ])
IsIndexed-put_record k new change rows db (some i) h kept ids keys found =
    rw (put_record_lem k new change 0 rows, found) (update-IsIndexed change i rows db kept h)
IsIndexed-put_record k new change rows db none h kept ids keys absent =
    rw (put_record_lem k new change 0 rows, absent)
      (rw (the_next db.counter (length rows) h.numbered) (
        insert-IsIndexed (new (suc db.counter)) rows db h (ids (suc db.counter))
          (rw (keys (suc db.counter)) absent)))

-- The list grows by one if the id is new.
pub length-put_record :
    (k : String) (new : ℕ → SharedMessageRecord) (change : Change) (rows : List SharedMessageRecord)
    (o : Option ℕ)
    → position k rows ≡ o
    → length (put_record k new change 0 rows) ≡ length rows + elim o [ some i ↦ 0 | none ↦ 1 ]
length-put_record k new change rows (some i) found =
    rw (put_record_lem k new change 0 rows, found) (omega (arith, length-update change i rows))
length-put_record k new change rows none absent =
    rw (put_record_lem k new change 0 rows, absent)
      (omega (arith, length-append rows (new (suc (0 + length rows)) ∷ [])))

update_same : (i : ℕ) (rows : List SharedMessageRecord) → update i (λ r. r) rows ≡ rows
update_same i [] = refl
update_same zero (r ∷ rs) = refl
update_same (suc i) (r ∷ rs) = rw (update_same i rs) refl

pub put_record_same :
    (k : String) (new : ℕ → SharedMessageRecord) (i : ℕ) (rows : List SharedMessageRecord)
    → position k rows ≡ some i
    → put_record k new (λ r. r) 0 rows ≡ rows
put_record_same k new i rows found =
    rw (put_record_lem k new (λ r. r) 0 rows, found) (update_same i rows)

-- The bytes and the mark are no part of it.
pub bytes-IsIndexed :
    (rows : List SharedMessageRecord) (db : SharedDb) (bytes : String) (dirty : Bool)
    → IsIndexed rows db
    → IsIndexed rows (record db { cache_bytes = bytes; dirty = dirty })
bytes-IsIndexed rows db bytes dirty h = record {
  same = h.same;
  indexed = h.indexed;
  numbered = h.numbered;
}
