-- ===== src/Db/Saving.antt =====
-- `save_message` of db.py and the caches, for one call and for a sequence of calls.
use chat_app_csd.Prelude.{
  ◌+◌, String, Bool, true, false, ◌≡◌, refl, ap, sym, ◌∙◌, List, [], ◌∷◌, ◌++◌, map, map-append,
  append-nil, append_assoc, contains, contains-append, Distinct, Distinct-snoc, arith, eq_refl,
  length, length-append, if◌then◌else◌, Bool-cases, ltb, inl, inr,
}
use chat_app_csd.Store.{Row}
use chat_app_csd.Store.Batch.{fresh_rows}
use chat_app_csd.Db.{
  Config, FeedItem, Db, returned, feed_item, add_id, save_message, message_exists,
  get_message_count, queue_max,
}

abbrev pub feed_ids : List FeedItem → List String
feed_ids = map (λ t. t.id)

-- The set of ids and the feed say the same, and no id stands twice.
pub record IsConsistent (db : Db) : Type 0 where
  pub ids : db.seen ≡ feed_ids db.feed
  pub distinct : Distinct db.seen

-- The caches after `save_message`.
abbrev pub saved_seen : Row → Db → List String
saved_seen r db = add_id r.msg_id db.seen

abbrev pub saved_feed : Row → Db → List FeedItem
saved_feed r db = if contains db.seen r.msg_id then db.feed else db.feed ++ feed_item r ∷ []

abbrev pub saved_queue : Row → Db → List Row
saved_queue r db =
    if contains db.seen r.msg_id
    then db.queue
    else if ltb (length db.queue) queue_max
    then db.queue ++ r ∷ []
    else db.queue

module _ (cfg : Config) where
  pub queue-save_message :
      (r : Row) (db : Db)
      → let after = (save_message cfg r db).1 in
        (after.queue ≡ saved_queue r db) × (after.in_flight ≡ db.in_flight)
  unfolding save_message
  queue-save_message r db = (ground arith, ground arith)

  -- What waits for the file afterwards: what waited before, perhaps with the row behind it.
  pub pending_induction {ℓ} :
      (P : List Row → Type ℓ) (r : Row) (db : Db)
      → P (db.in_flight ++ db.queue)
      → P (db.in_flight ++ (db.queue ++ r ∷ []))
      → let after = (save_message cfg r db).1 in P (after.in_flight ++ after.queue)
  pending_induction P r db same more =
      rw ((queue-save_message r db).0, (queue-save_message r db).1)
        (elim (Bool-cases (contains db.seen r.msg_id)) [
          | inl k ↦ rw k same
          | inr k ↦ elim (Bool-cases (ltb (length db.queue) queue_max)) [
            | inl room ↦ rw (k, room) more
            | inr none_left ↦ rw (k, none_left) same
          ]
        ])

  -- Whatever the queue and the file do, the caches change in this way.
  pub seen-save_message : (r : Row) (db : Db) → (save_message cfg r db).1.seen ≡ saved_seen r db
  unfolding save_message
  seen-save_message r db = ground arith

  pub feed-save_message : (r : Row) (db : Db) → (save_message cfg r db).1.feed ≡ saved_feed r db
  unfolding save_message
  feed-save_message r db = ground arith

  consistent_caches :
      (r : Row) (db : Db) (known : Bool)
      → contains db.seen r.msg_id ≡ known
      → IsConsistent db
      → (saved_seen r db ≡ feed_ids (saved_feed r db)) × Distinct (saved_seen r db)
  consistent_caches r db true k h = rw k (h.ids, h.distinct)
  consistent_caches r db false k h = rw k (
    ap (λ (l : List String). l ++ r.msg_id ∷ []) h.ids
        ∙ sym (map-append _ db.feed (feed_item r ∷ [])),
    Distinct-snoc db.seen r.msg_id k h.distinct,
  )

  -- `save_message` keeps the set of ids equal to the ids of the feed, each once, also when it
  -- returns False and when the direct INSERT raises.
  pub save_message-IsConsistent :
      (r : Row) (db : Db) → IsConsistent db → IsConsistent (save_message cfg r db).1
  save_message-IsConsistent r db h =
      let (ids, distinct) = consistent_caches r db (contains db.seen r.msg_id) refl h in
      record {
        ids = rw (seen-save_message r db, feed-save_message r db) ids;
        distinct = rw (seen-save_message r db) distinct;
      }

  known_after :
      (r : Row) (db : Db)
      → contains db.seen r.msg_id ≡ false
      → contains (save_message cfg r db).1.seen r.msg_id ≡ true
  known_after r db k =
      rw (seen-save_message r db, k)
        (rw (contains-append db.seen (r.msg_id ∷ []) r.msg_id, k, eq_refl r.msg_id) refl)

  counted_after :
      (r : Row) (db : Db)
      → contains db.seen r.msg_id ≡ false
      → length (save_message cfg r db).1.seen ≡ length db.seen + 1
  counted_after r db k = rw (seen-save_message r db, k) (length-append db.seen (r.msg_id ∷ []))

  -- A message whose id is known is refused and changes neither cache, queue nor file, it only
  -- starts the writer. One whose id is new is counted and known afterwards, and is the last of the
  -- feed, whatever becomes of its row.
  pub save_message_lem :
      (r : Row) (db : Db)
      → (message_exists r.msg_id db ≡ true
          → save_message cfg r db ≡ (returned false, record db { writer_started = true }))
        × (message_exists r.msg_id db ≡ false
            → let (result, after) = save_message cfg r db in
              (after.feed ≡ db.feed ++ feed_item r ∷ [])
              × (message_exists r.msg_id after ≡ true)
              × (get_message_count after ≡ get_message_count db + 1))
  unfolding save_message message_exists get_message_count
  save_message_lem r db =
      (λ k. ground arith, λ k. (ground arith, known_after r db k, counted_after r db k))

  known_or_new :
      (r : Row) (rows : List Row) (db : Db) (known : Bool)
      → contains db.seen r.msg_id ≡ known
      → saved_feed r db ++ map feed_item (fresh_rows (saved_seen r db) rows)
        ≡ db.feed ++ map feed_item (fresh_rows db.seen (r ∷ rows))
  known_or_new r rows db true k = rw k
  known_or_new r rows db false k = rw k (append_assoc db.feed (feed_item r ∷ []) _)

  -- One call after the other.
  pub save_all : List Row → Db → Db
  save_all [] db = db
  save_all (r ∷ rows) db = save_all rows (save_message cfg r db).1

  -- A sequence of calls adds to the feed, in order, exactly the messages whose id neither the
  -- process nor an earlier call of the sequence has.
  pub feed-save_all :
      (rows : List Row) (db : Db)
      → (save_all rows db).feed ≡ db.feed ++ map feed_item (fresh_rows db.seen rows)
  unfolding save_all
  feed-save_all [] db = sym (append-nil db.feed)
  feed-save_all (r ∷ rows) db = rw (feed-save_all rows (save_message cfg r db).1) (
      rw (seen-save_message r db, feed-save_message r db)
        (known_or_new r rows db (contains db.seen r.msg_id) refl))
