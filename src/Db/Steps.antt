-- ===== src/Db/Steps.antt =====
-- The steps of a process on its file, and what they keep.
use chat_app_csd.Prelude.{
  ℕ, ◌<◌, String, ◌≡◌, refl, sym, ap, ◌∙◌, inl, inr, true, false, List, [], ◌∷◌, ◌++◌, map,
  append-nil, append_assoc, map-append, arith, length, take, drop, take-append-drop, All-append,
  contains, Distinct, Bool-cases,
}
use chat_app_csd.Db.Pipeline.{
  HasIntTime, IsDurable, pending, written, gather-split, All-right, Distinct-left, Distinct-split,
  pending-Distinct, ids_of-rows_of, feed_ids-map,
}
use chat_app_csd.Db.Writer.{take_batch, writer_write, writer_take, batch_max}
use chat_app_csd.Db.{
  Config, Db, reset_db, queue_max, save_message, returned, upsert_user_pubkey, feed_item, start,
  add_ids, message_exists,
}
use chat_app_csd.Store.{Row, Store, upsert_user, msg_ids, ids_of, rows_of}
use chat_app_csd.Db.Saving.{save_message-IsConsistent, save_message_lem}

pub take_batch-split :
    (n : ℕ) (db : Db)
    → take_batch n db ≡ record db { in_flight = take n db.queue; queue = drop n db.queue }
unfolding take_batch
take_batch-split n db = rw gather-split

take_batch-IsDurable :
    (n : ℕ) (db : Db) → db.in_flight ≡ [] → IsDurable db → IsDurable (take_batch n db)
take_batch-IsDurable n db idle h = rw (take_batch-split n db) (record {
  consistent = record { ids = h.consistent.ids; distinct = h.consistent.distinct };
  fed = rw take-append-drop (rw idle at h.fed);
  times = rw take-append-drop (rw idle at h.times);
  saved = h.saved;
})

pub writer_write_keeps_caches :
    (cfg : Config) (db : Db)
    → let after = (writer_write cfg db).0 in (after.feed ≡ db.feed) × (after.seen ≡ db.seen)
unfolding writer_write
writer_write_keeps_caches cfg db = batch_keeps_caches db.in_flight refl
  where
    batch_keeps_caches :
        (batch : List Row)
        → db.in_flight ≡ batch
        → let after = (writer_write cfg db).0 in (after.feed ≡ db.feed) × (after.seen ≡ db.seen)
    batch_keeps_caches [] e = rw (e, writer_write) (refl, refl)
    batch_keeps_caches (r ∷ rows) e = rw (e, writer_write) (ground arith, ground arith)

module _ (cfg : Config) where
  -- The operations that the process performs, in any order: requests save messages and users,
  -- the writer takes a batch and writes it, `POST /reset-state` clears, and the process may die and
  -- start again at any point.
  pub data Step (db : Db) : Db → Type 0 where
    save :
        (r : Row) → HasIntTime r → length db.queue < queue_max → Step db (save_message cfg r db).1
    user : (name key : String) → Step db (upsert_user_pubkey name key db)
    take_next : db.in_flight ≡ [] → Step db (writer_take db)
    write : Step db (writer_write cfg db).0
    reset : db.in_flight ≡ [] → Step db (reset_db db)
    crash : Step db (start db.committed)

  pub data Reach (db : Db) : Db → Type 0 where
    here : Reach db db
    next : {t u : Db} → Reach db t → Step t u → Reach db u

  pub save_new :
      (r : Row) (db : Db)
      → contains db.seen r.msg_id ≡ false
      → length db.queue < queue_max
      → save_message cfg r db ≡ (
        returned true,
        record db {
          seen = db.seen ++ r.msg_id ∷ [];
          feed = db.feed ++ feed_item r ∷ [];
          queue = db.queue ++ r ∷ [];
          writer_started = true;
        },
      )
  unfolding save_message
  save_new r db new room = ground arith

  known-IsDurable :
      (r : Row) (db : Db)
      → contains db.seen r.msg_id ≡ true
      → IsDurable db
      → IsDurable (save_message cfg r db).1
  known-IsDurable r db k h =
      rw ((save_message_lem cfg r db).0 (unfold message_exists in k)) (record {
        consistent = record { ids = h.consistent.ids; distinct = h.consistent.distinct };
        fed = h.fed;
        times = h.times;
        saved = h.saved;
      })

  new-IsDurable :
      (r : Row) (db : Db)
      → HasIntTime r
      → length db.queue < queue_max
      → contains db.seen r.msg_id ≡ false
      → IsDurable db
      → IsDurable (save_message cfg r db).1
  new-IsDurable r db time room k h = rw (save_new r db k room) (record {
    consistent = rw (save_new r db k room) at (save_message-IsConsistent cfg r db h.consistent);
    fed = rw h.fed (simp (map-append, append_assoc));
    times =
        rw (← append_assoc db.in_flight db.queue (r ∷ []))
          (All-append HasIntTime (pending db) (r ∷ []) h.times (time, tt));
    saved = h.saved;
  })

  pub save-IsDurable :
      (r : Row) (db : Db)
      → HasIntTime r
      → length db.queue < queue_max
      → IsDurable db
      → IsDurable (save_message cfg r db).1
  save-IsDurable r db time room h = elim (Bool-cases (contains db.seen r.msg_id)) [
    | inl k ↦ known-IsDurable r db k h
    | inr k ↦ new-IsDurable r db time room k h
  ]

  pub write-IsDurable : (db : Db) → IsDurable db → IsDurable (writer_write cfg db).0
  write-IsDurable db h =
      let w = written cfg db h in
      rw w.wrote (record {
        consistent = record { ids = h.consistent.ids; distinct = h.consistent.distinct };
        fed = rw w.rows (h.fed ∙ simp append_assoc);
        times = All-right db.in_flight db.queue h.times;
        saved = refl;
      })

pub writer_take-IsDurable :
    (db : Db) → db.in_flight ≡ [] → IsDurable db → IsDurable (writer_take db)
unfolding writer_take
writer_take-IsDurable db idle h = take_batch-IsDurable batch_max db idle h

pub writer_take-split :
    (db : Db)
    → writer_take db
      ≡ record db { in_flight = take batch_max db.queue; queue = drop batch_max db.queue }
unfolding writer_take
writer_take-split db = take_batch-split batch_max db

-- A reset leaves nothing, if the writer holds no batch.
pub reset-IsDurable : (db : Db) → db.in_flight ≡ [] → IsDurable (reset_db db)
unfolding reset_db
reset-IsDurable db idle = record {
  consistent = record { ids = refl; distinct = tt };
  fed = rw idle refl;
  times = rw idle tt;
  saved = refl;
}

pub user-IsDurable :
    (name key : String) (db : Db) → IsDurable db → IsDurable (upsert_user_pubkey name key db)
unfolding upsert_user_pubkey upsert_user
user-IsDurable name key db h = record {
  consistent = record { ids = h.consistent.ids; distinct = h.consistent.distinct };
  fed = h.fed;
  times = h.times;
  saved = refl;
}

add_ids-Distinct : (ks s : List String) → Distinct (s ++ ks) → add_ids ks s ≡ s ++ ks
add_ids-Distinct [] s d = sym (append-nil s)
add_ids-Distinct (k ∷ ks) s d =
    let (new, d') = Distinct-split s k ks d in
    rw new (add_ids-Distinct ks (s ++ k ∷ []) d' ∙ append_assoc s (k ∷ []) ks)

-- A start on a file whose ids are distinct.
pub start-IsDurable : (s : Store) → Distinct (msg_ids s.messages) → IsDurable (start s)
unfolding start
start-IsDurable s d =
    let ids : ids_of (rows_of s.messages) ≡ msg_ids s.messages = ids_of-rows_of s.messages in
    let seen : add_ids (ids_of (rows_of s.messages)) [] ≡ ids_of (rows_of s.messages) =
      add_ids-Distinct (ids_of (rows_of s.messages)) [] (rw ids d) in
    record {
      consistent = record {
        ids = seen ∙ sym (feed_ids-map (rows_of s.messages));
        distinct = rw (seen, ids) d;
      };
      fed = ap (map feed_item) (sym (append-nil (rows_of s.messages)));
      times = tt;
      saved = refl;
    }

pub crash-IsDurable : (db : Db) → IsDurable db → IsDurable (start db.committed)
crash-IsDurable db h = start-IsDurable db.committed (
    rw (← h.saved)
      (Distinct-left (msg_ids db.working.messages) (ids_of (pending db)) (pending-Distinct db h)))

module _ (cfg : Config) where
  Step-IsDurable : {db after : Db} → Step cfg db after → IsDurable db → IsDurable after
  Step-IsDurable {db} (save r time room) h = save-IsDurable cfg r db time room h
  Step-IsDurable {db} (user name key) h = user-IsDurable name key db h
  Step-IsDurable {db} (take_next idle) h = writer_take-IsDurable db idle h
  Step-IsDurable {db} write h = write-IsDurable cfg db h
  Step-IsDurable {db} (reset idle) h = reset-IsDurable db idle
  Step-IsDurable {db} crash h = crash-IsDurable db h

  -- Take a state in which the set of ids is the list of the feed's ids, each once, the feed is, in
  -- order, what the file, the writer's batch and the queue hold, what waits has integers of 64
  -- bits as timestamps, and the file has no open transaction. All this holds again after any
  -- sequence of steps: a save of a row with such a timestamp while the queue has room, a new user
  -- key, a batch taken by the idle writer, a batch written, a reset while the writer is idle, or a
  -- crash with a restart.
  pub Reach-IsDurable : {db after : Db} → Reach cfg db after → IsDurable db → IsDurable after
  Reach-IsDurable here h = h
  Reach-IsDurable (next path step) h = Step-IsDurable step (Reach-IsDurable path h)
