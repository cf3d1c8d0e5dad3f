-- ===== src/App/Threads/Counts.antt =====
-- How often an id stands in the caches, in the file and in the hands of threads, and what a step of
-- one thread does to these numbers.
use chat_app_csd.Prelude.{
  ℕ, ◌+◌, ◌≤◌, String, ◌≡◌, refl, true, false, List, [], ◌∷◌, ◌++◌, append_assoc, map-append, arith,
  ◌==◌, eq_iff, eq_refl, All-append, All, contains, Distinct, if◌then◌else◌,
}
use chat_app_csd.Db.Pipeline.{HasIntTime, HasIntTime-Fits, pending}
use chat_app_csd.Store.{Row, ids_of, msg_ids, Store, appended}
use chat_app_csd.Store.Batch.{insert-Fits, msg_ids-appended}
use chat_app_csd.Db.{Config, returned, Db, insert_now}

-- How often the text stands in the list.
abbrev pub occurrences : String → List String → ℕ
occurrences k [] = 0
occurrences k (x ∷ xs) = (if x == k then 1 else 0) + occurrences k xs

pub occurrences-append :
    (k : String) (xs ys : List String)
    → occurrences k (xs ++ ys) ≡ occurrences k xs + occurrences k ys
occurrences-append k [] ys = omega arith
occurrences-append k (x ∷ xs) ys = omega (arith, occurrences-append k xs ys)

pub occurrences-zero :
    (k : String) (xs : List String) → contains xs k ≡ false → occurrences k xs ≡ 0
occurrences-zero k [] h = refl
occurrences-zero k (x ∷ xs) h = ground (arith, occurrences-zero k xs, eq_iff x k, eq_iff k x)

pub contains-false : (k : String) (xs : List String) → occurrences k xs ≡ 0 → contains xs k ≡ false
contains-false k [] h = refl
contains-false k (x ∷ xs) h = ground (arith, contains-false k xs, eq_iff x k, eq_iff k x)

-- No text twice.
pub occurrences-Distinct : (xs : List String) → ((k : String) → occurrences k xs ≤ 1) → Distinct xs
occurrences-Distinct [] h = tt
occurrences-Distinct (x ∷ xs) h = (
  contains-false x xs (ground (arith, h x, eq_refl x)),
  occurrences-Distinct xs (λ k. ground (arith, h k)),
)

pub Distinct-occurrences : (k : String) (xs : List String) → Distinct xs → occurrences k xs ≤ 1
Distinct-occurrences k [] d = omega arith
Distinct-occurrences k (x ∷ xs) d =
    ground (arith, Distinct-occurrences k xs d.1, eq_iff x k, occurrences-zero k xs, d.0)

abbrev pub of_id : String → Row → ℕ
of_id k r = if r.msg_id == k then 1 else 0

-- A new text at the end of a list without repetitions.
pub occurrences-snoc :
    (k j : String) (xs : List String)
    → contains xs j ≡ false
    → occurrences k xs ≤ 1
    → occurrences k (xs ++ j ∷ []) ≤ 1
occurrences-snoc k j xs new once = ground (
  arith,
  occurrences-append k xs (j ∷ []),
  eq_iff j k,
  occurrences-zero j xs new,
  occurrences-zero k xs,
)

-- How often an id stands in the file and in what waits for it.
abbrev pub filed : String → Db → ℕ
filed k db = occurrences k (msg_ids db.working.messages) + occurrences k (ids_of (pending db))

module _ (cfg : Config) where
  -- What the INSERT does with a row that the file does not have.
  pub record Inserted (r : Row) (db : Db) : Type 0 where
    pub after : Db
    pub ran : insert_now cfg r db ≡ (returned true, after)
    pub seen : after.seen ≡ db.seen
    pub feed : after.feed ≡ db.feed
    pub placed : (k : String) → filed k after ≡ filed k db + of_id k r
    pub times : All HasIntTime (pending after)
    pub saved : after.working ≡ after.committed

  pub pending_ids :
      (k : String) (r : Row) (db : Db)
      → occurrences k (ids_of (db.in_flight ++ (db.queue ++ r ∷ [])))
        ≡ occurrences k (ids_of (pending db)) + of_id k r
  pending_ids k r db = rw (← append_assoc db.in_flight db.queue (r ∷ [])) (
      rw (map-append (λ (x : Row). x.msg_id) (pending db) (r ∷ []))
        (omega (arith, occurrences-append k (ids_of (pending db)) (r.msg_id ∷ []))))

  pub pending_times :
      (r : Row) (db : Db)
      → HasIntTime r
      → All HasIntTime (pending db)
      → All HasIntTime (db.in_flight ++ (db.queue ++ r ∷ []))
  pending_times r db time times =
      rw (← append_assoc db.in_flight db.queue (r ∷ []))
        (All-append HasIntTime (pending db) (r ∷ []) times (time, tt))

  pub inserted_row :
      (r : Row) (db : Db)
      → HasIntTime r
      → contains (msg_ids db.working.messages) r.msg_id ≡ false
      → All HasIntTime (pending db)
      → Inserted r db
  unfolding insert_now
  inserted_row r db time new times =
      let store : Store = appended cfg.engine r db.working in
      record {
        after = record db { working = store; committed = store };
        ran =
            rw (insert-Fits cfg.engine r db.working (HasIntTime-Fits r time), insert_now)
              (rw new refl);
        seen = refl;
        feed = refl;
        placed = λ k.
            rw (msg_ids-appended cfg.engine r db.working)
              (omega (arith, occurrences-append k (msg_ids db.working.messages) (r.msg_id ∷ [])));
        times = times;
        saved = refl;
      }
