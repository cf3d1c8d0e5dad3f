-- ===== src/Db/Stored.antt =====
-- The rows that the file has or will have, and what holds of each of them.
use chat_app_csd.Prelude.{
  inl, inr, List, [], ◌∷◌, ◌++◌, append_assoc, All-append, All, contains, Bool-cases, if◌then◌else◌,
}
use chat_app_csd.Db.Pipeline.{pending, HasIntTime, HasIntTime-Fits, HasIntTime-kept}
use chat_app_csd.Store.{Row, rows_of, appended, ignored, msg_ids}
use chat_app_csd.Store.Batch.{insert-Fits, rows_of-appended, rows_of-ignored}
use chat_app_csd.Db.{Config, Db, insert_now}

-- The rows of the file and those that wait for it.
abbrev pub stored : Db → List Row
stored db = rows_of db.working.messages ++ pending db

pub All-snoc :
    {A : Type 0} (P : A → Type 0) (xs : List A) (x : A) → All P xs → P x → All P (xs ++ x ∷ [])
All-snoc P xs x h hx = All-append P xs (x ∷ []) h (hx, tt)

module _ (cfg : Config) (P : Row → Type 0) where
  All-split : (xs ys : List Row) → All P (xs ++ ys) → All P xs × All P ys
  All-split [] ys h = (tt, h)
  All-split (x ∷ xs) ys h = let (hx, hy) = All-split xs ys h.1 in ((h.0, hx), hy)

  inserted-All :
      (r : Row) (db : Db)
      → HasIntTime r
      → P r
      → All P (stored db)
      → let s =
          if contains (msg_ids db.working.messages) r.msg_id
          then ignored cfg.engine db.working
          else appended cfg.engine r db.working in
        All P (rows_of s.messages ++ pending db)
  inserted-All r db time hr h =
      let (old, waiting) = All-split (rows_of db.working.messages) (pending db) h in
      elim (Bool-cases (contains (msg_ids db.working.messages) r.msg_id)) [
        | inl known ↦ rw known (rw (rows_of-ignored cfg.engine db.working) h)
        | inr new ↦ rw new (
            rw (rows_of-appended cfg.engine r db.working, HasIntTime-kept cfg.engine r time)
              (All-append P _ (pending db) (All-snoc P (rows_of db.working.messages) r old hr)
                waiting))
      ]

  pub queue-All :
      (r : Row) (db : Db)
      → P r
      → All P (stored db)
      → All P (stored (record db { queue = db.queue ++ r ∷ [] }))
  queue-All r db hr h = rw (← append_assoc db.in_flight db.queue (r ∷ [])) (
      rw (← append_assoc (rows_of db.working.messages) (pending db) (r ∷ []))
        (All-snoc P (stored db) r h hr))

  pub insert_now-All :
      (r : Row) (db : Db)
      → HasIntTime r
      → P r
      → All P (stored db)
      → All P (stored (insert_now cfg r db).1)
  unfolding insert_now
  insert_now-All r db time hr h =
      rw (insert-Fits cfg.engine r db.working (HasIntTime-Fits r time), insert_now)
        (inserted-All r db time hr h)
