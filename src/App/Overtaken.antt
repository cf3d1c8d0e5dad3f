-- ===== src/App/Overtaken.antt =====
-- A message that finds the write queue full: `save_message` of db.py then inserts it itself, ahead
-- of the rows that wait.
use chat_app_csd.Prelude.{
  ◌≤◌, ◌≡◌, refl, sym, ap, ◌∙◌, ◌≢◌, inl, inr, true, false, List, [], ◌∷◌, ◌++◌, append_assoc,
  arith, length, contains, Bool-cases, ltb,
}
use chat_app_csd.Integrity.{verify_chain, hash_after}
use chat_app_csd.Integrity.Chain.{all_true, Linked, tip, verify_chain_iff}
use chat_app_csd.Db.{insert_now, Db, Config, save_message, queue_max, genesis}
use chat_app_csd.Db.Pipeline.{pending, HasIntTime, HasIntTime-Fits, HasIntTime-kept}
use chat_app_csd.Store.{Row, rows_of, msg_ids, in_int64}
use chat_app_csd.Store.Batch.{insert-Fits, rows_of-appended}
use chat_app_csd.App.Answers.{db-sealed_row, msg_id-sealed_row, db-after_save}
use chat_app_csd.App.Forks.{Linked-right}
use chat_app_csd.App.{Packages, App, Draw}
use chat_app_csd.App.Post.{Posted, store_message, sealed_row}

module _ (cfg : Config) where
  full_insert :
      (r : Row) (db : Db)
      → HasIntTime r
      → contains db.seen r.msg_id ≡ false
      → contains (msg_ids db.working.messages) r.msg_id ≡ false
      → ltb (length db.queue) queue_max ≡ false
      → let after = (save_message cfg r db).1 in
        (rows_of after.working.messages ≡ rows_of db.working.messages ++ r ∷ [])
        × (after.committed ≡ after.working)
        × (pending after ≡ pending db)
  unfolding save_message
  full_insert r db time new fresh full =
      rw (new, full)
        (rw (insert-Fits cfg.engine r db.working (HasIntTime-Fits r time), insert_now)
          (rw fresh (
            rw (rows_of-appended cfg.engine r db.working, HasIntTime-kept cfg.engine r time)
              (refl, refl, refl))))

module _ (p : Packages) where
  time-sealed_row :
      (m : Posted) (draw : Draw) (app : App p)
      → in_int64 draw.now ≡ true
      → HasIntTime (sealed_row p m draw app).0
  unfolding sealed_row
  time-sealed_row m draw app h = (draw.now, refl, h)

  prev-sealed_row :
      (m : Posted) (draw : Draw) (app : App p)
      → (sealed_row p m draw app).0.prev_hash ≡ app.last_hash
  unfolding sealed_row
  prev-sealed_row m draw app = ground arith

  misplaced :
      (rows more : List Row) (r : Row)
      → hash_after p.config.repr p.sha256_hex (tip genesis rows) r ≢ r.record_hash
      → all_true (verify_chain p.config.repr p.sha256_hex ((rows ++ r ∷ []) ++ more)) ≡ false
  misplaced rows more r apart =
      let all_rows = (rows ++ r ∷ []) ++ more in
      elim (Bool-cases (all_true (verify_chain p.config.repr p.sha256_hex all_rows))) [
        | inl all ↦
            let linked : Linked p.config.repr p.sha256_hex (tip genesis rows) (r ∷ more) =
              Linked-right p genesis rows (r ∷ more) (
                rw (append_assoc rows (r ∷ []) more) at
                  ((verify_chain_iff p.config.repr p.sha256_hex all_rows).0 all)) in
            absurd (apart (sym linked.0))
        | inr some_false ↦ some_false
      ]

  -- When the write queue is full, a new message is inserted at once, behind the rows of the file,
  -- and committed with them, ahead of all the rows of the batch and the queue, although it is linked
  -- to the hash that was drawn last. Unless its digest behind the last row of the file is its own,
  -- `verify_chain` does not accept the file once the rows that wait have been written behind it.
  pub full_queue_overtakes :
      (m : Posted) (draw : Draw) (app : App p)
      → in_int64 draw.now ≡ true
      → contains app.db.seen m.msg_id ≡ false
      → contains (msg_ids app.db.working.messages) m.msg_id ≡ false
      → queue_max ≤ length app.db.queue
      → let row = (sealed_row p m draw app).0 in
        hash_after p.config.repr p.sha256_hex (tip genesis (rows_of app.db.working.messages)) row
          ≢ row.record_hash
        → let after = (store_message p m draw app).1 in
          (rows_of after.db.working.messages ≡ rows_of app.db.working.messages ++ row ∷ [])
          × (after.db.committed ≡ after.db.working)
          × (row.prev_hash ≡ app.last_hash)
          × (pending after.db ≡ pending app.db)
          × (all_true (
                verify_chain p.config.repr p.sha256_hex
                  (rows_of after.db.working.messages ++ pending after.db))
              ≡ false)
  unfolding store_message
  full_queue_overtakes m draw app time new fresh full apart =
      let (row, chained) = sealed_row p m draw app in
      let same : chained.db ≡ app.db = db-sealed_row p m draw app in
      let id : row.msg_id ≡ m.msg_id = msg_id-sealed_row p m draw app in
      let (saved, db) = save_message p.config row chained.db in
      let (rows, filed, waiting) =
        full_insert p.config row chained.db (time-sealed_row m draw app time) (rw (same, id) new)
          (rw (same, id) fresh) (rw same (ground (arith, full))) in
      let rows' = rows ∙ ap (λ (d : Db). rows_of d.working.messages ++ row ∷ []) same in
      let waiting' = waiting ∙ ap pending same in
      rw (db-after_save p m draw saved (record chained { db = db })) (
        rows',
        filed,
        prev-sealed_row m draw app,
        waiting',
        rw (rows', waiting')
            (misplaced (rows_of app.db.working.messages) (pending app.db) row apart),
      )
