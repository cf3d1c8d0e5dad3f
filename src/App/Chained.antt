-- ===== src/App/Chained.antt =====
-- The hash chain of the messages that `POST /message` accepts, in the file and on the way to it.
use chat_app_csd.Prelude.{
  ◌+◌, String, ◌≡◌, refl, sym, ap, ◌∙◌, Bool, true, false, List, [], ◌∷◌, ◌++◌, append_assoc, arith,
  length, contains, ltb,
}
use chat_app_csd.Integrity.Chain.{Linked-append, tip, all_true, verify_chain_iff}
use chat_app_csd.Integrity.{hash_after, verify_chain}
use chat_app_csd.Db.{
  raised, returned, Outcome, save_message, message_exists, queue_max, genesis, Db,
}
use chat_app_csd.Db.Pipeline.{pending}
use chat_app_csd.App.Answers.{db-sealed_row, db-after_save, handle_induction}
use chat_app_csd.Store.{Row, rows_of}
use chat_app_csd.App.{Packages, App, broadcast_ws, Draw, track_response_time}
use chat_app_csd.App.Post.{
  post_message, sealed_row, store_message, Posted, Request, after_save, handle_data, named,
  body_data,
}

abbrev pub chain_rows : Db → List Row
chain_rows db = rows_of db.working.messages ++ pending db

tip-snoc : (prev : String) (rows : List Row) (r : Row) → tip prev (rows ++ r ∷ []) ≡ r.record_hash
tip-snoc prev [] r = refl
tip-snoc prev (x ∷ rows) r = tip-snoc x.record_hash rows r

module _ (p : Packages) where
  -- `verify_chain` accepts the messages of the file followed by those that wait for it, and the
  -- process is about to continue behind the last of them.
  pub record IsChained (app : App p) : Type 0 where
    pub verified : all_true (verify_chain p.config.repr p.sha256_hex (chain_rows app.db)) ≡ true
    pub continued : app.last_hash ≡ tip genesis (chain_rows app.db)

  rows-save_message :
      (r : Row) (db : Db)
      → contains db.seen r.msg_id ≡ false
      → ltb (length db.queue) queue_max ≡ true
      → chain_rows (save_message p.config r db).1 ≡ chain_rows db ++ r ∷ []
  unfolding save_message
  rows-save_message r db new room =
      rw (new, room)
        (sym (
          append_assoc (rows_of db.working.messages) (pending db) (r ∷ [])
          ∙ ap (◌++◌ (rows_of db.working.messages)) (append_assoc db.in_flight db.queue (r ∷ []))))

  -- A row that is linked behind the state's last hash continues the chain.
  snoc-IsChained :
      (r : Row) (rows : List Row) (last : String)
      → all_true (verify_chain p.config.repr p.sha256_hex rows) ≡ true
      → last ≡ tip genesis rows
      → r.record_hash ≡ hash_after p.config.repr p.sha256_hex last r
      → all_true (verify_chain p.config.repr p.sha256_hex (rows ++ r ∷ [])) ≡ true
  snoc-IsChained r rows last verified continued linked =
      (verify_chain_iff p.config.repr p.sha256_hex (rows ++ r ∷ [])).1 (
        Linked-append p.config.repr p.sha256_hex genesis rows (r ∷ [])
          ((verify_chain_iff p.config.repr p.sha256_hex rows).0 verified)
          (rw (← continued) (linked, tt)))

  pub hash-sealed_row :
      (m : Posted) (draw : Draw) (app : App p)
      → let (row, after) = sealed_row p m draw app in
        (row.record_hash ≡ hash_after p.config.repr p.sha256_hex app.last_hash row)
        × (after.last_hash ≡ row.record_hash)
        × (row.msg_id ≡ m.msg_id)
  unfolding sealed_row
  hash-sealed_row m draw app = (ground arith, ground arith, refl)

  last_hash-after_save :
      (m : Posted) (draw : Draw) (saved : Outcome Bool) (app : App p)
      → (after_save p m draw saved app).1.last_hash ≡ app.last_hash
  unfolding broadcast_ws
  last_hash-after_save m draw raised app = refl
  last_hash-after_save m draw (returned inserted) app = ground arith

  store-IsChained :
      (m : Posted) (draw : Draw) (app : App p)
      → contains app.db.seen m.msg_id ≡ false
      → ltb (length app.db.queue) queue_max ≡ true
      → IsChained app
      → IsChained (store_message p m draw app).1
  unfolding store_message
  store-IsChained m draw app new room h =
      let (row, chained) = sealed_row p m draw app in
      let (saved, db) = save_message p.config row chained.db in
      let (linked, last, id) = hash-sealed_row m draw app in
      let stored : App p = record chained { db = db } in
      let rows : chain_rows db ≡ chain_rows app.db ++ row ∷ [] =
        rw (db-sealed_row p m draw app) (rows-save_message row app.db (rw id new) room) in
      record {
        verified =
            rw (db-after_save p m draw saved stored, rows)
              (snoc-IsChained row (chain_rows app.db) app.last_hash h.verified h.continued linked);
        continued =
            rw (db-after_save p m draw saved stored, rows, last_hash-after_save m draw saved stored)
              (last ∙ sym (tip-snoc genesis (chain_rows app.db) row));
      }

  -- Take a state whose messages, in the file and on the way to it, `verify_chain` accepts, and
  -- whose last hash is that of the last of them. While the write queue has room, any `POST
  -- /message` leaves such a state.
  pub post_message-IsChained :
      (request : Request) (draw : Draw) (app : App p)
      → ltb (length app.db.queue) queue_max ≡ true
      → IsChained app
      → IsChained (post_message p request draw app).1
  unfolding post_message track_response_time
  post_message-IsChained request draw app room h =
      let entered : App p = record app { active_requests = app.active_requests + 1 } in
      let before : IsChained entered = record { verified = h.verified; continued = h.continued } in
      let worked : IsChained (handle_data p (body_data request) draw entered).1 =
        handle_induction p IsChained (body_data request) draw entered before (λ m new.
          store-IsChained (named m draw) draw entered (unfold message_exists in new) room before) in
      record { verified = worked.verified; continued = worked.continued }
