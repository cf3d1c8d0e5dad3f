-- ===== src/App/Race.antt =====
-- Two requests with one id, of which both pass the check before either saves.
use chat_app_csd.Prelude.{◌≡◌, refl, ap, ◌∙◌, true, false}
use chat_app_csd.Db.Saving.{save_message_lem}
use chat_app_csd.App.Answers.{seen-store, db-sealed_row, msg_id-sealed_row}
use chat_app_csd.App.Chained.{hash-sealed_row}
use chat_app_csd.Integrity.{hash_after}
use chat_app_csd.Db.{Db, save_message, message_exists, returned}
use chat_app_csd.Db.Pipeline.{pending}
use chat_app_csd.App.{Packages, Draw, App, answer}
use chat_app_csd.App.Post.{Posted, store_message, sealed_row, ok_body}

module _ (p : Packages) where
  -- A message that is stored although its id has become known since the check.
  known_store :
      (m : Posted) (draw : Draw) (app : App p)
      → message_exists m.msg_id app.db ≡ true
      → let row = (sealed_row p m draw app).0 in
        let (response, after) = store_message p m draw app in
        (response ≡ answer 200 (ok_body m draw.now))
        × (after.db ≡ record app.db { writer_started = true })
        × (after.last_hash ≡ hash_after p.config.repr p.sha256_hex app.last_hash row)
  unfolding store_message
  known_store m draw app known =
      let (row, chained) = sealed_row p m draw app in
      let (linked, last, _) = hash-sealed_row p m draw app in
      let refused : save_message p.config row chained.db
          ≡ (returned false, record chained.db { writer_started = true }) =
        (save_message_lem p.config row chained.db).0
          (rw (db-sealed_row p m draw app, msg_id-sealed_row p m draw app) known) in
      rw refused (
        refl,
        ap (λ (db : Db). record db { writer_started = true }) (db-sealed_row p m draw app),
        last ∙ linked,
      )

  -- When two requests with one id have both passed the check, and the first has stored its message,
  -- then the second is answered "ok", and not "duplicate", with a time of its own, but leaves the
  -- feed, the rows on their way to the file, the file and the open transaction as they were, while
  -- the hash chain has moved on to the hash of its row, which is so stored nowhere.
  pub racing_requests :
      (m : Posted) (draw later : Draw) (app : App p)
      → let once = (store_message p m draw app).1 in
        let lost = (sealed_row p m later once).0 in
        let (response, twice) = store_message p m later once in
        (response ≡ answer 200 (ok_body m later.now))
        × (twice.db.feed ≡ once.db.feed)
        × (pending twice.db ≡ pending once.db)
        × (twice.db.working ≡ once.db.working)
        × (twice.db.committed ≡ once.db.committed)
        × (twice.last_hash ≡ hash_after p.config.repr p.sha256_hex once.last_hash lost)
  racing_requests m draw later app =
      let once = (store_message p m draw app).1 in
      let known : message_exists m.msg_id once.db ≡ true =
        unfold message_exists in seen-store p m draw app in
      let (ok, same, last) = known_store m later once known in
      (ok, rw same refl, rw same refl, rw same refl, rw same refl, last)
