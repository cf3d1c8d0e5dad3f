-- ===== src/Db/Writer.antt =====
-- `_background_writer` of db.py: one round of its loop is `writer_take` (the gets from the queue)
-- and then `writer_write` (the INSERT, the commit and the replication).
use chat_app_csd.Prelude.{
  ℕ, zero, suc, Bool, List, [], ◌∷◌, ◌++◌, map, not, ◌&&◌, is_empty, if◌then◌else◌,
}
use chat_app_csd.Value.{Value, str, text, dict, end, field}
use chat_app_csd.Store.{Row, executemany}
use chat_app_csd.Db.{Config, Db, commit}

abbrev pub batch_max : ℕ
batch_max = 200

-- The blocking `get`, and `get_nowait` while the batch is short, with `n` places left in it: the
-- batch and the rest of the queue.
unfoldable pub gather : ℕ → List Row → List Row → List Row × List Row
gather zero batch queue = (batch, queue)
gather (suc n) batch [] = (batch, [])
gather (suc n) batch (r ∷ queue) = gather n (batch ++ r ∷ []) queue

-- A batch of at most `n` rows.
unfoldable pub take_batch : ℕ → Db → Db
unfolding gather
take_batch n db =
    let (batch, rest) = gather n [] db.queue in record db { in_flight = batch; queue = rest }

-- With nothing to get the round ends after the timeout (`queue.Empty`).
unfoldable pub writer_take : Db → Db
unfolding take_batch
writer_take db = take_batch batch_max db

-- The record that is posted to the shared service.
unfoldable pub payload : Config → Row → Value
payload cfg r = dict (
    field "msg_id" (text r.msg_id) (
      field "username" (text r.username) (
        field "display_name" (text r.username) (
          field "plaintext" (text r.plaintext) (
            field "ciphertext" (text r.ciphertext) (
              field "signature" (text r.signature) (
                field "pubkey_jwk" (text r.pubkey_jwk) (
                  field "timestamp" (text (str cfg.repr r.timestamp)) (
                    field "prev_hash" (text r.prev_hash)
                      (field "hmac_digest" (text r.record_hash) end))))))))))

abbrev pub replicates : Config → Bool
replicates cfg = not (is_empty cfg.db_service_url) && not cfg.is_shared_db_host

-- `if batch:` and all below it, with the body of the request to the shared service, if one is
-- made; its outcome is ignored. An exception of the INSERT is swallowed by the loop: nothing is
-- committed, and the batch is gone with the round.
unfoldable pub writer_write : Config → Db → Db × List Value
unfolding commit payload
writer_write cfg db = elim db.in_flight [
  | [] ↦ (db, [])
  | r ∷ rows ↦
      let (s, done) = executemany cfg.engine (r ∷ rows) db.working in
      let written = record db { working = s; in_flight = [] } in
      if done
      then (commit written, if replicates cfg then map (payload cfg) (r ∷ rows) else [])
      else (written, [])
]

unfoldable pub writer_round : Config → Db → Db × List Value
writer_round cfg db = writer_write cfg (writer_take db)

-- That many rounds, one after the other.
unfoldable pub writer_rounds : Config → ℕ → Db → Db
writer_rounds cfg zero db = db
writer_rounds cfg (suc n) db = writer_rounds cfg n (writer_round cfg db).0
