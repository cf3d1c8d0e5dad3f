-- ===== src/Tests/Overtaken.antt =====
-- An example with a full write queue.
use chat_app_csd.Prelude.{
  ℕ, zero, suc, String, ◌≡◌, refl, sym, ◌∙◌, ◌≢◌, false, List, [], ◌∷◌, ◌++◌, arith, ◌==◌, eq_iff,
  length, pos, str_int,
}
use chat_app_csd.Tests.{packages, app, draw, row}
use chat_app_csd.Integrity.{verify_chain, hash_after, compute_record_hash, record_payload}
use chat_app_csd.Integrity.Chain.{all_true, tip}
use chat_app_csd.Db.{genesis, start}
use chat_app_csd.Db.Pipeline.{pending}
use chat_app_csd.Store.{Row, rows_of}
use chat_app_csd.App.{App, canonical_message}
use chat_app_csd.App.Post.{Posted, store_message, sealed_row}
use chat_app_csd.App.Overtaken.{full_queue_overtakes}
use chat_app_csd.Signatures.{sign_message}
use chat_app_csd.CryptoUtils.{encrypt_text}
use chat_app_csd.Value.{str}

repeated : ℕ → Row → List Row
repeated zero r = []
repeated (suc n) r = r ∷ repeated n r

length-repeated : (n : ℕ) (r : Row) → length (repeated n r) ≡ n
unfolding repeated
length-repeated zero r = refl
length-repeated (suc n) r = omega (arith, length-repeated n r)

abbrev full_app : App packages
full_app = record app {
  db = record app.db { queue = repeated 200000 (row "q" (pos 1)) };
  last_hash = "x";
  keypair_cache = ("ann", ("key", "key")) ∷ [];
}

abbrev late : Posted
late = record { client_name = "ann"; msg_text = "hi"; msg_id = "m-1" }

abbrev late_row : Row
late_row = (sealed_row packages late draw full_app).0

abbrev behind_file : String
behind_file =
    hash_after packages.config.repr packages.sha256_hex
      (tip genesis (rows_of full_app.db.working.messages)) late_row

late_seen : behind_file == late_row.record_hash ≡ false
unfolding sealed_row compute_record_hash record_payload str str_int sign_message encrypt_text
    canonical_message start
late_seen = refl

late_apart : behind_file ≢ late_row.record_hash
late_apart = λ e. cc (sym late_seen ∙ (eq_iff behind_file late_row.record_hash).1 e)

full_queue_overtakes_example :
    let after = (store_message packages late draw full_app).1 in
    (rows_of after.db.working.messages ≡ rows_of full_app.db.working.messages ++ late_row ∷ [])
    × (after.db.committed ≡ after.db.working)
    × (late_row.prev_hash ≡ full_app.last_hash)
    × (pending after.db ≡ pending full_app.db)
    × (all_true (
          verify_chain packages.config.repr packages.sha256_hex
            (rows_of after.db.working.messages ++ pending after.db))
        ≡ false)
full_queue_overtakes_example =
    full_queue_overtakes packages late draw full_app refl (unfold start in refl)
      (unfold start in refl) (omega (arith, length-repeated 200000 (row "q" (pos 1)))) late_apart
