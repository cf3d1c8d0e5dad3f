-- ===== src/Db/Replica.antt =====
-- The record that the writer posts, read back by `save_messages_batch` of the shared service.
use chat_app_csd.Prelude.{
  String, ◌≡◌, refl, sym, false, some, ℤ, is_empty, int_of_text-str_int, is_empty-str_int,
}
use chat_app_csd.Value.{to_int, str, ◌or◌, Fields, null, Value, get, text, field, int, end}
use chat_app_csd.Db.Ingest.{parse_item, timestamp_of, item_row}
use chat_app_csd.Db.{Config, returned}
use chat_app_csd.Store.{Row}
use chat_app_csd.Db.Writer.{payload}

-- `str(a or "")` of a text is the text, also behind more alternatives that have the same text
-- or are missing.
one_text : (repr : Value → String) (s : String) → str repr (text s or text "") ≡ s
unfolding ◌or◌ str
one_text repr String.[] = refl
one_text repr (String.◌∷◌ c s) = refl

text_or_missing : (repr : Value → String) (s : String) → str repr (text s or null or text "") ≡ s
unfolding ◌or◌ str
text_or_missing repr String.[] = refl
text_or_missing repr (String.◌∷◌ c s) = refl

text_or_two_missing :
    (repr : Value → String) (s : String) → str repr (text s or null or null or text "") ≡ s
unfolding ◌or◌ str
text_or_two_missing repr String.[] = refl
text_or_two_missing repr (String.◌∷◌ c s) = refl

missing_or_text : (repr : Value → String) (s : String) → str repr (null or text s or text "") ≡ s
unfolding ◌or◌ str
missing_or_text repr String.[] = refl
missing_or_text repr (String.◌∷◌ c s) = refl

text_twice :
    (repr : Value → String) (s : String) → str repr (text s or text s or null or text "") ≡ s
unfolding ◌or◌ str
text_twice repr String.[] = refl
text_twice repr (String.◌∷◌ c s) = refl

module _ (cfg : Config) where
  abbrev posted : Row → Fields
  posted r =
      (field "msg_id" (text r.msg_id) (
        field "username" (text r.username) (
          field "display_name" (text r.username) (
            field "plaintext" (text r.plaintext) (
              field "ciphertext" (text r.ciphertext) (
                field "signature" (text r.signature) (
                  field "pubkey_jwk" (text r.pubkey_jwk) (
                    field "timestamp" (text (str cfg.repr r.timestamp)) (
                      field "prev_hash" (text r.prev_hash)
                        (field "hmac_digest" (text r.record_hash) end))))))))))

  posted_time :
      (r : Row) (now n : ℤ) → r.timestamp ≡ int n → timestamp_of now (posted r) ≡ returned n
  unfolding timestamp_of get str ◌or◌ to_int
  posted_time r now n time = rw time (rw (is_empty-str_int n) (rw (int_of_text-str_int n) refl))

  posted_row :
      (r : Row) (n : ℤ)
      → r.timestamp ≡ int n
      → item_row cfg.repr (posted r) r.msg_id (returned n) ≡ returned (some r)
  unfolding get
  posted_row r n time = λ i. returned (
      some (record {
        msg_id = r.msg_id;
        username = text_twice cfg.repr r.username i;
        plaintext = text_or_two_missing cfg.repr r.plaintext i;
        ciphertext = one_text cfg.repr r.ciphertext i;
        signature = one_text cfg.repr r.signature i;
        pubkey_jwk = one_text cfg.repr r.pubkey_jwk i;
        timestamp = sym time i;
        prev_hash = one_text cfg.repr r.prev_hash i;
        record_hash = missing_or_text cfg.repr r.record_hash i;
      }))

  -- A posted row comes back as it was, all nine columns, if its id is not empty and its timestamp
  -- is an integer.
  pub payload_roundtrip :
      (r : Row) (now n : ℤ)
      → is_empty r.msg_id ≡ false
      → r.timestamp ≡ int n
      → parse_item cfg.repr now (payload cfg r) ≡ returned (some r)
  unfolding parse_item payload get
  payload_roundtrip r now n new time =
      rw (text_or_missing cfg.repr r.msg_id, new)
        (rw (posted_time r now n time) (posted_row r n time))
