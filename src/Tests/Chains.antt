-- ===== src/Tests/Chains.antt =====
-- Examples for the hash chain, the keys and the response times.
use chat_app_csd.Prelude.{
  String, ◌≡◌, refl, ◌≢◌, true, false, none, some, List, [], ◌∷◌, map, eq_iff, pos, str_int,
}
use chat_app_csd.Tests.{row, fernet}
use chat_app_csd.Value.{Value, str}
use chat_app_csd.Store.{Row}
use chat_app_csd.Integrity.{
  compute_record_hash, verify_chain, verify_from, hash_after, record_payload, verify_record,
}
use chat_app_csd.CryptoUtils.{load_or_create_key, decrypt_text, encrypt_text, decrypt_after_restart}
use chat_app_csd.Db.{genesis}
use chat_app_csd.Integrity.Edits.{edit_flags_one_row, rewritten, blind_columns}

abbrev repr : Value → String
repr v = "[...]"

-- A digest that keeps the whole payload.
abbrev digest : String → String
digest s = s

abbrev hash_of : String → Row → String
hash_of = hash_after repr digest

-- Two rows, linked.
abbrev first : Row
first = record (row "a" (pos 1)) { record_hash = hash_of genesis (row "a" (pos 1)) }

abbrev second : Row
second = record (row "b" (pos 2)) { record_hash = hash_of first.record_hash (row "b" (pos 2)) }

abbrev linked : List Row
linked = first ∷ second ∷ []

verified_linked : verify_chain repr digest linked ≡ true ∷ true ∷ []
unfolding verify_chain verify_from verify_record compute_record_hash record_payload str str_int
verified_linked = refl

-- The first row's ciphertext is edited.
abbrev edited : Row
edited = record first { ciphertext = "ho" }

edit_shows : hash_of genesis edited ≢ first.record_hash
unfolding compute_record_hash record_payload str str_int
edit_shows = λ e. cc ((eq_iff (hash_of genesis edited) first.record_hash).1 e)

edit_flags_one_row_example :
    (verify_chain repr digest linked
      ≡ verify_record repr digest first genesis
        ∷ verify_from repr digest first.record_hash (second ∷ []))
    × (verify_chain repr digest (edited ∷ second ∷ [])
        ≡ false ∷ verify_from repr digest first.record_hash (second ∷ []))
edit_flags_one_row_example =
    unfold verify_chain verify_from in
    edit_flags_one_row repr digest [] (second ∷ []) first edited refl edit_shows

blind_columns_example :
    verify_from repr digest genesis
      (map (rewritten (λ r. "z") (λ r. "lies") (λ r. "") (λ r. "")) linked)
    ≡ verify_from repr digest genesis linked
blind_columns_example =
    blind_columns repr digest genesis linked (λ r. "z") (λ r. "lies") (λ r. "") (λ r. "")

-- No variable and no file: the first start makes the key.
decrypt_after_restart_example :
    let (key, file) = load_or_create_key fernet 1 none none in
    decrypt_text fernet (load_or_create_key fernet 2 none file).0 (encrypt_text fernet key 3 "hi")
    ≡ some "hi"
decrypt_after_restart_example =
    decrypt_after_restart fernet 1 2 3 none none "hi" (unfold load_or_create_key in refl)
