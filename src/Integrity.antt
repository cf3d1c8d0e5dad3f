-- ===== src/Integrity.antt =====
-- integrity.py: the hash chain over the stored rows. SHA-256 is the parameter `sha256_hex`, from
-- the UTF-8 text of a payload to the digest in hexadecimal.
pub mod Chain
pub mod Edits
use chat_app_csd.Prelude.{
  ℕ, zero, suc, ◌+◌, ◌-◌, ◌*◌, ◌/◌, ◌%◌, ◌^◌, ◌≤◌, ◌<◌, String, count, ◌≡◌, refl, sym, ap, ◌∙◌, ◌≢◌,
  ◌↔◌, ◌⊎◌, inl, inr, Bool, true, false, not, ◌&&◌, ◌||◌, Option, none, some, List, [], ◌∷◌, ◌++◌,
  map, append-nil, append_assoc, map-append, arith, ◌==◌, eq_iff, eq_refl, length, take, drop,
  take-append-drop, All-append, length-take, length-drop, drop_all, length-append, All, contains,
  contains-append, Distinct, Bool-cases, Option-cases, if◌then◌else◌, ltb, leb, nat_eq, ℤ, pos,
  negsuc, is_empty, str_int, int_of_text, int_of_text-str_int, is_empty-str_int, f_string,
}
use chat_app_csd.Value.{Value, str}
use chat_app_csd.Store.{Row}
use chat_app_csd.Db.{genesis}

module _ (repr : Value → String) (sha256_hex : String → String) where
  -- The f-string that is hashed.
  unfoldable pub record_payload : String → String → String → String → Value → String
  record_payload prev_hash username ciphertext signature timestamp = f_string (
      prev_hash
      ∷ "|"
      ∷ username
      ∷ "|"
      ∷ ciphertext
      ∷ "|"
      ∷ signature
      ∷ "|"
      ∷ str repr timestamp
      ∷ [])

  unfoldable pub compute_record_hash : String → String → String → String → Value → String
  compute_record_hash prev_hash username ciphertext signature timestamp =
      sha256_hex (record_payload prev_hash username ciphertext signature timestamp)

  -- The hash of a row's columns behind a given hash.
  abbrev pub hash_after : String → Row → String
  hash_after prev_hash r =
      compute_record_hash prev_hash r.username r.ciphertext r.signature r.timestamp

  unfoldable pub verify_record : Row → String → Bool
  verify_record r prev_hash = hash_after prev_hash r == r.record_hash

  unfoldable pub verify_from : String → List Row → List Bool
  unfolding verify_record
  verify_from prev_hash [] = []
  verify_from prev_hash (r ∷ rows) = verify_record r prev_hash ∷ verify_from r.record_hash rows

  unfoldable pub verify_chain : List Row → List Bool
  verify_chain rows = verify_from genesis rows
