-- ===== src/Integrity/Edits.antt =====
-- What the chain shows of an edit to the stored rows, and what it does not.
use chat_app_csd.Prelude.{
  ℕ, zero, suc, String, ◌≡◌, refl, sym, ap, ◌∙◌, ◌≢◌, Bool, true, false, List, [], ◌∷◌, ◌++◌, map,
  arith, eq_iff, take,
}
use mathlib.Core.Path.{ap₂}
use chat_app_csd.Value.{Value}
use chat_app_csd.Integrity.{
  verify_chain, verify_from, verify_record, compute_record_hash, hash_after, record_payload,
}
use chat_app_csd.Store.{Row}
use chat_app_csd.Integrity.Chain.{tip}
use chat_app_csd.Db.{genesis}

-- A row with its columns `msg_id`, `plaintext`, `pubkey_jwk` and `prev_hash` written anew.
abbrev pub rewritten : (ids plaintexts keys links : Row → String) → Row → Row
rewritten ids plaintexts keys links r = record r {
  msg_id = ids r;
  plaintext = plaintexts r;
  pubkey_jwk = keys r;
  prev_hash = links r;
}

module _ (repr : Value → String) (sha256_hex : String → String) where
  verify_from-append :
      (prev : String) (rows more : List Row)
      → verify_from repr sha256_hex prev (rows ++ more)
        ≡ verify_from repr sha256_hex prev rows ++ verify_from repr sha256_hex (tip prev rows) more
  unfolding verify_from
  verify_from-append prev [] more = refl
  verify_from-append prev (r ∷ rows) more =
      ap (◌∷◌ (verify_record repr sha256_hex r prev)) (verify_from-append r.record_hash rows more)

  changed_fails :
      (prev : String) (r : Row)
      → hash_after repr sha256_hex prev r ≢ r.record_hash
      → verify_record repr sha256_hex r prev ≡ false
  unfolding verify_record
  changed_fails prev r n =
      ground (arith, n, eq_iff (hash_after repr sha256_hex prev r) r.record_hash)

  -- An edit of a row that leaves its hash as it was, and after which the columns no longer hash
  -- to it, turns the verdict of that row to False; every row before it and behind it keeps the
  -- verdict that it had.
  pub edit_flags_one_row :
      (before after : List Row) (r edited : Row)
      → edited.record_hash ≡ r.record_hash
      → hash_after repr sha256_hex (tip genesis before) edited ≢ r.record_hash
      → (verify_chain repr sha256_hex (before ++ r ∷ after)
          ≡ verify_chain repr sha256_hex before
            ++ verify_record repr sha256_hex r (tip genesis before)
              ∷ verify_from repr sha256_hex r.record_hash after)
        × (verify_chain repr sha256_hex (before ++ edited ∷ after)
            ≡ verify_chain repr sha256_hex before
              ++ false ∷ verify_from repr sha256_hex r.record_hash after)
  unfolding verify_chain verify_from
  edit_flags_one_row before after r edited same changed =
      let prev = tip genesis before in
      let fails = changed_fails prev edited (λ e. changed (e ∙ same)) in
      (
        verify_from-append genesis before (r ∷ after),
        verify_from-append genesis before (edited ∷ after)
            ∙ ap₂
                (λ (b : Bool) (h : String).
                  verify_from repr sha256_hex genesis before
                  ++ b ∷ verify_from repr sha256_hex h after)
                fails same,
      )

  -- An edit goes unseen only if its payload is the old one or collides with it under SHA-256.
  pub unseen_edit :
      (prev : String) (r edited : Row)
      → verify_record repr sha256_hex r prev ≡ true
      → verify_record repr sha256_hex edited prev ≡ true
      → edited.record_hash ≡ r.record_hash
      → sha256_hex (
          record_payload repr sha256_hex prev edited.username edited.ciphertext edited.signature
            edited.timestamp)
        ≡ sha256_hex
            (record_payload repr sha256_hex prev r.username r.ciphertext r.signature r.timestamp)
  unfolding verify_record compute_record_hash
  unseen_edit prev r edited h k same =
      (eq_iff _ edited.record_hash).0 k ∙ same ∙ sym ((eq_iff _ r.record_hash).0 h)

  -- Whatever is written to the columns `msg_id`, `plaintext`, `pubkey_jwk` and `prev_hash` of any
  -- rows, every row keeps its verdict.
  pub blind_columns :
      (prev : String) (rows : List Row) (ids plaintexts keys links : Row → String)
      → verify_from repr sha256_hex prev (map (rewritten ids plaintexts keys links) rows)
        ≡ verify_from repr sha256_hex prev rows
  unfolding verify_from
  blind_columns prev [] ids plaintexts keys links = refl
  blind_columns prev (r ∷ rows) ids plaintexts keys links =
      ap (◌∷◌ (verify_record repr sha256_hex r prev))
        (blind_columns r.record_hash rows ids plaintexts keys links)

  verify_from-take :
      (prev : String) (n : ℕ) (rows : List Row)
      → verify_from repr sha256_hex prev (take n rows)
        ≡ take n (verify_from repr sha256_hex prev rows)
  unfolding verify_from
  verify_from-take prev zero rows = refl
  verify_from-take prev (suc n) [] = refl
  verify_from-take prev (suc n) (r ∷ rows) =
      ap (◌∷◌ (verify_record repr sha256_hex r prev)) (verify_from-take r.record_hash n rows)

  -- `verify_chain` gives the rows that are left, after any number of rows was dropped from the
  -- end, the verdicts that they had.
  pub verify_chain-take :
      (n : ℕ) (rows : List Row)
      → verify_chain repr sha256_hex (take n rows) ≡ take n (verify_chain repr sha256_hex rows)
  unfolding verify_chain
  verify_chain-take n rows = verify_from-take genesis n rows
