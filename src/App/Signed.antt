-- ===== src/App/Signed.antt =====
-- The signatures and ciphertexts of the rows that `POST /message` of app.py makes.
use mathlib.Core.Path.{subst}
use chat_app_csd.Prelude.{
  ℕ, ◌+◌, String, ◌≡◌, refl, inl, inr, Bool, true, some, List, [], ◌∷◌, ◌++◌, append_assoc, arith,
  ◌==◌, length, Bool-cases, Option-cases, ltb,
}
use chat_app_csd.App.Post.{
  sealed_row, Posted, post_message, store_message, after_save, Request, handle_data, body_data,
  named,
}
use chat_app_csd.Db.{raised, returned, Outcome, save_message, Db}
use chat_app_csd.App.{
  Packages, App, Keys, get_or_create_keypair, new_keys, find_name, canonical_message, cache_max,
  Draw, trimmed, broadcast_ws, track_response_time,
}
use chat_app_csd.Store.{Row}
use chat_app_csd.Signatures.{public_key_to_pem, verify_signature, sign_message, verify-sign_message}
use chat_app_csd.Db.Pipeline.{pending}
use chat_app_csd.CryptoUtils.{decrypt_text, encrypt_text}
use chat_app_csd.Value.{int}
use chat_app_csd.App.Answers.{db-sealed_row, db-after_save, handle_induction}
use chat_app_csd.Db.Saving.{pending_induction}

module _ (p : Packages) where
  -- The PEM text is that of the private key's own public key.
  abbrev pub IsPair : Keys p → Type 0
  IsPair keys = keys.1 ≡ public_key_to_pem p.ecdsa (p.ecdsa.public_key keys.0)

  abbrev pub ArePairs : List (String × Keys p) → Type 0
  ArePairs [] = Unit
  ArePairs ((name, keys) ∷ cache) = IsPair keys × ArePairs cache

  -- The signature is accepted under the row's own key for the row's own text, and the ciphertext is
  -- decrypted to it.
  pub record IsSealed (r : Row) : Type 0 where
    pub signed :
        verify_signature p.ecdsa r.pubkey_jwk r.signature
          (canonical_message p.config.repr r.username r.plaintext r.timestamp)
        ≡ returned true
    pub encrypted : decrypt_text p.fernet p.secret_key r.ciphertext ≡ some r.plaintext

  abbrev pub AreSealed : List Row → Type 0
  AreSealed [] = Unit
  AreSealed (r ∷ rows) = IsSealed r × AreSealed rows

  -- Every cached key is a pair, and every row that waits for the file is sealed.
  pub record IsGenuine (app : App p) : Type 0 where
    pub keys : ArePairs app.keypair_cache
    pub rows : AreSealed (pending app.db)

  AreSealed-append :
      (rows more : List Row) → AreSealed rows → AreSealed more → AreSealed (rows ++ more)
  AreSealed-append [] more h k = k
  AreSealed-append (r ∷ rows) more h k = (h.0, AreSealed-append rows more h.1 k)

  pub new_keys-IsPair : (seed : ℕ) → IsPair (new_keys p seed)
  unfolding new_keys
  new_keys-IsPair seed = refl

  found-IsPair :
      (name : String) (cache : List (String × Keys p)) (keys : Keys p)
      → ArePairs cache
      → find_name name cache ≡ some keys
      → IsPair keys
  found-IsPair name [] keys h e = cc e
  found-IsPair name ((j, k) ∷ cache) keys h e = elim (Bool-cases (j == name)) [
    | inl same ↦ let found : k ≡ keys = cc (rw same at e) in subst IsPair found h.0
    | inr other ↦ found-IsPair name cache keys h.1 (rw other at e)
  ]

  trimmed-ArePairs : (cache : List (String × Keys p)) → ArePairs cache → ArePairs (trimmed p cache)
  unfolding trimmed
  trimmed-ArePairs cache h = elim (Bool-cases (ltb cache_max (length cache))) [
    | inl full ↦ rw full tt
    | inr room ↦ rw room h
  ]

  pub cache-ArePairs :
      (name : String) (seed : ℕ) (app : App p)
      → ArePairs app.keypair_cache
      → let (keys, after) = get_or_create_keypair p name seed app in
        IsPair keys × ArePairs after.keypair_cache
  unfolding get_or_create_keypair
  cache-ArePairs name seed app h = elim (Option-cases (find_name name app.keypair_cache)) [
    | inl missing ↦
        rw missing
          (new_keys-IsPair seed, (new_keys-IsPair seed, trimmed-ArePairs app.keypair_cache h))
    | inr (keys, e) ↦ rw e (found-IsPair name app.keypair_cache keys h e, h)
  ]

  pub signed-IsPair :
      (keys : Keys p) (nonce : ℕ) (message : String)
      → IsPair keys
      → verify_signature p.ecdsa keys.1 (sign_message p.ecdsa keys.0 nonce message) message
        ≡ returned true
  signed-IsPair keys nonce message h = rw h (verify-sign_message p.ecdsa keys.0 nonce message)

  sealed :
      (m : Posted) (draw : Draw) (app : App p)
      → p.fernet.accepts p.secret_key ≡ true
      → ArePairs app.keypair_cache
      → let (row, after) = sealed_row p m draw app in
        IsSealed row × ArePairs after.keypair_cache × (after.db ≡ app.db)
  unfolding sealed_row
  sealed m draw app accepted h =
      let (pair, pairs) = cache-ArePairs m.client_name draw.key_seed app h in
      (
        record {
          signed =
              signed-IsPair _ draw.nonce
                (canonical_message p.config.repr m.client_name m.msg_text (int draw.now)) pair;
          encrypted =
              unfold decrypt_text encrypt_text in
              p.fernet.decrypt-encrypt p.secret_key draw.iv m.msg_text accepted;
        },
        pairs,
        db-sealed_row p m draw app,
      )

  pub save-AreSealed :
      (r : Row) (db : Db)
      → AreSealed (pending db)
      → IsSealed r
      → AreSealed (pending (save_message p.config r db).1)
  save-AreSealed r db h s = pending_induction p.config AreSealed r db h (
      rw (← append_assoc db.in_flight db.queue (r ∷ []))
        (AreSealed-append (pending db) (r ∷ []) h (s, tt)))

  after_save-keys :
      (m : Posted) (draw : Draw) (saved : Outcome Bool) (app : App p)
      → (after_save p m draw saved app).1.keypair_cache ≡ app.keypair_cache
  unfolding broadcast_ws
  after_save-keys m draw raised app = refl
  after_save-keys m draw (returned inserted) app = ground arith

  store-IsGenuine :
      (m : Posted) (draw : Draw) (app : App p)
      → p.fernet.accepts p.secret_key ≡ true
      → IsGenuine app
      → IsGenuine (store_message p m draw app).1
  unfolding store_message
  store-IsGenuine m draw app accepted h =
      let (row, chained) = sealed_row p m draw app in
      let (saved, db) = save_message p.config row chained.db in
      let stored : App p = record chained { db = db } in
      let (row_sealed, pairs, same) = sealed m draw app accepted h.keys in
      record {
        keys = rw (after_save-keys m draw saved stored) pairs;
        rows =
            rw (db-after_save p m draw saved stored)
              (save-AreSealed row chained.db (rw same h.rows) row_sealed);
      }

  -- If Fernet accepts the server's key, then in every state whose cached keys are pairs and whose
  -- waiting rows are sealed, any request leaves such a state: what it stores carries a signature
  -- that is accepted under the key beside it, for the user, text and time of the row, and a
  -- ciphertext that is decrypted to the text.
  pub post_message-IsGenuine :
      (request : Request) (draw : Draw) (app : App p)
      → p.fernet.accepts p.secret_key ≡ true
      → IsGenuine app
      → IsGenuine (post_message p request draw app).1
  unfolding post_message track_response_time
  post_message-IsGenuine request draw app accepted h =
      let entered : App p = record app { active_requests = app.active_requests + 1 } in
      let before : IsGenuine entered = record { keys = h.keys; rows = h.rows } in
      let worked : IsGenuine (handle_data p (body_data request) draw entered).1 =
        handle_induction p (IsGenuine) (body_data request) draw entered before
          (λ m new. store-IsGenuine (named m draw) draw entered accepted before) in
      record { keys = worked.keys; rows = worked.rows }
