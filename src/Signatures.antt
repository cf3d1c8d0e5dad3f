-- ===== src/Signatures.antt =====
-- signatures.py. The package `cryptography` and its exceptions are the record `Ecdsa`; so is
-- base64, of which only the round trip is used.
use chat_app_csd.Prelude.{ℕ, String, ◌≡◌, refl, Bool, true, false}
use chat_app_csd.Db.{Outcome, returned, raised}

-- How a call that may raise ends: with a value, with one of the exceptions that `verify_signature`
-- handles (InvalidSignature, ValueError, TypeError), or with any other.
pub data Attempt {ℓ} (A : Type ℓ) : Type ℓ where
  done : A → Attempt A
  handled failed : Attempt A

pub record Ecdsa : Type 1 where
  pub PrivateKey : Type 0
  pub PublicKey : Type 0
  pub Signature : Type 0
  -- from the randomness of the call
  pub generate_private_key : ℕ → PrivateKey
  pub public_key : PrivateKey → PublicKey
  pub public_bytes : PublicKey → String
  pub load_pem_public_key : String → Attempt PublicKey
  pub sign : PrivateKey → ℕ → String → Signature
  pub verify : PublicKey → Signature → String → Attempt (Unit {0})
  pub b64encode : Signature → String
  pub b64decode : String → Attempt Signature
  -- a key that was written out is read back
  pub load-public_bytes : (k : PublicKey) → load_pem_public_key (public_bytes k) ≡ done k
  pub b64decode-b64encode : (s : Signature) → b64decode (b64encode s) ≡ done s
  -- a signature is accepted by the public key of its private key, for the text that was signed
  pub verify-sign :
      (k : PrivateKey) (seed : ℕ) (m : String) → verify (public_key k) (sign k seed m) m ≡ done tt

module _ (e : Ecdsa) where
  open e use {
    PrivateKey, PublicKey, Signature, generate_private_key, public_key, public_bytes,
    load_pem_public_key, sign, verify, b64encode, b64decode, load-public_bytes, b64decode-b64encode,
    verify-sign,
  }

  unfoldable pub generate_keypair : ℕ → PrivateKey × PublicKey
  generate_keypair seed = let k = generate_private_key seed in (k, public_key k)

  unfoldable pub public_key_to_pem : PublicKey → String
  public_key_to_pem k = public_bytes k

  unfoldable pub sign_message : PrivateKey → ℕ → String → String
  sign_message k seed message = b64encode (sign k seed message)

  abbrev verdict : Attempt (Unit {0}) → Outcome Bool
  verdict (done _) = returned true
  verdict handled = returned false
  verdict failed = raised

  abbrev verify_decoded : PublicKey → String → Attempt Signature → Outcome Bool
  verify_decoded k message (done s) = verdict (verify k s message)
  verify_decoded k message handled = returned false
  verify_decoded k message failed = raised

  abbrev verify_loaded : String → String → Attempt PublicKey → Outcome Bool
  verify_loaded signature_b64 message (done k) = verify_decoded k message (b64decode signature_b64)
  verify_loaded signature_b64 message handled = returned false
  verify_loaded signature_b64 message failed = raised

  pub verify_signature : String → String → String → Outcome Bool
  verify_signature public_key_pem signature_b64 message =
      verify_loaded signature_b64 message (load_pem_public_key public_key_pem)

  -- What a key signs is accepted under the PEM text of its public key.
  pub verify-sign_message :
      (k : PrivateKey) (nonce : ℕ) (message : String)
      → verify_signature (public_key_to_pem (public_key k)) (sign_message k nonce message) message
        ≡ returned true
  unfolding verify_signature public_key_to_pem sign_message
  verify-sign_message k nonce message =
      rw
        (
          load-public_bytes (public_key k),
          b64decode-b64encode (sign k nonce message),
          verify-sign k nonce message,
        )
        refl
