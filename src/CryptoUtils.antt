-- ===== src/CryptoUtils.antt =====
-- crypto_utils.py. `Fernet` is the class of the package `cryptography`, with keys and tokens as
-- texts; the environment variable and the key file are arguments, and the file is returned.
use chat_app_csd.Prelude.{
  ℕ, String, ◌≡◌, refl, Bool, true, Option, none, some, arith, if◌then◌else◌, is_empty, strip,
}

pub record Fernet : Type 0 where
  -- from the randomness of the call
  pub generate_key : ℕ → String
  pub encrypt : String → ℕ → String → String
  -- `none` is InvalidToken
  pub decrypt : String → String → Option String
  -- whether `Fernet(key)` is made, and does not raise ValueError
  pub accepts : String → Bool
  pub accepts-generate_key : (seed : ℕ) → accepts (generate_key seed) ≡ true
  -- a token is opened by the key that made it
  pub decrypt-encrypt :
      (key : String) (seed : ℕ) (m : String)
      → accepts key ≡ true
      → decrypt key (encrypt key seed m) ≡ some m
  -- a generated key is base64, with no white space at its ends
  pub strip-generate_key : (seed : ℕ) → strip (generate_key seed) ≡ generate_key seed

module _ (f : Fernet) where
  abbrev key_of_file : ℕ → Option String → String × Option String
  key_of_file seed (some content) = (strip content, some content)
  key_of_file seed none = let key = f.generate_key seed in (key, some key)

  -- The key, and the key file afterwards; an empty variable counts as a missing one.
  unfoldable pub load_or_create_key : ℕ → Option String → Option String → String × Option String
  load_or_create_key seed none file = key_of_file seed file
  load_or_create_key seed (some env_key) file =
      if is_empty env_key then key_of_file seed file else (env_key, file)

  unfoldable pub encrypt_text : String → ℕ → String → String
  encrypt_text key seed plaintext = f.encrypt key seed plaintext

  unfoldable pub decrypt_text : String → String → Option String
  decrypt_text key ciphertext = f.decrypt key ciphertext

  same_key_again :
      (seed later : ℕ) (env file : Option String)
      → let (key, file') = load_or_create_key seed env file in
        (load_or_create_key later env file').0 ≡ key
  unfolding load_or_create_key
  same_key_again seed later none none = f.strip-generate_key seed
  same_key_again seed later none (some content) = refl
  same_key_again seed later (some k) none = ground (arith, f.strip-generate_key seed)
  same_key_again seed later (some k) (some content) = ground arith

  -- Whatever the variable and the key file hold, also where there is no key yet and the first start
  -- makes one: if Fernet accepts the key of the first start, then after a second start, with the
  -- same variable and the file as the first start left it, every message that was encrypted before
  -- is decrypted to its text.
  pub decrypt_after_restart :
      (seed later nonce : ℕ) (env file : Option String) (message : String)
      → f.accepts (load_or_create_key seed env file).0 ≡ true
      → let (key, file') = load_or_create_key seed env file in
        decrypt_text (load_or_create_key later env file').0 (encrypt_text key nonce message)
        ≡ some message
  unfolding decrypt_text encrypt_text
  decrypt_after_restart seed later nonce env file message accepted =
      rw (same_key_again seed later env file) (f.decrypt-encrypt _ nonce message accepted)
