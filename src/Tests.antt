-- ===== src/Tests.antt =====
-- The packages, rows and states that the examples use. The packages are toys that keep the laws of
-- the records they fill.
pub mod Processes
pub mod Chains
pub mod Requests
pub mod Services
pub mod Threads
pub mod Floats
pub mod Metrics
pub mod Connections
pub mod Overtaken
pub mod Views
pub mod Lifetime
pub mod Survived
pub mod Clusters
pub mod Balancers
pub mod SharedDbs
use chat_app_csd.Prelude.{
  ℕ, zero, suc, ◌+◌, ◌-◌, ◌*◌, ◌/◌, ◌%◌, ◌^◌, ◌≤◌, ◌<◌, String, count, ◌≡◌, refl, sym, ap, ◌∙◌, ◌≢◌,
  ◌↔◌, ◌⊎◌, inl, inr, Bool, true, false, not, ◌&&◌, ◌||◌, Option, none, some, List, [], ◌∷◌, ◌++◌,
  map, append-nil, append_assoc, map-append, arith, ◌==◌, eq_iff, eq_refl, length, take, drop,
  take-append-drop, All-append, length-take, length-drop, drop_all, length-append, All, contains,
  contains-append, Distinct, Bool-cases, Option-cases, if◌then◌else◌, ltb, leb, nat_eq, ℤ, pos,
  negsuc, is_empty, str_int, int_of_text, int_of_text-str_int, is_empty-str_int, f_string, strip,
  prefix, count-prefix-le,
}
use chat_app_csd.Store.{Engine, Row, empty_store}
use chat_app_csd.Db.{Config, Db, genesis, start}
use chat_app_csd.Signatures.{Attempt, Ecdsa, done, handled}
use chat_app_csd.CryptoUtils.{Fernet}
use chat_app_csd.App.{App, Draw, Packages}
use chat_app_csd.Value.{Fields, list, field, int, dict, end, nil, text, null}
use chat_app_csd.App.Post.{Request}

-- Ids rise by one, and a column of type INTEGER keeps every value as it is.
abbrev pub engine : Engine
engine = record { id_gap = 0; affinity = λ v. v; affinity_int = λ n. refl }

-- A backend with caches of its own.
abbrev pub config : Config
config = record {
  engine = engine;
  repr = λ v. "[...]";
  db_service_url = "";
  is_shared_db_host = false;
}

abbrev pub row : String → ℤ → Row
row id time = record {
  msg_id = id;
  username = "ann";
  plaintext = "hi";
  ciphertext = "hi";
  signature = "s";
  pubkey_jwk = "k";
  timestamp = int time;
  prev_hash = genesis;
  record_hash = "h";
}

-- A row with a timestamp that SQLite refuses, as a socket may send one.
abbrev pub bad_row : Row
bad_row = record (row "x" (pos 1)) { timestamp = list nil }

abbrev pub fresh : Db
fresh = start empty_store

-- A key signs by writing itself before the text.
abbrev sign_with : String → String → String
sign_with key message = f_string (key ∷ "/" ∷ message ∷ [])

abbrev check_with : String → String → String → Attempt (Unit {0})
check_with key signature message = if signature == sign_with key message then done tt else handled

pub check_with_lem :
    (key message : String) → check_with key (sign_with key message) message ≡ done tt
check_with_lem key message = rw (eq_refl (sign_with key message)) refl

abbrev pub ecdsa : Ecdsa
ecdsa = record {
  PrivateKey = String;
  PublicKey = String;
  Signature = String;
  generate_private_key = λ seed. "key";
  public_key = λ k. k;
  public_bytes = λ k. k;
  load_pem_public_key = λ s. done s;
  sign = λ k seed m. sign_with k m;
  verify = check_with;
  b64encode = λ s. s;
  b64decode = λ s. done s;
  load-public_bytes = λ k. refl;
  b64decode-b64encode = λ s. refl;
  verify-sign = λ k seed m. check_with_lem k m;
}

abbrev opened : String → Option String
opened String.[] = none
opened (String.◌∷◌ c s) = some s

pub strip_key : strip "key" ≡ "key"
unfolding strip
strip_key = refl

-- A token is the text behind a letter.
abbrev pub fernet : Fernet
fernet = record {
  generate_key = λ seed. "key";
  encrypt = λ key seed m. String.◌∷◌ "g" m;
  decrypt = λ key. opened;
  accepts = λ key. not (is_empty key);
  accepts-generate_key = λ seed. refl;
  decrypt-encrypt = λ key seed m h. refl;
  strip-generate_key = λ seed. strip_key;
}

abbrev pub packages : Packages
packages = record {
  ecdsa = ecdsa;
  fernet = fernet;
  sha256_hex = λ s. s;
  config = config;
  secret_key = "key";
}

abbrev pub app : App packages
app = record {
  db = fresh;
  clients = (7, "bob") ∷ [];
  client_keys = [];
  response_times = [];
  active_requests = 0;
  keypair_cache = [];
  last_hash = genesis;
  sent = [];
}

abbrev pub draw : Draw
draw = record {
  now = pos 1700000000000;
  uuid = "u-1";
  key_seed = 1;
  nonce = 2;
  iv = 3;
  elapsed = 4;
  dead = λ ws. false;
}

abbrev pub posted : Fields
posted =
    field "client-name" (text "ann") (field "msg" (text "hi") (field "msg_id" (text "m-1") end))

abbrev pub request : Request
request = record { is_json = true; json = some (dict posted); form = end; silent_json = null }
