-- ===== src/App.antt =====
-- app.py: the state of a backend process, and the helpers that the handlers share. What the process
-- takes from packages is the record `Packages`; what a request finds of the clock, of random numbers
-- and of the sockets is the record `Draw`.
pub mod Post
pub mod Socket
pub mod Routes
pub mod Times
pub mod Answers
pub mod Signed
pub mod Chained
pub mod Feed
pub mod Kept
pub mod Sockets
pub mod Runs
pub mod Forks
pub mod Overtaken
pub mod Race
pub mod Trusted
pub mod Threads
pub mod Metrics
pub mod Views
pub mod Schema
pub mod Start
use chat_app_csd.Prelude.{
  ℕ, zero, suc, ◌+◌, ◌-◌, ◌*◌, ◌/◌, ◌%◌, ◌^◌, ◌≤◌, ◌<◌, String, count, ◌≡◌, refl, sym, ap, ◌∙◌, ◌≢◌,
  ◌↔◌, ◌⊎◌, inl, inr, Bool, true, false, not, ◌&&◌, ◌||◌, Option, none, some, List, [], ◌∷◌, ◌++◌,
  map, append-nil, append_assoc, map-append, arith, ◌==◌, eq_iff, eq_refl, length, take, drop,
  take-append-drop, All-append, length-take, length-drop, drop_all, length-append, All, contains,
  contains-append, Distinct, Bool-cases, Option-cases, if◌then◌else◌, ltb, leb, nat_eq, ℤ, pos,
  negsuc, is_empty, str_int, int_of_text, int_of_text-str_int, is_empty-str_int, f_string, strip,
  prefix, count-prefix-le,
}
use chat_app_csd.Signatures
use chat_app_csd.Signatures.{Ecdsa, generate_keypair, public_key_to_pem}
use chat_app_csd.Value.{Value, str}
use chat_app_csd.Db.{Db, Config}
use chat_app_csd.CryptoUtils.{Fernet}
use chat_app_csd.Integrity.{compute_record_hash}

pub record Packages : Type 1 where
  pub ecdsa : Ecdsa
  pub fernet : Fernet
  pub sha256_hex : String → String
  pub config : Config
  -- `_load_or_create_key()`, as the process found it
  pub secret_key : String

-- `now`: `int(time.time() * 1000)`; `uuid`: `str(uuid.uuid4())`; `elapsed`: what `perf_counter`
-- measures, in its own units; `dead`: whether a send to the socket raises.
pub record Draw : Type 0 where
  pub now : ℤ
  pub uuid : String
  pub key_seed : ℕ
  pub nonce : ℕ
  pub iv : ℕ
  pub elapsed : ℕ
  pub dead : ℕ → Bool

-- A status with a JSON body, or a status 500 that reports an exception.
pub data Response : Type 0 where
  answer : ℕ → Value → Response
  server_error : Response

-- A dict with any keys, for `d.get(k)`, `d[k] = v`, `d.pop(k, None)`; sockets are numbers.
module _ {A : Type 0} where
  abbrev pub find_name : String → List (String × A) → Option A
  find_name k [] = none
  find_name k ((j, v) ∷ d) = if j == k then some v else find_name k d

  abbrev pub find_socket : ℕ → List (ℕ × A) → Option A
  find_socket k [] = none
  find_socket k ((j, v) ∷ d) = if nat_eq j k then some v else find_socket k d

  abbrev pub pop_socket : ℕ → List (ℕ × A) → List (ℕ × A)
  pop_socket k [] = []
  pop_socket k ((j, v) ∷ d) =
      let rest = pop_socket k d in if nat_eq j k then rest else (j, v) ∷ rest

  abbrev pub put_socket : ℕ → A → List (ℕ × A) → List (ℕ × A)
  put_socket k v [] = (k, v) ∷ []
  put_socket k v ((j, w) ∷ d) = if nat_eq j k then (j, v) ∷ d else (j, w) ∷ put_socket k v d

-- The sockets for which the send raised leave both dicts.
abbrev pub pop_all : {A : Type 0} → List ℕ → List (ℕ × A) → List (ℕ × A)
pop_all [] d = d
pop_all (ws ∷ dead) d = pop_all dead (pop_socket ws d)

abbrev pub dead_of : (ℕ → Bool) → List (ℕ × String) → List ℕ
dead_of dead [] = []
dead_of dead ((ws, name) ∷ cs) = let rest = dead_of dead cs in if dead ws then ws ∷ rest else rest

abbrev pub sends : (ℕ → Bool) → Value → List (ℕ × String) → List (ℕ × Value)
sends dead payload [] = []
sends dead payload ((ws, name) ∷ cs) =
    let rest = sends dead payload cs in if dead ws then rest else (ws, payload) ∷ rest

abbrev pub times_max : ℕ
times_max = 100

abbrev pub cache_max : ℕ
cache_max = 1000

-- `_response_times.append(t)`, and `pop(0)` if there are more than 100
pub track : ℕ → List ℕ → List ℕ
track t times = let all = times ++ t ∷ [] in if ltb times_max (length all) then drop 1 all else all

-- `f"{username}|{text}|{timestamp}"`, in `canonical_message` and in `post_message`
unfoldable pub canonical_message : (Value → String) → String → String → Value → String
canonical_message repr username content timestamp =
    f_string (username ∷ "|" ∷ content ∷ "|" ∷ str repr timestamp ∷ [])

module _ (p : Packages) where
  -- a private key with the PEM text of its public key
  abbrev pub Keys : Type 0
  Keys = p.ecdsa.PrivateKey × String

  -- `sent`: what the sockets were sent, oldest first.
  pub record App : Type 0 where
    pub db : Db
    pub clients : List (ℕ × String)
    pub client_keys : List (ℕ × Keys)
    pub response_times : List ℕ
    pub active_requests : ℕ
    pub keypair_cache : List (String × Keys)
    pub last_hash : String
    pub sent : List (ℕ × Value)

  unfoldable pub track_response_time : ℕ → App → App
  unfolding track
  track_response_time elapsed app = record app { response_times = track elapsed app.response_times }

  -- `signatures.generate_keypair()` and `public_key_to_pem`
  pub new_keys : ℕ → Keys
  unfolding generate_keypair public_key_to_pem
  new_keys seed =
      let (private_key, public_key) = generate_keypair p.ecdsa seed in
      (private_key, public_key_to_pem p.ecdsa public_key)

  -- `if len(_keypair_cache) > 1000: _keypair_cache.clear()`
  pub trimmed : List (String × Keys) → List (String × Keys)
  trimmed cache = if ltb cache_max (length cache) then [] else cache

  abbrev keypair_for : String → ℕ → Option Keys → App → Keys × App
  keypair_for username seed (some keys) app = (keys, app)
  keypair_for username seed none app =
      let keys = new_keys seed in
      (keys, record app { keypair_cache = (username, keys) ∷ trimmed app.keypair_cache })

  pub get_or_create_keypair : String → ℕ → App → Keys × App
  get_or_create_keypair username seed app =
      keypair_for username seed (find_name username app.keypair_cache) app

  -- The hash before, the hash of the record, and the chain moved on to it.
  pub get_next_hashes : String → String → String → Value → App → String × String × App
  get_next_hashes client_name ciphertext signature timestamp app =
      let rec_hash =
        compute_record_hash p.config.repr p.sha256_hex app.last_hash client_name ciphertext
          signature timestamp in
      (app.last_hash, rec_hash, record app { last_hash = rec_hash })

  pub broadcast_ws : (ℕ → Bool) → Value → App → App
  broadcast_ws dead payload app =
      let gone = dead_of dead app.clients in
      record app {
        sent = app.sent ++ sends dead payload app.clients;
        clients = pop_all gone app.clients;
        client_keys = pop_all gone app.client_keys;
      }
