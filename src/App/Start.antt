-- ===== src/App/Start.antt =====
-- The start of a backend process: the settings that db.py reads from the environment, the variables
-- of app.py as its import leaves them, and the ports that the program listens on.
pub mod Lifetime
use chat_app_csd.Prelude.{
  ℕ, zero, ◌+◌, String, Bool, true, false, not, ◌&&◌, Option, none, some, List, [], ◌∷◌, nat_eq,
  negsuc, leb, if◌then◌else◌, ℤ, pos,
}
use Prim.Native.Char.{code}
use chat_app_csd.Store.{Store, Engine}
use chat_app_csd.Value.{Value, int, truthy}
use chat_app_csd.Db.{Config, start, get_last_hash}
use chat_app_csd.App.{Packages, App}

-- What `os.getenv(name, default)` finds, if the variable is not set.
abbrev pub getenv : Option String → String → String
getenv none default = default
getenv (some s) default = s

-- `c.lower()` on the letters A to Z, as a code point; outside them only letters that are not in
-- "true" have a lower case in ASCII.
abbrev lower_code : ℕ → ℕ
lower_code c = if leb 65 c && leb c 90 then c + 32 else c

-- `s.lower()` against a text, given by its code points.
pub lowers_to : List ℕ → String → Bool
lowers_to [] String.[] = true
lowers_to (k ∷ ks) (String.◌∷◌ c s) =
    let rest = lowers_to ks s in if nat_eq (lower_code (code c)) k then rest else false
lowers_to _ _ = false

-- "true"
abbrev true_codes : List ℕ
true_codes = 116 ∷ 114 ∷ 117 ∷ 101 ∷ []

-- The settings of db.py from the environment.
unfoldable pub settings : Engine → (Value → String) → (url host : Option String) → Config
unfolding lowers_to
settings engine repr url host = record {
  engine = engine;
  repr = repr;
  db_service_url = getenv url "http://172.17.0.11:4000";
  is_shared_db_host = lowers_to true_codes (getenv host "false");
}

abbrev int_eq : ℤ → ℤ → Bool
int_eq (pos m) (pos n) = nat_eq m n
int_eq (negsuc m) (negsuc n) = nat_eq m n
int_eq _ _ = false

-- The ports on which the program serves, from the values of `--port` and `--also-port`: the second
-- one on a thread of its own.
unfoldable pub served_ports : (port also_port : ℤ) → List ℤ
served_ports port also_port =
    if truthy (int also_port) && not (int_eq also_port port)
    then also_port ∷ port ∷ []
    else port ∷ []

module _ (p : Packages) where
  -- The import of app.py on the file `s`: `db.init_db()`, then `db.get_last_hash()`.
  unfoldable pub boot : Store → App p
  unfolding start get_last_hash
  boot s = record {
    db = start s;
    clients = [];
    client_keys = [];
    response_times = [];
    active_requests = 0;
    keypair_cache = [];
    last_hash = get_last_hash (start s);
    sent = [];
  }
