-- ===== src/Db/Connection.antt =====
-- `get_conn` of db.py, called by any number of threads of one process: `_conn` and `_conn_pid`,
-- which a fork may have left with the parent's values, the lock and the double check around it.
pub mod Owned
pub mod Steps
pub mod Owner
use chat_app_csd.Prelude.{
  ℕ, zero, suc, ◌+◌, ◌-◌, ◌*◌, ◌/◌, ◌%◌, ◌^◌, ◌≤◌, ◌<◌, String, count, ◌≡◌, refl, sym, ap, ◌∙◌, ◌≢◌,
  ◌↔◌, ◌⊎◌, inl, inr, Bool, true, false, not, ◌&&◌, ◌||◌, Option, none, some, List, [], ◌∷◌, ◌++◌,
  map, append-nil, append_assoc, map-append, arith, ◌==◌, eq_iff, eq_refl, length, take, drop,
  take-append-drop, All-append, length-take, length-drop, drop_all, length-append, All, contains,
  contains-append, Distinct, Bool-cases, Option-cases, if◌then◌else◌, ltb, leb, nat_eq, ℤ, pos,
  negsuc, is_empty, str_int, int_of_text, int_of_text-str_int, is_empty-str_int, f_string, strip,
  prefix, count-prefix-le,
}

-- A connection: the process that opened it, and how many it had opened before.
pub record Conn : Type 0 where
  pub owner : ℕ
  pub index : ℕ

-- The module's variables; `opened` counts the calls of `sqlite3.connect` in this process.
pub record Shared : Type 0 where
  pub conn : Option Conn
  pub conn_pid : Option ℕ
  pub locked : Bool
  pub opened : ℕ

-- A thread in `get_conn`: before it reads `_conn`; before it reads `_conn_pid`; before the lock;
-- before the two tests below the lock; with a new connection, before `_conn = c` and before
-- `_conn_pid = cur_pid`; before the lock is released; before `return _conn`; at the end.
pub data Getting : Type 0 where
  entering : Getting
  comparing : Getting
  waiting : Getting
  rechecking : Getting
  setting : Conn → Getting
  marking : Getting
  unlocking : Getting
  returning : Getting
  got : Option Conn → Getting

-- `_conn_pid != cur_pid`
abbrev pub is_current : ℕ → Option ℕ → Bool
is_current pid none = false
is_current pid (some other) = nat_eq other pid

abbrev pub is_some : Option Conn → Bool
is_some none = false
is_some (some c) = true

-- The step of a thread of the process `pid`; a thread that waits for a lock that is held stays.
unfoldable pub get_conn : ℕ → Getting → Shared → Getting × Shared
get_conn pid entering s = (if is_some s.conn then comparing else waiting, s)
get_conn pid comparing s = (if is_current pid s.conn_pid then returning else waiting, s)
get_conn pid waiting s = if s.locked then (waiting, s) else (rechecking, record s { locked = true })
get_conn pid rechecking s =
    if is_some s.conn && is_current pid s.conn_pid
    then (unlocking, s)
    else (setting (record { owner = pid; index = s.opened }), record s { opened = s.opened + 1 })
get_conn pid (setting c) s = (marking, record s { conn = some c })
get_conn pid marking s = (unlocking, record s { conn_pid = some pid })
get_conn pid unlocking s = (returning, record s { locked = false })
get_conn pid returning s = (got s.conn, s)
get_conn pid (got c) s = (got c, s)

pub record Process : Type 0 where
  pub shared : Shared
  pub threads : List Getting

-- Calls of `get_conn`, and steps of their threads, in any order.
pub data Calls (pid : ℕ) (s : Process) : Process → Type 0 where
  no_call : Calls pid s s
  then_call :
      {t : Process}
      → Calls pid s t
      → Calls pid s (record t { threads = t.threads ++ entering ∷ [] })
  then_step :
      {t : Process} (before : List Getting) (g : Getting) (after : List Getting)
      → Calls pid s t
      → t.threads ≡ before ++ g ∷ after
      → Calls pid s (record {
        shared = (get_conn pid g t.shared).1;
        threads = before ++ (get_conn pid g t.shared).0 ∷ after;
      })
