-- ===== src/Db/Connection/Owned.antt =====
-- What the threads in `get_conn` know, and what one step of a thread finds and changes.
use chat_app_csd.Prelude.{
  ℕ, ◌+◌, ◌≤◌, ◌≡◌, refl, ◌⊎◌, Bool, true, false, some, arith, All, if◌then◌else◌, nat_eq, total_by,
}
use chat_app_csd.Db.Connection.{
  Conn, Shared, Getting, rechecking, setting, marking, unlocking, returning, got, is_current,
  Process,
}

abbrev pub one : Bool → ℕ
one b = if b then 1 else 0

-- Whether the thread is behind the lock, and whether it has a connection that is not yet marked as
-- the process's own.
abbrev pub holding : Getting → ℕ
holding rechecking = 1
holding (setting c) = 1
holding marking = 1
holding unlocking = 1
holding _ = 0

abbrev pub opening : Getting → ℕ
opening (setting c) = 1
opening marking = 1
opening _ = 0

pub opening-le : (g : Getting) → opening g ≤ holding g
opening-le g = ground arith

pub nat_eq_refl : (n : ℕ) → nat_eq n n ≡ true
nat_eq_refl n = ground arith

module _ (pid : ℕ) where
  -- The first connection that the process opens.
  abbrev pub own : Conn
  own = record { owner = pid; index = 0 }

  abbrev pub mine : Shared → Bool
  mine s = is_current pid s.conn_pid

  -- What a thread has found out.
  abbrev pub Fits : Shared → Getting → Type 0
  Fits s (setting c) = c ≡ own
  Fits s marking = s.conn ≡ some own
  Fits s unlocking = mine s ≡ true
  Fits s returning = mine s ≡ true
  Fits s (got c) = c ≡ some own
  Fits s _ = Unit

  pub record IsOwned (t : Process) : Type 0 where
    pub locks : total_by holding t.threads ≡ one t.shared.locked
    pub opens : total_by opening t.threads + one (mine t.shared) ≡ t.shared.opened
    pub once : t.shared.opened ≤ 1
    pub conn : (mine t.shared ≡ false) ⊎ (t.shared.conn ≡ some own)
    pub threads : All (Fits t.shared) t.threads

  -- What a step finds, `others` being the new connections in the hands of other threads.
  pub record Found (others : ℕ) (g : Getting) (s : Shared) : Type 0 where
    pub locks : others + holding g ≤ one s.locked
    pub opens : others + opening g + one (mine s) ≡ s.opened
    pub once : s.opened ≤ 1
    pub conn : (mine s ≡ false) ⊎ (s.conn ≡ some own)
    pub fits : Fits s g

  pub record Change (others : ℕ) (g : Getting) (s : Shared) (g' : Getting) (s' : Shared)
      : Type 0 where
    pub locks : one s'.locked + holding g ≡ one s.locked + holding g'
    pub opens : others + opening g' + one (mine s') ≡ s'.opened
    pub once : s'.opened ≤ 1
    pub conn : (mine s' ≡ false) ⊎ (s'.conn ≡ some own)
    pub fits : Fits s' g'
    pub stays : (h : Getting) → Fits s h → Fits s' h

  -- A step that changes no variable.
  pub only_looks :
      (others : ℕ) (g g' : Getting) (s : Shared)
      → holding g ≡ holding g'
      → opening g ≡ opening g'
      → Fits s g'
      → Found others g s
      → Change others g s g' s
  only_looks others g g' s eh eo fits h = record {
    locks = omega (arith, eh);
    opens = omega (arith, eo, h.opens);
    once = h.once;
    conn = h.conn;
    fits = fits;
    stays = λ k hk. hk;
  }

  pub Fits-locked :
      (s : Shared) (b : Bool) (h : Getting) → Fits s h → Fits (record s { locked = b }) h
  Fits-locked s b h k = ground arith

  pub Fits-opened : (s : Shared) (n : ℕ) (h : Getting) → Fits s h → Fits (record s { opened = n }) h
  Fits-opened s n h k = ground arith

  pub Fits-set : (s : Shared) (h : Getting) → Fits s h → Fits (record s { conn = some own }) h
  Fits-set s marking k = refl
  Fits-set s h k = ground arith

  pub Fits-marked :
      (s : Shared) (h : Getting) → Fits s h → Fits (record s { conn_pid = some pid }) h
  Fits-marked s unlocking k = nat_eq_refl pid
  Fits-marked s returning k = nat_eq_refl pid
  Fits-marked s h k = ground arith
