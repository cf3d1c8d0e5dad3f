-- ===== src/Db/Connection/Owner.antt =====
-- Which connection the threads in `get_conn` get.
use chat_app_csd.Prelude.{
  ℕ, ◌+◌, ◌≤◌, ◌≡◌, ap, inl, false, some, List, [], ◌∷◌, ◌++◌, arith, All-append, All, total_by,
  All-map, total_by-append, total_by-le, All-middle, total_by-replace,
}
use chat_app_csd.Db.Connection.{
  Conn, Shared, Getting, entering, got, is_current, Process, Calls, no_call, then_call, then_step,
}
use chat_app_csd.Db.Connection.Owned.{
  holding, opening, opening-le, own, Fits, IsOwned, Found, Change,
}
use chat_app_csd.Db.Connection.Steps.{get_conn-Change}

-- All connections that calls have returned are this one.
abbrev pub AllGot : Conn → List Getting → Type 0
AllGot c [] = Unit
AllGot c (got d ∷ gs) = (d ≡ some c) × AllGot c gs
AllGot c (g ∷ gs) = AllGot c gs

module _ (pid : ℕ) where
  total_by-opening-le : (gs : List Getting) → total_by opening gs ≤ total_by holding gs
  total_by-opening-le gs = total_by-le opening holding gs opening-le

  IsOwned-Found :
      (t : Process) (before : List Getting) (g : Getting) (after : List Getting)
      → t.threads ≡ before ++ g ∷ after
      → IsOwned pid t
      → Found pid (total_by opening before + total_by opening after) g t.shared
  IsOwned-Found t before g after e h = record {
    locks = omega (
      arith,
      h.locks,
      ap (total_by holding) e,
      total_by-append holding before (g ∷ after),
      total_by-opening-le before,
      total_by-opening-le after,
    );
    opens =
        omega (arith, h.opens, ap (total_by opening) e, total_by-append opening before (g ∷ after));
    once = h.once;
    conn = h.conn;
    fits = (All-middle (Fits pid t.shared) before g after (rw e at h.threads)).0;
  }

  Change-IsOwned :
      (t : Process) (before : List Getting) (g : Getting) (after : List Getting) (g' : Getting)
      (s' : Shared)
      → t.threads ≡ before ++ g ∷ after
      → IsOwned pid t
      → Change pid (total_by opening before + total_by opening after) g t.shared g' s'
      → IsOwned pid (record { shared = s'; threads = before ++ g' ∷ after })
  Change-IsOwned t before g after g' s' e h c =
      let stay =
        All-map (Fits pid t.shared) (Fits pid s') (before ++ g ∷ after) c.stays
          (rw e at h.threads) in
      record {
        locks = omega (
          arith,
          h.locks,
          c.locks,
          ap (total_by holding) e,
          total_by-replace holding before g g' after,
        );
        opens = omega (arith, c.opens, total_by-append opening before (g' ∷ after));
        once = c.once;
        conn = c.conn;
        threads = (All-middle (Fits pid s') before g after stay).1 g' c.fits;
      }

  call-IsOwned :
      (t : Process)
      → IsOwned pid t
      → IsOwned pid (record t { threads = t.threads ++ entering ∷ [] })
  call-IsOwned t h = record {
    locks = omega (arith, h.locks, total_by-append holding t.threads (entering ∷ []));
    opens = omega (arith, h.opens, total_by-append opening t.threads (entering ∷ []));
    once = h.once;
    conn = h.conn;
    threads = All-append (Fits pid t.shared) t.threads (entering ∷ []) h.threads (tt, tt);
  }

  Calls-IsOwned : {s t : Process} → Calls pid s t → IsOwned pid s → IsOwned pid t
  Calls-IsOwned no_call h = h
  Calls-IsOwned (then_call {t} run) h = call-IsOwned t (Calls-IsOwned run h)
  Calls-IsOwned (then_step {t} before g after run e) h =
      let owned = Calls-IsOwned run h in
      Change-IsOwned t before g after _ _ e owned
        (get_conn-Change pid _ g t.shared (IsOwned-Found t before g after e owned))

  Fits-AllGot : (s : Shared) (gs : List Getting) → All (Fits pid s) gs → AllGot (own pid) gs
  Fits-AllGot s [] h = tt
  Fits-AllGot s (got d ∷ gs) h = (h.0, Fits-AllGot s gs h.1)
  Fits-AllGot s (g ∷ gs) h = ground (arith, Fits-AllGot s gs h.1)

  -- A process whose variables are those of another process before a fork, or empty, and in which
  -- nobody holds the lock: however many threads call `get_conn`, and in whatever order they run,
  -- it opens at most one connection, and every call that returns gives this one, never the one that
  -- it has inherited.
  pub get_conn_lem :
      (s : Shared) (t : Process)
      → is_current pid s.conn_pid ≡ false
      → s.locked ≡ false
      → s.opened ≡ 0
      → Calls pid (record { shared = s; threads = [] }) t
      → (t.shared.opened ≤ 1) × AllGot (own pid) t.threads
  get_conn_lem s t foreign free none_yet run =
      let start : IsOwned pid (record { shared = s; threads = [] }) = record {
        locks = ground (arith, free);
        opens = ground (arith, foreign, none_yet);
        once = omega (arith, none_yet);
        conn = inl foreign;
        threads = tt;
      } in
      let h = Calls-IsOwned run start in (h.once, Fits-AllGot t.shared t.threads h.threads)
