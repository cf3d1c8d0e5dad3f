-- ===== src/Db/Connection/Steps.antt =====
-- Each step of a thread in `get_conn`.
use chat_app_csd.Prelude.{
  if_false, ℕ, ◌+◌, ◌≡◌, refl, ◌⊎◌, inl, inr, true, false, ◌&&◌, some, arith, Bool-cases, if_true,
}
use chat_app_csd.Db.Connection.{
  Conn, Shared, Getting, entering, comparing, waiting, rechecking, setting, marking, unlocking,
  returning, got, is_some, get_conn,
}
use chat_app_csd.Db.Connection.Owned.{
  nat_eq_refl, own, mine, Found, Change, only_looks, Fits-locked, Fits-opened, Fits-set,
  Fits-marked,
}

module _ (pid : ℕ) where
  abbrev pub Takes : ℕ → Getting → Shared → Type 0
  Takes others g s = let (g', s') = get_conn pid g s in Change pid others g s g' s'

  wait_step : (others : ℕ) (s : Shared) → Found pid others waiting s → Takes others waiting s
  unfolding get_conn
  wait_step others s h = elim (Bool-cases s.locked) [
    | inl held ↦ rw (if_true _ _ held) (only_looks pid others waiting waiting s refl refl tt h)
    | inr free ↦ rw (if_false _ _ free) (record {
      locks = rw free refl;
      opens = h.opens;
      once = h.once;
      conn = h.conn;
      fits = tt;
      stays = Fits-locked pid s true;
    })
  ]

  -- Behind the lock a connection that is not the process's own is not current.
  not_mine :
      (s : Shared)
      → is_some s.conn && mine pid s ≡ false
      → (mine pid s ≡ false) ⊎ (s.conn ≡ some (own pid))
      → mine pid s ≡ false
  not_mine s h (inl k) = k
  not_mine s h (inr k) = rw k at h

  few_others :
      (others : ℕ) (s : Shared) → Found pid others rechecking s → mine pid s ≡ false → s.opened ≡ 0
  few_others others s h none_yet = ground (arith, h.locks, h.opens, none_yet, Bool-cases s.locked)

  recheck_step :
      (others : ℕ) (s : Shared) → Found pid others rechecking s → Takes others rechecking s
  unfolding get_conn
  recheck_step others s h = elim (Bool-cases (is_some s.conn && mine pid s)) [
    | inl known ↦
        rw known (only_looks pid others rechecking unlocking s refl refl (ground (arith, known)) h)
    | inr new ↦
        let none_yet : mine pid s ≡ false = not_mine s new h.conn in
        let first : s.opened ≡ 0 = few_others others s h none_yet in
        rw new (record {
          locks = refl;
          opens = omega (arith, h.opens);
          once = omega (arith, first);
          conn = inl none_yet;
          fits = rw first refl;
          stays = Fits-opened pid s (s.opened + 1);
        })
  ]

  set_step :
      (others : ℕ) (c : Conn) (s : Shared)
      → Found pid others (setting c) s
      → Takes others (setting c) s
  unfolding get_conn
  set_step others c s h = rw h.fits (record {
    locks = refl;
    opens = h.opens;
    once = h.once;
    conn = inr refl;
    fits = refl;
    stays = Fits-set pid s;
  })

  mark_step : (others : ℕ) (s : Shared) → Found pid others marking s → Takes others marking s
  unfolding get_conn
  mark_step others s h = record {
    locks = refl;
    opens = ground (arith, h.opens, h.once, nat_eq_refl pid);
    once = h.once;
    conn = inr h.fits;
    fits = nat_eq_refl pid;
    stays = Fits-marked pid s;
  }

  unlock_step : (others : ℕ) (s : Shared) → Found pid others unlocking s → Takes others unlocking s
  unfolding get_conn
  unlock_step others s h = record {
    locks = ground (arith, h.locks);
    opens = h.opens;
    once = h.once;
    conn = h.conn;
    fits = h.fits;
    stays = Fits-locked pid s false;
  }

  own_conn :
      (s : Shared)
      → mine pid s ≡ true
      → (mine pid s ≡ false) ⊎ (s.conn ≡ some (own pid))
      → s.conn ≡ some (own pid)
  own_conn s h (inl k) = cc (h, k)
  own_conn s h (inr k) = k

  pub get_conn-Change :
      (others : ℕ) (g : Getting) (s : Shared) → Found pid others g s → Takes others g s
  unfolding get_conn
  get_conn-Change others entering s h = elim (Bool-cases (is_some s.conn)) [
    | inl k ↦ rw k (only_looks pid others entering comparing s refl refl tt h)
    | inr k ↦ rw k (only_looks pid others entering waiting s refl refl tt h)
  ]
  get_conn-Change others comparing s h = elim (Bool-cases (mine pid s)) [
    | inl k ↦ rw k (only_looks pid others comparing returning s refl refl k h)
    | inr k ↦ rw k (only_looks pid others comparing waiting s refl refl tt h)
  ]
  get_conn-Change others waiting s h = wait_step others s h
  get_conn-Change others rechecking s h = recheck_step others s h
  get_conn-Change others (setting c) s h = set_step others c s h
  get_conn-Change others marking s h = mark_step others s h
  get_conn-Change others unlocking s h = unlock_step others s h
  get_conn-Change others returning s h =
      only_looks pid others returning (got s.conn) s refl refl (own_conn s h.fits h.conn) h
  get_conn-Change others (got c) s h = only_looks pid others (got c) (got c) s refl refl h.fits h
