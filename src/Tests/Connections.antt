-- ===== src/Tests/Connections.antt =====
-- Examples for the connection of a process.
use chat_app_csd.Prelude.{ℕ, zero, suc, ◌≤◌, ◌≡◌, refl, false, some, List, [], ◌∷◌, ◌++◌}
use chat_app_csd.Db.Connection.{
  Shared, Getting, Process, Calls, entering, got, get_conn, no_call, then_call, then_step,
}
use chat_app_csd.Db.Connection.Owner.{AllGot, get_conn_lem}
use chat_app_csd.Db.Connection.Owned.{own}

-- A child process, number 2, with the variables of its parent.
abbrev forked : Shared
forked = record {
  conn = some (record { owner = 1; index = 0 });
  conn_pid = some 1;
  locked = false;
  opened = 0;
}

-- That many steps of the first of the threads.
abbrev turns : ℕ → Getting × Shared → Getting × Shared
turns zero g = g
turns (suc n) (g, s) = turns n (get_conn 2 g s)

turns-Calls :
    (n : ℕ) (start : Process) (before : List Getting) (g : Getting) (after : List Getting)
    (s : Shared)
    → Calls 2 start (record { shared = s; threads = before ++ g ∷ after })
    → Calls 2 start
        (record { shared = (turns n (g, s)).1; threads = before ++ (turns n (g, s)).0 ∷ after })
turns-Calls zero start before g after s run = run
turns-Calls (suc n) start before g after s run =
    let (g', s') = get_conn 2 g s in
    turns-Calls n start before g' after s' (then_step before g after run refl)

abbrev child : Process
child = record { shared = forked; threads = [] }

-- The first thread opens a connection, the second runs to its end, then the first as well.
abbrev first_half : Getting × Shared
first_half = turns 7 (entering, forked)

abbrev second_whole : Getting × Shared
second_whole = turns 4 (entering, first_half.1)

abbrev first_whole : Getting × Shared
first_whole = turns 3 (first_half.0, second_whole.1)

abbrev both_done : Process
both_done = record { shared = first_whole.1; threads = first_whole.0 ∷ second_whole.0 ∷ [] }

both_run : Calls 2 child both_done
both_run = turns-Calls 3 child [] first_half.0 (second_whole.0 ∷ []) second_whole.1 (
    turns-Calls 4 child (first_half.0 ∷ []) entering [] first_half.1
      (turns-Calls 7 child [] entering (entering ∷ []) forked (then_call (then_call no_call))))

both_got : both_done.threads ≡ got (some (own 2)) ∷ got (some (own 2)) ∷ []
unfolding get_conn
both_got = refl

get_conn_lem_example : (both_done.shared.opened ≤ 1) × AllGot (own 2) both_done.threads
get_conn_lem_example = get_conn_lem 2 forked both_done refl refl refl both_run
