-- ===== src/App/Threads/Sealed.antt =====
-- The signatures and ciphertexts of what the threads of `POST /message` store, in any order of their
-- steps.
use chat_app_csd.Prelude.{◌≡◌, refl, true, List, [], ◌∷◌, ◌++◌, append_assoc, All, All-middle}
use chat_app_csd.App.Signed.{ArePairs, IsSealed}
use chat_app_csd.Db.Pipeline.{IsDurable, Written}
use chat_app_csd.Db.Writer.{writer_take, writer_write}
use chat_app_csd.Store.{rows_of}
use chat_app_csd.Db.{Db}
use chat_app_csd.App.{Packages, App}
use chat_app_csd.App.Threads.{
  Pc, arrived, advance, System, Move, arrive, go_on, take_next, write, Moves, still, then_move,
}
use chat_app_csd.App.Threads.Weights.{IsTimed}
use chat_app_csd.App.Threads.Balanced.{IsBalanced, IsBalanced-Found}
use chat_app_csd.App.Threads.Ledger.{
  Move-IsBalanced, IsDurable-IsBalanced, pending-taken, Written-batch,
}
use chat_app_csd.Db.Stored.{stored, All-snoc}
use chat_app_csd.App.Threads.Kept.{Holds, advance-Kept}

module _ (p : Packages) where
  record IsSafe (s : System p) : Type 0 where
    pub pairs : ArePairs p s.app.keypair_cache
    pub holds : All (Holds p) s.threads
    pub rows : All (IsSealed p) (stored s.app.db)

  go_on-IsSafe :
      (s : System p) (before : List (Pc p)) (pc : Pc p) (after : List (Pc p))
      → p.fernet.accepts p.secret_key ≡ true
      → s.threads ≡ before ++ pc ∷ after
      → IsTimed p pc
      → IsSafe s
      → let (pc', app') = advance p pc s.app in
        IsSafe (record { app = app'; threads = before ++ pc' ∷ after })
  go_on-IsSafe s before pc after accepted e time h =
      let (mine, put) = All-middle (Holds p) before pc after (rw e at h.holds) in
      let k =
        advance-Kept p pc s.app accepted time
          (record { pairs = h.pairs; holds = mine; rows = h.rows }) in
      record { pairs = k.pairs; holds = put (advance p pc s.app).0 k.holds; rows = k.rows }

  write-stored :
      (db : Db) (w : Written p.config db) → stored (writer_write p.config db).0 ≡ stored db
  write-stored db w =
      rw w.wrote (rw w.rows (append_assoc (rows_of db.working.messages) db.in_flight db.queue))

  Move-IsSafe :
      {s t : System p}
      → p.fernet.accepts p.secret_key ≡ true
      → Move p s t
      → IsBalanced p s
      → IsSafe s
      → IsSafe t
  Move-IsSafe {s} accepted (arrive request draw time) b h = record {
    pairs = h.pairs;
    holds = All-snoc (Holds p) s.threads (arrived request draw) h.holds tt;
    rows = h.rows;
  }
  Move-IsSafe {s} accepted (go_on before pc after e) b h =
      go_on-IsSafe s before pc after accepted e (IsBalanced-Found p s before pc after e b).timed h
  Move-IsSafe {s} accepted (take_next e) b h = record {
    pairs = h.pairs;
    holds = h.holds;
    rows = unfold writer_take in rw (pending-taken p s.app.db e) h.rows;
  }
  Move-IsSafe {s} accepted write b h = record {
    pairs = h.pairs;
    holds = h.holds;
    rows = rw (write-stored s.app.db (Written-batch p s s.app.db.in_flight refl b)) h.rows;
  }

  Moves-both :
      {s t : System p}
      → p.fernet.accepts p.secret_key ≡ true
      → Moves p s t
      → IsBalanced p s
      → IsSafe s
      → IsBalanced p t × IsSafe t
  Moves-both accepted still b h = (b, h)
  Moves-both accepted (then_move run m) b h =
      let (b', h') = Moves-both accepted run b h in
      (Move-IsBalanced p m b', Move-IsSafe accepted m b' h')

  -- In a process that starts between two requests with a durable state, with pairs of keys in its
  -- cache, and with a server key that Fernet accepts: whatever requests arrive, at times of 64
  -- bits, and however their threads and the writer take turns, if every row of the file and of the
  -- queue was signed and encrypted at the start, then so is every row of the file, the batch and
  -- the queue at any time: its signature is accepted under the key beside it, for the user, text
  -- and time of the row, and its ciphertext is decrypted to its text.
  pub stored_sealed :
      (app : App p) (t : System p)
      → p.fernet.accepts p.secret_key ≡ true
      → IsDurable app.db
      → app.active_requests ≡ 0
      → ArePairs p app.keypair_cache
      → All (IsSealed p) (stored app.db)
      → Moves p (record { app = app; threads = [] }) t
      → All (IsSealed p) (stored t.app.db)
  stored_sealed app t accepted durable idle pairs rows run =
      (Moves-both accepted run (IsDurable-IsBalanced p app durable idle)
        (record { pairs = pairs; holds = tt; rows = rows })).1.rows
