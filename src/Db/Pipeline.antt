-- ===== src/Db/Pipeline.antt =====
-- The way of a message in db.py from the feed through the queue and the writer's batch to the
-- file, and the state that its steps keep.
use chat_app_csd.Prelude.{
  ℕ, zero, suc, String, true, false, ◌≡◌, refl, ap, sym, ◌∙◌, List, [], ◌∷◌, ◌++◌, map, map-append,
  append-nil, append_assoc, contains, contains-append, Distinct, arith, take, drop, All, eq_iff, ℤ,
}
use chat_app_csd.Value.{int}
use chat_app_csd.Store.{Entry, Engine, Row, Store, ids_of, rows_of, msg_ids, bind, in_int64}
use chat_app_csd.Store.Batch.{fresh_rows, kept, Runs, runs, Fits}
use chat_app_csd.Db.{Config, Db, feed_item}
use chat_app_csd.Db.Writer.{writer_write, gather}
use chat_app_csd.Db.Saving.{feed_ids, IsConsistent}

-- The timestamp is an integer of 64 bits, as `POST /message` makes it.
abbrev pub HasIntTime : Row → Type 0
HasIntTime r = (n : ℤ) × (r.timestamp ≡ int n) × (in_int64 n ≡ true)

pub HasIntTime-Fits : (r : Row) → HasIntTime r → Fits r
unfolding bind
HasIntTime-Fits r (n, e, b) = rw e (rw b refl)

pub HasIntTime-kept : (engine : Engine) (r : Row) → HasIntTime r → kept engine r ≡ r
HasIntTime-kept engine r (n, e, b) =
    let same : engine.affinity r.timestamp ≡ r.timestamp =
      ap engine.affinity e ∙ engine.affinity_int n ∙ sym e in
    λ i. record r { timestamp = same i }

pub All-Fits : (rows : List Row) → All HasIntTime rows → All Fits rows
All-Fits [] h = tt
All-Fits (r ∷ rows) h = (HasIntTime-Fits r h.0, All-Fits rows h.1)

pub map-kept :
    (engine : Engine) (rows : List Row) → All HasIntTime rows → map (kept engine) rows ≡ rows
map-kept engine [] h = refl
map-kept engine (r ∷ rows) h = λ i. HasIntTime-kept engine r h.0 i ∷ map-kept engine rows h.1 i

pub Distinct-split :
    (xs : List String) (k : String) (ys : List String)
    → Distinct (xs ++ k ∷ ys)
    → (contains xs k ≡ false) × Distinct ((xs ++ k ∷ []) ++ ys)
Distinct-split [] k ys d = (refl, d)
Distinct-split (x ∷ xs) k ys d =
    let (new, rest) = Distinct-split xs k ys d.1 in
    ground (
      arith,
      new,
      rest,
      contains-append xs (k ∷ ys) x,
      contains-append (xs ++ k ∷ []) ys x,
      contains-append xs (k ∷ []) x,
      eq_iff x k,
      eq_iff k x,
    )

-- Rows whose ids are distinct from each other and from those taken are all fresh.
pub fresh_rows-Distinct :
    (taken : List String) (rows : List Row)
    → Distinct (taken ++ ids_of rows)
    → fresh_rows taken rows ≡ rows
fresh_rows-Distinct taken [] d = refl
fresh_rows-Distinct taken (r ∷ rows) d =
    let (new, d') = Distinct-split taken r.msg_id (ids_of rows) d in
    rw new (ap (◌∷◌ r) (fresh_rows-Distinct (taken ++ r.msg_id ∷ []) rows d'))

-- What waits for the file.
abbrev pub pending : Db → List Row
pending db = db.in_flight ++ db.queue

pub record IsDurable (db : Db) : Type 0 where
  pub consistent : IsConsistent db
  pub fed : db.feed ≡ map feed_item (rows_of db.working.messages ++ pending db)
  pub times : All HasIntTime (pending db)
  pub saved : db.working ≡ db.committed

pub gather-split :
    (n : ℕ) (batch queue : List Row) → gather n batch queue ≡ (batch ++ take n queue, drop n queue)
unfolding gather
gather-split zero batch queue = rw append-nil
gather-split (suc n) batch [] = rw append-nil
gather-split (suc n) batch (r ∷ queue) =
    rw (gather-split n (batch ++ r ∷ []) queue) (rw append_assoc)

pub Distinct-left : (xs ys : List String) → Distinct (xs ++ ys) → Distinct xs
Distinct-left [] ys d = tt
Distinct-left (x ∷ xs) ys d = ground (arith, contains-append xs ys x, Distinct-left xs ys d.1)

pub Distinct-right : (xs ys : List String) → Distinct (xs ++ ys) → Distinct ys
Distinct-right [] ys d = d
Distinct-right (x ∷ xs) ys d = Distinct-right xs ys d.1

pub feed_ids-map : (rows : List Row) → feed_ids (map feed_item rows) ≡ ids_of rows
feed_ids-map [] = refl
feed_ids-map (r ∷ rows) = ap (◌∷◌ r.msg_id) (feed_ids-map rows)

pub ids_of-rows_of : (es : List Entry) → ids_of (rows_of es) ≡ msg_ids es
ids_of-rows_of [] = refl
ids_of-rows_of (e ∷ es) = ap (◌∷◌ e.row.msg_id) (ids_of-rows_of es)

-- The ids of the file and of what waits for it.
pub durable-ids :
    (db : Db) → IsDurable db → db.seen ≡ msg_ids db.working.messages ++ ids_of (pending db)
durable-ids db h =
    h.consistent.ids
    ∙ ap feed_ids h.fed
    ∙ feed_ids-map (rows_of db.working.messages ++ pending db)
    ∙ map-append _ (rows_of db.working.messages) (pending db)
    ∙ ap (λ (l : List String). l ++ ids_of (pending db)) (ids_of-rows_of db.working.messages)

-- Each of them once.
pub pending-Distinct :
    (db : Db) → IsDurable db → Distinct (msg_ids db.working.messages ++ ids_of (pending db))
pending-Distinct db h = rw (← durable-ids db h) h.consistent.distinct

pub batch-Distinct :
    (db : Db) → IsDurable db → Distinct (msg_ids db.working.messages ++ ids_of db.in_flight)
batch-Distinct db h =
    Distinct-left (msg_ids db.working.messages ++ ids_of db.in_flight) (ids_of db.queue) (
      rw append_assoc
        (rw (← map-append (λ (r : Row). r.msg_id) db.in_flight db.queue) (pending-Distinct db h)))

pub All-left : (xs ys : List Row) → All HasIntTime (xs ++ ys) → All HasIntTime xs
All-left [] ys h = tt
All-left (x ∷ xs) ys h = (h.0, All-left xs ys h.1)

pub All-right : (xs ys : List Row) → All HasIntTime (xs ++ ys) → All HasIntTime ys
All-right [] ys h = h
All-right (x ∷ xs) ys h = All-right xs ys h.1

module _ (cfg : Config) where
  -- What the writer's batch becomes.
  pub record Written (db : Db) : Type 0 where
    pub store : Store
    pub wrote :
        (writer_write cfg db).0 ≡ record db { working = store; committed = store; in_flight = [] }
    pub rows : rows_of store.messages ≡ rows_of db.working.messages ++ db.in_flight

  pub Runs-Written :
      (db : Db) (r : Row) (rows : List Row)
      → db.in_flight ≡ r ∷ rows
      → All HasIntTime (r ∷ rows)
      → Distinct (msg_ids db.working.messages ++ ids_of (r ∷ rows))
      → Runs cfg.engine (r ∷ rows) db.working
      → Written db
  unfolding writer_write
  Runs-Written db r rows e times distinct run = record {
    store = run.after;
    wrote = rw (e, writer_write) (rw run.ran refl);
    rows = rw e (
        run.rows_after
        ∙ rw (fresh_rows-Distinct (msg_ids db.working.messages) (r ∷ rows) distinct)
            (rw (map-kept cfg.engine (r ∷ rows) times) refl));
  }

  batch-Written : (db : Db) (batch : List Row) → db.in_flight ≡ batch → IsDurable db → Written db
  unfolding writer_write
  batch-Written db [] e h = record {
    store = db.working;
    wrote = rw (e, writer_write) (ground arith);
    rows = rw (e, append-nil);
  }
  batch-Written db (r ∷ rows) e h =
      let times : All HasIntTime (r ∷ rows) = rw e at (All-left db.in_flight db.queue h.times) in
      Runs-Written db r rows e times (rw e at (batch-Distinct db h))
        (runs cfg.engine (r ∷ rows) db.working (All-Fits (r ∷ rows) times))

  pub written : (db : Db) → IsDurable db → Written db
  written db h = batch-Written db db.in_flight refl h
