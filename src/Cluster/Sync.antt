-- ===== src/Cluster/Sync.antt =====
-- The shared table against the files of all backends.
use chat_app_csd.Prelude.{
  String, ◌≡◌, refl, sym, ap, ◌∙◌, Bool, true, false, ◌||◌, List, [], ◌∷◌, ◌++◌, arith, contains,
  contains-append, All, All-middle, Distinct,
}
use chat_app_csd.Value.{list, items_of}
use chat_app_csd.Store.{ids_of, msg_ids, empty_store}
use chat_app_csd.Db.{Config, start}
use chat_app_csd.Db.Steps.{crash-IsDurable, start-IsDurable}
use chat_app_csd.Db.Stored.{All-snoc}
use chat_app_csd.Db.Writer.{replicates}
use chat_app_csd.DbService.{TextEngine, Table, table_ids, service_batch}
use chat_app_csd.DbService.Requests.{IsSound, batch-IsSound}
use chat_app_csd.Cluster.{
  Backend, Cluster, posted_ids, in_files, in_outboxes, Shift, joined, worked, wrote, delivered,
  restarted, Shifts, settled, then_shift,
}
use chat_app_csd.Cluster.Delivery.{posted_ids-payload, delivered_ids}
use chat_app_csd.Cluster.Backends.{IsReady, Local-IsDurable, Local-file, write-Committed}

in_files-append :
    (k : String) (xs ys : List Backend) → in_files k (xs ++ ys) ≡ (in_files k xs || in_files k ys)
in_files-append k [] ys = refl
in_files-append k (b ∷ xs) ys = ground (arith, in_files-append k xs ys)

in_outboxes-append :
    (k : String) (xs ys : List Backend)
    → in_outboxes k (xs ++ ys) ≡ (in_outboxes k xs || in_outboxes k ys)
in_outboxes-append k [] ys = refl
in_outboxes-append k (b ∷ xs) ys = ground (arith, in_outboxes-append k xs ys)

-- New ids `n` come to the file and to what the service has or is sent.
merged :
    (f1 f f2 s o1 o o2 n f' s' o' : Bool)
    → (f1 || (f || f2)) ≡ (s || (o1 || (o || o2)))
    → f' ≡ (f || n)
    → (s' || o') ≡ ((s || o) || n)
    → (f1 || (f' || f2)) ≡ (s' || (o1 || (o' || o2)))
merged f1 f f2 s o1 o o2 n f' s' o' old file sent = ground arith

abbrev file_has : String → Backend → Bool
file_has k b = contains (msg_ids b.db.committed.messages) k

abbrev outbox_has : String → Backend → Bool
outbox_has k b = contains (posted_ids b.outbox) k

-- One backend changes, and perhaps the ids `ids` of the service.
union_after :
    (k : String) (before : List Backend) (b b' : Backend) (after : List Backend)
    (ids ids' : List String) (n : Bool)
    → in_files k (before ++ b ∷ after) ≡ (contains ids k || in_outboxes k (before ++ b ∷ after))
    → file_has k b' ≡ (file_has k b || n)
    → (contains ids' k || outbox_has k b') ≡ ((contains ids k || outbox_has k b) || n)
    → in_files k (before ++ b' ∷ after) ≡ (contains ids' k || in_outboxes k (before ++ b' ∷ after))
union_after k before b b' after ids ids' n old file sent =
    rw (in_files-append k before (b' ∷ after), in_outboxes-append k before (b' ∷ after))
      (merged (in_files k before) (file_has k b) (in_files k after) (contains ids k)
        (in_outboxes k before) (outbox_has k b) (in_outboxes k after) n (file_has k b')
        (contains ids' k) (outbox_has k b')
        (sym (in_files-append k before (b ∷ after))
          ∙ old
          ∙ ap (λ (o : Bool). contains ids k || o) (in_outboxes-append k before (b ∷ after)))
        file sent)

module _ (cfg : Config) (engine : TextEngine) where
  -- The files have together the ids of the service and of what is on its way to it.
  record IsSynced (c : Cluster) : Type 0 where
    pub ready : All (IsReady cfg engine) c.backends
    pub sound : IsSound c.service
    pub union :
        (k : String)
        → in_files k c.backends
          ≡ (contains (table_ids c.service.rows) k || in_outboxes k c.backends)

  -- One backend changes, and perhaps the service.
  replaced :
      (c : Cluster) (before : List Backend) (b b' : Backend) (after : List Backend) (t : Table)
      (n : String → Bool)
      → c.backends ≡ before ++ b ∷ after
      → IsSynced c
      → IsReady cfg engine b'
      → IsSound t
      → ((k : String) → file_has k b' ≡ (file_has k b || n k))
      → ((k : String)
          → (contains (table_ids t.rows) k || outbox_has k b')
            ≡ ((contains (table_ids c.service.rows) k || outbox_has k b) || n k))
      → IsSynced (record { backends = before ++ b' ∷ after; service = t })
  replaced c before b b' after t n e h ready sound file sent = record {
    ready = (All-middle (IsReady cfg engine) before b after (rw e at h.ready)).1 b' ready;
    sound = sound;
    union = λ k.
        union_after k before b b' after (table_ids c.service.rows) (table_ids t.rows) (n k)
          (ap (in_files k) (sym e)
            ∙ h.union k
            ∙ ap (λ (bs : List Backend). contains (table_ids c.service.rows) k || in_outboxes k bs)
                e)
          (file k) (sent k);
  }

  found :
      (c : Cluster) (before : List Backend) (b : Backend) (after : List Backend)
      → c.backends ≡ before ++ b ∷ after
      → IsSynced c
      → IsReady cfg engine b
  found c before b after e h = (All-middle (IsReady cfg engine) before b after (rw e at h.ready)).0

  or_false : (b : Bool) → b ≡ (b || false)
  or_false b = ground arith

  Shift-IsSynced :
      {c after : Cluster}
      → replicates cfg ≡ true
      → Shift cfg engine c after
      → IsSynced c
      → IsSynced after
  unfolding posted_ids start
  Shift-IsSynced {c} on joined h = record {
    ready =
        All-snoc (IsReady cfg engine) c.backends _ h.ready
          (record { durable = start-IsDurable empty_store tt; rows = []; made = refl });
    sound = h.sound;
    union = λ k. rw (in_files-append, in_outboxes-append) (ground (arith, h.union k));
  }
  Shift-IsSynced {c} on (worked before b after {db} e step) h =
      let r = found c before b after e h in
      replaced c before b (record b { db = db }) after c.service (λ k. false) e h
        (record {
          durable = Local-IsDurable cfg engine step r.durable;
          rows = r.rows;
          made = r.made;
        })
        h.sound (λ k. rw (Local-file cfg engine step r.durable) (or_false _)) (λ k. or_false _)
  Shift-IsSynced {c} on (wrote before b after e empty) h =
      let r = found c before b after e h in
      let w = write-Committed cfg engine b on r.durable in
      replaced c before b _ after c.service (contains (ids_of b.db.in_flight)) e h w.ready h.sound
        (λ k.
          rw w.filed (contains-append (msg_ids b.db.committed.messages) (ids_of b.db.in_flight) k))
        (λ k. rw (w.sent, empty) (ground arith))
  Shift-IsSynced {c} on (delivered before b after e) h =
      let r = found c before b after e h in
      let t = (service_batch engine cfg.repr (list (items_of b.outbox)) c.service).1 in
      replaced c before b (record b { outbox = [] }) after t (λ k. false) e h
        (record { durable = r.durable; rows = []; made = refl })
        (batch-IsSound engine cfg.repr (list (items_of b.outbox)) c.service h.sound)
        (λ k. or_false _)
        (λ k.
          rw (r.made, posted_ids-payload cfg r.rows)
            (ground (arith, delivered_ids cfg engine r.rows c.service k)))
  Shift-IsSynced {c} on (restarted before b after e empty) h =
      let r = found c before b after e h in
      replaced c before b (record b { db = start b.db.committed }) after c.service (λ k. false) e h
        (record { durable = crash-IsDurable b.db r.durable; rows = r.rows; made = r.made }) h.sound
        (λ k. or_false _) (λ k. or_false _)

  Shifts-IsSynced :
      {c after : Cluster}
      → replicates cfg ≡ true
      → Shifts cfg engine c after
      → IsSynced c
      → IsSynced after
  Shifts-IsSynced on settled h = h
  Shifts-IsSynced on (then_shift run step) h = Shift-IsSynced on step (Shifts-IsSynced on run h)

  -- Let backends that replicate start on empty files, one after the other, and take any steps in
  -- any order: they save messages with times of 64 bits while their queues have room, their writers
  -- take batches, commit them and post them, the posts arrive, and backends whose posts have arrived
  -- may die and start again. At every moment, whatever ids the backends share: an id is in the file
  -- of some backend exactly if the service has it, or it is on its way there; so when no post is on
  -- its way, the service has exactly the union of the files. No id stands twice at the service.
  pub replicated_union :
      (c : Cluster)
      → replicates cfg ≡ true
      → Shifts cfg engine (record { backends = []; service = record { rows = []; seq = 0 } }) c
      → ((k : String)
          → in_files k c.backends
            ≡ (contains (table_ids c.service.rows) k || in_outboxes k c.backends))
        × Distinct (table_ids c.service.rows)
  replicated_union c on run =
      let h = Shifts-IsSynced on run (record {
        ready = tt;
        sound = record { distinct = tt; ascending = omega arith };
        union = λ k. refl;
      }) in
      (h.union, h.sound.distinct)
