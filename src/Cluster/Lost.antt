-- ===== src/Cluster/Lost.antt =====
-- A backend whose post has failed: the writer ignores the outcome.
use chat_app_csd.Prelude.{
  String, ◌≡◌, refl, true, false, List, [], ◌∷◌, ◌++◌, arith, contains, contains-append, Distinct,
  eq_iff,
}
use chat_app_csd.Store.{ids_of, msg_ids}
use chat_app_csd.Db.{Config, Db, start}
use chat_app_csd.Db.Pipeline.{IsDurable, batch-Distinct}
use chat_app_csd.Db.Steps.{write-IsDurable, crash-IsDurable}
use chat_app_csd.Db.Writer.{writer_write, replicates}
use chat_app_csd.DbService.{TextEngine}
use chat_app_csd.Cluster.{Backend, Local, posted_ids}
use chat_app_csd.Cluster.Backends.{Local-IsDurable, Local-file, write-Committed}

apart :
    (xs ys : List String) (k : String)
    → Distinct (xs ++ ys)
    → contains xs k ≡ true
    → contains ys k ≡ false
apart [] ys k d there = cc
apart (x ∷ xs) ys k d there =
    ground (arith, d, there, contains-append xs ys x, eq_iff x k, apart xs ys k)

module _ (cfg : Config) (engine : TextEngine) where
  -- The steps of one backend. A post ends with `ended`, whether it has arrived or not.
  pub data Own (b : Backend) : Backend → Type 0 where
    worked : {db : Db} → Local cfg engine b.db db → Own b (record b { db = db })
    wrote :
        b.outbox ≡ []
        → Own b (record { db = (writer_write cfg b.db).0; outbox = (writer_write cfg b.db).1 })
    ended : Own b (record b { outbox = [] })
    restarted : Own b (record { db = start b.db.committed; outbox = [] })

  pub data Owns (b : Backend) : Backend → Type 0 where
    begun : Owns b b
    then_own : {c d : Backend} → Owns b c → Own c d → Owns b d

  record IsFiled (k : String) (b : Backend) : Type 0 where
    pub durable : IsDurable b.db
    pub filed : contains (msg_ids b.db.committed.messages) k ≡ true
    pub unsent : contains (posted_ids b.outbox) k ≡ false

  Own-IsFiled :
      (k : String) {b after : Backend}
      → replicates cfg ≡ true
      → Own b after
      → IsFiled k b
      → IsFiled k after
  unfolding posted_ids start
  Own-IsFiled k {b} on (worked step) h = record {
    durable = Local-IsDurable cfg engine step h.durable;
    filed = rw (Local-file cfg engine step h.durable) h.filed;
    unsent = h.unsent;
  }
  Own-IsFiled k {b} on (wrote empty) h =
      let w = write-Committed cfg engine b on h.durable in
      let ids : contains (msg_ids b.db.working.messages) k ≡ true = rw h.durable.saved h.filed in
      record {
        durable = write-IsDurable cfg b.db h.durable;
        filed = rw w.filed (
            ground (
              arith,
              h.filed,
              contains-append (msg_ids b.db.committed.messages) (ids_of b.db.in_flight) k,
            ));
        unsent = rw w.sent (
            apart (msg_ids b.db.working.messages) (ids_of b.db.in_flight) k
              (batch-Distinct b.db h.durable) ids);
      }
  Own-IsFiled k {b} on ended h = record { durable = h.durable; filed = h.filed; unsent = refl }
  Own-IsFiled k {b} on restarted h = record {
    durable = crash-IsDurable b.db h.durable;
    filed = h.filed;
    unsent = refl;
  }

  Owns-IsFiled :
      (k : String) {b after : Backend}
      → replicates cfg ≡ true
      → Owns b after
      → IsFiled k b
      → IsFiled k after
  Owns-IsFiled k on begun h = h
  Owns-IsFiled k on (then_own run step) h = Own-IsFiled k on step (Owns-IsFiled k on run h)

  -- Let a backend that replicates be in a durable state with a message in its file, and no post on
  -- its way, because the one with the message has ended, arrived or not. Then, however often it
  -- saves messages with times of 64 bits while its queue has room, notes users, takes batches,
  -- writes and posts them, and starts again, and whether its posts arrive or not, none of its posts
  -- has the message: one whose post has failed is never sent again. Posted batches and resets are no
  -- steps here.
  pub failed_post_is_final :
      (k : String) (b after : Backend)
      → replicates cfg ≡ true
      → IsDurable b.db
      → contains (msg_ids b.db.committed.messages) k ≡ true
      → Owns (record b { outbox = [] }) after
      → (contains (msg_ids after.db.committed.messages) k ≡ true)
        × (contains (posted_ids after.outbox) k ≡ false)
  unfolding posted_ids
  failed_post_is_final k b after on durable filed run =
      let h = Owns-IsFiled k on run (record { durable = durable; filed = filed; unsent = refl }) in
      (h.filed, h.unsent)
