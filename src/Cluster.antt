-- ===== src/Cluster.antt =====
-- Several backends (db.py) that replicate to one shared service (dbservice/main.py). A backend's
-- writer commits a batch, posts it, and goes on when the service has answered, so other processes
-- may take steps between its commit and the arrival of what it posts.
pub mod Delivery
pub mod Backends
pub mod Sync
pub mod Lost
use chat_app_csd.Prelude.{
  ℕ, ◌<◌, ◌≡◌, String, Bool, true, false, ◌||◌, Option, none, some, List, [], ◌∷◌, ◌++◌, contains,
  length,
}
use chat_app_csd.Value.{Value, text, dict, list, get, items_of}
use chat_app_csd.Store.{Row, empty_store, msg_ids}
use chat_app_csd.Db.{Config, Db, save_message, upsert_user_pubkey, start, queue_max}
use chat_app_csd.Db.Writer.{writer_take, writer_write}
use chat_app_csd.Db.Pipeline.{HasIntTime}
use chat_app_csd.DbService.{TextEngine, Table, service_batch}

-- `outbox`: the variable `payload` of the writer while its request is on the way.
pub record Backend : Type 0 where
  pub db : Db
  pub outbox : List Value

pub record Cluster : Type 0 where
  pub backends : List Backend
  pub service : Table

-- The id of a posted record.
abbrev record_id : Value → List String
record_id (dict d) = elim (get d "msg_id") [ text s ↦ s ∷ [] | _ ↦ [] ]
record_id _ = []

pub posted_ids : List Value → List String
posted_ids [] = []
posted_ids (v ∷ vs) = record_id v ++ posted_ids vs

-- Whether a backend's file, or a batch on its way, has a message with the id.
abbrev pub in_files : String → List Backend → Bool
in_files k [] = false
in_files k (b ∷ bs) = contains (msg_ids b.db.committed.messages) k || in_files k bs

abbrev pub in_outboxes : String → List Backend → Bool
in_outboxes k [] = false
in_outboxes k (b ∷ bs) = contains (posted_ids b.outbox) k || in_outboxes k bs

module _ (cfg : Config) (engine : TextEngine) where
  -- What a backend does without its writer's writes.
  pub data Local (db : Db) : Db → Type 0 where
    save :
        (r : Row) → HasIntTime r → length db.queue < queue_max → Local db (save_message cfg r db).1
    user : (name key : String) → Local db (upsert_user_pubkey name key db)
    take_next : db.in_flight ≡ [] → Local db (writer_take db)

  pub data Shift (c : Cluster) : Cluster → Type 0 where
    joined :
        Shift c (record c {
          backends = c.backends ++ record { db = start empty_store; outbox = [] } ∷ [];
        })
    worked :
        (before : List Backend) (b : Backend) (after : List Backend) {db : Db}
        → c.backends ≡ before ++ b ∷ after
        → Local b.db db
        → Shift c (record c { backends = before ++ record b { db = db } ∷ after })
    wrote :
        (before : List Backend) (b : Backend) (after : List Backend)
        → c.backends ≡ before ++ b ∷ after
        → b.outbox ≡ []
        → Shift c (record c {
          backends =
              before
              ++ record { db = (writer_write cfg b.db).0; outbox = (writer_write cfg b.db).1 }
                ∷ after;
        })
    delivered :
        (before : List Backend) (b : Backend) (after : List Backend)
        → c.backends ≡ before ++ b ∷ after
        → Shift c (record {
          backends = before ++ record b { outbox = [] } ∷ after;
          service = (service_batch engine cfg.repr (list (items_of b.outbox)) c.service).1;
        })
    restarted :
        (before : List Backend) (b : Backend) (after : List Backend)
        → c.backends ≡ before ++ b ∷ after
        → b.outbox ≡ []
        → Shift c (record c { backends = before ++ record b { db = start b.db.committed } ∷ after })

  pub data Shifts (c : Cluster) : Cluster → Type 0 where
    settled : Shifts c c
    then_shift : {t u : Cluster} → Shifts c t → Shift t u → Shifts c u
