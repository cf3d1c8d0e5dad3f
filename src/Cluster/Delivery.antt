-- ===== src/Cluster/Delivery.antt =====
-- The ids of the shared table after a posted batch has arrived.
use chat_app_csd.Prelude.{
  String, ◌≡◌, refl, sym, ap, ◌∙◌, ◌||◌, inl, inr, Bool-cases, List, [], ◌∷◌, ◌++◌, map, arith,
  contains, contains-append, eq_iff,
}
use chat_app_csd.Value.{list, items_of, get, get_or}
use chat_app_csd.Store.{Row, ids_of}
use chat_app_csd.Store.Batch.{fresh_rows}
use chat_app_csd.Db.{Config}
use chat_app_csd.Db.Writer.{payload}
use chat_app_csd.DbService.{TextEngine, Table, Stored, table_ids, key_of, service_batch}
use chat_app_csd.DbService.Arrival.{arrived, unnumbered, posted_batch_arrives}
use chat_app_csd.DbService.Twice.{table_ids-append}
use chat_app_csd.Cluster.{posted_ids}

table_ids-unnumbered : (rows : List Stored) → table_ids (map unnumbered rows) ≡ table_ids rows
table_ids-unnumbered [] = refl
table_ids-unnumbered (r ∷ rows) = ap (◌++◌ (key_of r.msg_id)) (table_ids-unnumbered rows)

table_ids-arrived :
    (cfg : Config) (rows : List Row) → table_ids (map (arrived cfg) rows) ≡ ids_of rows
table_ids-arrived cfg [] = refl
table_ids-arrived cfg (r ∷ rows) = ap (◌∷◌ r.msg_id) (table_ids-arrived cfg rows)

pub posted_ids-payload :
    (cfg : Config) (rows : List Row) → posted_ids (map (payload cfg) rows) ≡ ids_of rows
unfolding posted_ids payload get get_or
posted_ids-payload cfg [] = refl
posted_ids-payload cfg (r ∷ rows) = ap (◌∷◌ r.msg_id) (posted_ids-payload cfg rows)

contains-fresh_rows :
    (taken : List String) (rows : List Row) (k : String)
    → contains (taken ++ ids_of (fresh_rows taken rows)) k
      ≡ (contains taken k || contains (ids_of rows) k)
contains-fresh_rows taken [] k = ground (arith, contains-append taken [] k)
contains-fresh_rows taken (r ∷ rows) k = elim (Bool-cases (contains taken r.msg_id)) [
  | inl known ↦
      rw known (contains-fresh_rows taken rows k ∙ ground (arith, known, eq_iff r.msg_id k))
  | inr new ↦
      let rest = ids_of (fresh_rows (taken ++ r.msg_id ∷ []) rows) in
      rw new (
        ground (
          arith,
          contains-append taken (r.msg_id ∷ rest) k,
          contains-append (taken ++ r.msg_id ∷ []) rest k,
          contains-append taken (r.msg_id ∷ []) k,
          contains-fresh_rows (taken ++ r.msg_id ∷ []) rows k,
        ))
]

module _ (cfg : Config) (engine : TextEngine) where
  -- The ids of the table are those of before with those of the batch behind them, once.
  table_ids-service_batch :
      (r : Row) (rows : List Row) (t : Table)
      → let posted = items_of (map (payload cfg) (r ∷ rows)) in
        table_ids (service_batch engine cfg.repr (list posted) t).1.rows
        ≡ table_ids t.rows ++ ids_of (fresh_rows (table_ids t.rows) (r ∷ rows))
  table_ids-service_batch r rows t =
      let posted = items_of (map (payload cfg) (r ∷ rows)) in
      let after = (service_batch engine cfg.repr (list posted) t).1 in
      let fresh = fresh_rows (table_ids t.rows) (r ∷ rows) in
      sym (table_ids-unnumbered after.rows)
      ∙ ap table_ids (posted_batch_arrives cfg engine r rows t).1
      ∙ table_ids-append (map unnumbered t.rows) (map (arrived cfg) fresh)
      ∙ rw (table_ids-unnumbered t.rows, table_ids-arrived cfg fresh) refl

  -- After a delivery the table knows the ids that it knew, and those of the batch.
  pub delivered_ids :
      (rows : List Row) (t : Table) (k : String)
      → contains
          (table_ids
            (service_batch engine cfg.repr (list (items_of (map (payload cfg) rows))) t).1.rows)
          k
        ≡ (contains (table_ids t.rows) k || contains (ids_of rows) k)
  unfolding service_batch
  delivered_ids [] t k = ground arith
  delivered_ids (r ∷ rows) t k =
      rw (table_ids-service_batch r rows t) (contains-fresh_rows (table_ids t.rows) (r ∷ rows) k)
