-- ===== src/DbService/Arrival.antt =====
-- What a backend's writer posts, as the service of dbservice/main.py stores it.
use chat_app_csd.Prelude.{
  ℕ, suc, ◌≡◌, refl, sym, ap, ◌∙◌, inl, inr, Bool, some, List, [], ◌∷◌, ◌++◌, map, append-nil,
  append_assoc, map-append, length, contains, Bool-cases, if◌then◌else◌, length-map,
}
use chat_app_csd.Value.{text, list, items_of, str, get, get_or}
use chat_app_csd.Db.{Config, returned}
use chat_app_csd.Db.Writer.{payload}
use chat_app_csd.Store.{Row}
use chat_app_csd.Store.Batch.{fresh_rows}
use chat_app_csd.DbService.{
  table_ids, TextEngine, Params, Stored, Table, has_id, insert_row, insert_all, service_batch,
  params_of_all, params_of, stored_row,
}
use chat_app_csd.DbService.Twice.{table_ids-insert_row}

-- A row of the table without its number.
abbrev pub unnumbered : Stored → Stored
unnumbered r = record r { id = 0 }

module _ (cfg : Config) where
  abbrev posted_params : Row → Params
  posted_params r = record {
    msg_id = text r.msg_id;
    username = text r.username;
    display_name = text r.username;
    ciphertext = text r.ciphertext;
    signature = text r.signature;
    hmac_digest = text r.record_hash;
    timestamp = text (str cfg.repr r.timestamp);
    plaintext = text r.plaintext;
  }

  -- The columns that a posted row has at the service.
  abbrev pub arrived : Row → Stored
  arrived r = record {
    id = 0;
    msg_id = some r.msg_id;
    username = some r.username;
    display_name = some r.username;
    ciphertext = some r.ciphertext;
    signature = some r.signature;
    hmac_digest = some r.record_hash;
    timestamp = some (str cfg.repr r.timestamp);
    plaintext = some r.plaintext;
  }

  params_of_all-payload :
      (rows : List Row)
      → params_of_all cfg.repr (items_of (map (payload cfg) rows))
        ≡ returned (map posted_params rows)
  unfolding params_of_all params_of payload get get_or str
  params_of_all-payload [] = refl
  params_of_all-payload (r ∷ rows) = rw (params_of_all-payload rows) refl

  module _ (engine : TextEngine) where
    stored_row-arrived :
        (r : Row) (id : ℕ) → unnumbered (stored_row engine (posted_params r) id) ≡ arrived r
    stored_row-arrived r id =
        let same = engine.column_text_text in
        λ i. record {
          id = 0;
          msg_id = same r.msg_id i;
          username = same r.username i;
          display_name = same r.username i;
          ciphertext = same r.ciphertext i;
          signature = same r.signature i;
          hmac_digest = same r.record_hash i;
          timestamp = same (str cfg.repr r.timestamp) i;
          plaintext = same r.plaintext i;
        }

    abbrev known : Row → Table → Bool
    known r t = has_id (engine.column_text (text r.msg_id)) t.rows

    known_lem : (r : Row) (t : Table) → known r t ≡ contains (table_ids t.rows) r.msg_id
    known_lem r t = rw (engine.column_text_text r.msg_id) refl

    -- The rows of the table after an insert of a posted row.
    rows-insert_row :
        (r : Row) (t : Table)
        → map unnumbered (insert_row engine (posted_params r) t).rows
          ≡ (if known r t then map unnumbered t.rows else map unnumbered t.rows ++ arrived r ∷ [])
    unfolding insert_row
    rows-insert_row r t = elim (Bool-cases (known r t)) [
      | inl k ↦ rw k refl
      | inr k ↦ rw k (
          map-append _ t.rows (stored_row engine (posted_params r) (suc t.seq) ∷ [])
          ∙ ap (λ (s : Stored). map unnumbered t.rows ++ s ∷ []) (stored_row-arrived r (suc t.seq)))
    ]

    -- What the posted rows make of the table.
    record Arrived (rows : List Row) (t : Table) : Type 0 where
      table : Table
      ran : insert_all engine (map posted_params rows) t ≡ some table
      shown :
          map unnumbered table.rows
          ≡ map unnumbered t.rows ++ map arrived (fresh_rows (table_ids t.rows) rows)

    fresh-insert_row :
        (r : Row) (rows : List Row) (t : Table)
        → let after = insert_row engine (posted_params r) t in
          map unnumbered after.rows ++ map arrived (fresh_rows (table_ids after.rows) rows)
          ≡ map unnumbered t.rows ++ map arrived (fresh_rows (table_ids t.rows) (r ∷ rows))
    fresh-insert_row r rows t =
        rw (rows-insert_row r t, table_ids-insert_row engine (posted_params r) t)
          (elim (Bool-cases (known r t)) [
            | inl k ↦ rw (k, sym (known_lem r t) ∙ k) refl
            | inr k ↦
                rw (k, sym (known_lem r t) ∙ k)
                  (rw (engine.column_text_text r.msg_id)
                    (append_assoc (map unnumbered t.rows) (arrived r ∷ []) _))
          ])

    arrive : (rows : List Row) (t : Table) → Arrived rows t
    unfolding insert_all
    arrive [] t = record { table = t; ran = refl; shown = sym (append-nil _) }
    arrive (r ∷ rows) t =
        let h = arrive rows (insert_row engine (posted_params r) t) in
        record { table = h.table; ran = h.ran; shown = h.shown ∙ fresh-insert_row r rows t }

    -- The service answers what a writer posts for a batch that is not empty with the size of the
    -- batch, and its table is then what it was, with the rows of the batch that have a new id
    -- behind it, in order, each with its id, name, texts, signature, hash and the `str` of its
    -- time.
    pub posted_batch_arrives :
        (r : Row) (rows : List Row) (t : Table)
        → let posted = items_of (map (payload cfg) (r ∷ rows)) in
          let (result, after) = service_batch engine cfg.repr (list posted) t in
          (result ≡ returned (length (r ∷ rows)))
          × (map unnumbered after.rows
              ≡ map unnumbered t.rows ++ map arrived (fresh_rows (table_ids t.rows) (r ∷ rows)))
    unfolding service_batch
    posted_batch_arrives r rows t =
        let h = arrive (r ∷ rows) t in
        rw (params_of_all-payload (r ∷ rows))
          (rw h.ran (ap returned (length-map (r ∷ rows) posted_params), h.shown))
