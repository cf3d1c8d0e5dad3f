-- ===== src/Db/Loss.antt =====
-- A row whose timestamp SQLite refuses: `ws_handler` takes a timestamp from its client unchecked.
use chat_app_csd.Prelude.{
  ◌≡◌, refl, ap, ◌∙◌, ◌≢◌, inl, inr, Bool, true, false, List, [], ◌∷◌, ◌++◌, map, All, Option-cases,
}
use chat_app_csd.Store.Batch.{fresh_rows, kept, Fits, Runs, runs}
use chat_app_csd.Db.{Config, Db}
use chat_app_csd.Store.{
  executemany, Row, Store, bind, unsupported, insert_or_ignore, rows_of, msg_ids,
}
use chat_app_csd.Db.Writer.{writer_write}

module _ (cfg : Config) where
  executemany-append :
      (rows more : List Row) (s t : Store)
      → executemany cfg.engine rows s ≡ (t, true)
      → executemany cfg.engine (rows ++ more) s ≡ executemany cfg.engine more t
  unfolding executemany
  executemany-append [] more s t h =
      ap (executemany cfg.engine more) (ap (λ (p : Store × Bool). p.0) h)
  executemany-append (r ∷ rows) more s t h = elim (Option-cases (insert_or_ignore cfg.engine r s)) [
    | inl e ↦ cc (rw (e, executemany) at h)
    | inr (u, e) ↦ rw (e, executemany) (executemany-append rows more u t (rw (e, executemany) at h))
  ]

  refused_insert :
      (bad : Row) (rest : List Row) (s : Store)
      → bind bad.timestamp ≡ unsupported
      → executemany cfg.engine (bad ∷ rest) s ≡ (s, false)
  unfolding executemany insert_or_ignore
  refused_insert bad rest s b = rw (b, insert_or_ignore, executemany)

  cut_short :
      (good : List Row) (bad : Row) (rest : List Row) (s : Store)
      → bind bad.timestamp ≡ unsupported
      → (run : Runs cfg.engine good s)
      → executemany cfg.engine (good ++ bad ∷ rest) s ≡ (run.after, false)
  cut_short good bad rest s b run =
      executemany-append good (bad ∷ rest) s run.after run.ran ∙ refused_insert bad rest run.after b

  failed_write :
      (batch : List Row) (s : Store) (db : Db)
      → batch ≢ []
      → db.in_flight ≡ batch
      → executemany cfg.engine batch db.working ≡ (s, false)
      → writer_write cfg db ≡ (record db { working = s; in_flight = [] }, [])
  unfolding writer_write
  failed_write [] s db n e h = absurd (n refl)
  failed_write (r ∷ rows) s db n e h = rw (e, writer_write) (rw h refl)

  not_empty : (good : List Row) (bad : Row) (rest : List Row) → good ++ bad ∷ rest ≢ []
  not_empty [] bad rest = λ e. cc e
  not_empty (r ∷ good) bad rest = λ e. cc e

  -- Where the batch is good rows, then a row whose timestamp SQLite refuses, then any rows, the
  -- round commits nothing, drops the whole batch, and posts nothing to the shared service; the
  -- rows behind the refused one are not even in the open transaction, and the feed stays as it
  -- was.
  pub bad_row_loses_batch :
      (good : List Row) (bad : Row) (rest : List Row) (db : Db)
      → All Fits good
      → bind bad.timestamp ≡ unsupported
      → db.in_flight ≡ good ++ bad ∷ rest
      → let (after, posted) = writer_write cfg db in
        (after.committed ≡ db.committed)
        × (after.in_flight ≡ [])
        × (posted ≡ [])
        × (rows_of after.working.messages
            ≡ rows_of db.working.messages
              ++ map (kept cfg.engine) (fresh_rows (msg_ids db.working.messages) good))
        × (after.feed ≡ db.feed)
  bad_row_loses_batch good bad rest db fit b e =
      let run = runs cfg.engine good db.working fit in
      let ended =
        failed_write (good ++ bad ∷ rest) run.after db (not_empty good bad rest) e
          (cut_short good bad rest db.working b run) in
      rw ended (refl, refl, refl, run.rows_after, refl)
