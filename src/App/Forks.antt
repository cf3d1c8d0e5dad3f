-- ===== src/App/Forks.antt =====
-- Messages of sockets that are saved while the writer has not yet stored the one before.
use chat_app_csd.Prelude.{
  String, ◌≡◌, refl, sym, ◌≢◌, inl, inr, true, false, List, [], ◌∷◌, ◌++◌, arith, length,
  Bool-cases, ltb,
}
use chat_app_csd.Db.{Db, get_last_hash, queue_max, genesis, save_message}
use chat_app_csd.Integrity.{verify_chain, hash_after}
use chat_app_csd.Integrity.Chain.{Linked, tip, all_true, verify_chain_iff}
use chat_app_csd.App.Socket.{ws_row}
use chat_app_csd.App.{Packages, Keys, Draw, App}
use chat_app_csd.Store.{Row}
use chat_app_csd.Value.{Value}

module _ (p : Packages) where
  -- While the queue has room, a save does not touch the file.
  working-save_message :
      (r : Row) (db : Db)
      → ltb (length db.queue) queue_max ≡ true
      → (save_message p.config r db).1.working ≡ db.working
  unfolding save_message
  working-save_message r db room = ground (arith, room)

  pub Linked-right :
      (prev : String) (before rows : List Row)
      → Linked p.config.repr p.sha256_hex prev (before ++ rows)
      → Linked p.config.repr p.sha256_hex (tip prev before) rows
  Linked-right prev [] rows h = h
  Linked-right prev (x ∷ before) rows h = Linked-right x.record_hash before rows h.1

  pub broken_link :
      (before : List Row) (r next : Row) (after : List Row)
      → hash_after p.config.repr p.sha256_hex r.record_hash next ≢ next.record_hash
      → all_true (verify_chain p.config.repr p.sha256_hex (before ++ r ∷ next ∷ after)) ≡ false
  broken_link before r next after apart =
      let rows = before ++ r ∷ next ∷ after in
      elim (Bool-cases (all_true (verify_chain p.config.repr p.sha256_hex rows))) [
        | inl all ↦
            let linked =
              Linked-right genesis before (r ∷ next ∷ after)
                ((verify_chain_iff p.config.repr p.sha256_hex rows).0 all) in
            absurd (apart (sym linked.1.0))
        | inr some_false ↦ some_false
      ]

  -- If two messages of sockets are saved one after the other, while the queue has room and before
  -- the writer stores the first, then both are linked to the same hash. Unless the digests of the
  -- second row behind that hash and behind the first row agree, `verify_chain` does not accept any
  -- table in which the two follow each other, wherever they stand in it, although nobody has edited it.
  pub sockets_fork :
      (keys keys' : Keys p) (name name' content content' : String) (time time' : Value)
      (draw draw' : Draw) (app : App p) (before after : List Row)
      → ltb (length app.db.queue) queue_max ≡ true
      → let first = ws_row p keys name content time draw app in
        let once = record app { db = (save_message p.config first app.db).1 } in
        let second = ws_row p keys' name' content' time' draw' once in
        hash_after p.config.repr p.sha256_hex first.record_hash second ≢ second.record_hash
        → (second.prev_hash ≡ first.prev_hash)
          × (all_true (verify_chain p.config.repr p.sha256_hex (before ++ first ∷ second ∷ after))
              ≡ false)
  sockets_fork keys keys' name name' content content' time time' draw draw' app before after room
        apart =
      let first = ws_row p keys name content time draw app in
      let once : App p = record app { db = (save_message p.config first app.db).1 } in
      let second = ws_row p keys' name' content' time' draw' once in
      (
        unfold ws_row get_last_hash in rw (working-save_message first app.db room) refl,
        broken_link before first second after apart,
      )
