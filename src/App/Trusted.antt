-- ===== src/App/Trusted.antt =====
-- The keys and the waiting rows of app.py through every handler, those of the sockets included.
pub mod Steps
use chat_app_csd.Prelude.{
  ℕ, zero, suc, ◌+◌, ◌-◌, ◌*◌, ◌/◌, ◌%◌, ◌^◌, ◌≤◌, ◌<◌, String, count, ◌≡◌, refl, sym, ap, ◌∙◌, ◌≢◌,
  ◌↔◌, ◌⊎◌, inl, inr, Bool, true, false, not, ◌&&◌, ◌||◌, Option, none, some, List, [], ◌∷◌, ◌++◌,
  map, append-nil, append_assoc, map-append, arith, ◌==◌, eq_iff, eq_refl, length, take, drop,
  take-append-drop, All-append, length-take, length-drop, drop_all, length-append, All, contains,
  contains-append, Distinct, Bool-cases, Option-cases, if◌then◌else◌, ltb, leb, nat_eq, ℤ, pos,
  negsuc, is_empty, str_int, int_of_text, int_of_text-str_int, is_empty-str_int, f_string, strip,
  prefix, count-prefix-le,
}
use mathlib.Core.Path.{subst}
use chat_app_csd.App.Signed.{
  IsPair, ArePairs, AreSealed, IsSealed, IsGenuine, save-AreSealed, new_keys-IsPair, signed-IsPair,
  post_message-IsGenuine,
}
use chat_app_csd.App.Answers.{handle_induction}
use chat_app_csd.App.Socket.{
  ws_row, closed, not_json, message, ws_turn, ws_leave, on_join, on_message, join_as, join_name,
  ws_store, ws_saved, text_is, stripped, Received,
}
use chat_app_csd.App.Runs.{
  Handled, Run, posted, received, left, ingested, cleared, showed, flushed, started, then_next,
}
use chat_app_csd.App.Routes.{get_feed, reset_state, post_messages_batch, batch_answer}
use chat_app_csd.Db.{raised, returned, Outcome, save_message, Db, reset_db, upsert_user_pubkey}
use chat_app_csd.Db.Ingest.{save_messages_batch, parse_items, ingest}
use chat_app_csd.Db.Writer.{writer_round, writer_take, writer_write}
use chat_app_csd.Db.Pipeline.{pending}
use chat_app_csd.Value.{list, cons, Value, Fields, dict, get, str, get_or, text}
use chat_app_csd.App.{
  Packages, App, Draw, Keys, broadcast_ws, canonical_message, dead_of, find_socket, new_keys,
  pop_all, pop_socket, put_socket,
}
use chat_app_csd.CryptoUtils.{decrypt_text, encrypt_text}

module _ (p : Packages) where
  -- The keys of every socket are a pair.
  abbrev pub SocketsPaired : List (ℕ × Keys p) → Type 0
  SocketsPaired [] = Unit
  SocketsPaired ((ws, keys) ∷ d) = IsPair p keys × SocketsPaired d

  pub record IsTrusted (app : App p) : Type 0 where
    pub genuine : IsGenuine p app
    pub sockets : SocketsPaired app.client_keys

  pub pop-SocketsPaired :
      (k : ℕ) (d : List (ℕ × Keys p)) → SocketsPaired d → SocketsPaired (pop_socket k d)
  pop-SocketsPaired k [] h = tt
  pop-SocketsPaired k ((j, v) ∷ d) h = elim (Bool-cases (nat_eq j k)) [
    | inl same ↦ rw same (pop-SocketsPaired k d h.1)
    | inr other ↦ rw other (h.0, pop-SocketsPaired k d h.1)
  ]

  put-SocketsPaired :
      (k : ℕ) (v : Keys p) (d : List (ℕ × Keys p))
      → IsPair p v
      → SocketsPaired d
      → SocketsPaired (put_socket k v d)
  put-SocketsPaired k v [] le h = (le, tt)
  put-SocketsPaired k v ((j, w) ∷ d) le h = elim (Bool-cases (nat_eq j k)) [
    | inl same ↦ rw same (le, h.1)
    | inr other ↦ rw other (h.0, put-SocketsPaired k v d le h.1)
  ]

  pub pop_all-SocketsPaired :
      (gone : List ℕ) (d : List (ℕ × Keys p)) → SocketsPaired d → SocketsPaired (pop_all gone d)
  pop_all-SocketsPaired [] d h = h
  pop_all-SocketsPaired (ws ∷ gone) d h =
      pop_all-SocketsPaired gone (pop_socket ws d) (pop-SocketsPaired ws d h)

  found-SocketsPaired :
      (k : ℕ) (d : List (ℕ × Keys p)) (keys : Keys p)
      → SocketsPaired d
      → find_socket k d ≡ some keys
      → IsPair p keys
  found-SocketsPaired k [] keys h e = cc e
  found-SocketsPaired k ((j, v) ∷ d) keys h e = elim (Bool-cases (nat_eq j k)) [
    | inl same ↦ let found : v ≡ keys = cc (rw same at e) in subst (IsPair p) found h.0
    | inr other ↦ found-SocketsPaired k d keys h.1 (rw other at e)
  ]

  broadcast-IsTrusted :
      (dead : ℕ → Bool) (payload : Value) (app : App p)
      → IsTrusted app
      → IsTrusted (broadcast_ws p dead payload app)
  unfolding broadcast_ws
  broadcast-IsTrusted dead payload app h = record {
    genuine = record { keys = h.genuine.keys; rows = h.genuine.rows };
    sockets = pop_all-SocketsPaired (dead_of dead app.clients) app.client_keys h.sockets;
  }

  ws_row-IsSealed :
      (keys : Keys p) (name content : String) (time : Value) (draw : Draw) (app : App p)
      → p.fernet.accepts p.secret_key ≡ true
      → IsPair p keys
      → IsSealed p (ws_row p keys name content time draw app)
  unfolding ws_row
  ws_row-IsSealed keys name content time draw app accepted pair = record {
    signed =
        signed-IsPair p keys draw.nonce (canonical_message p.config.repr name content time) pair;
    encrypted =
        unfold decrypt_text encrypt_text in
        p.fernet.decrypt-encrypt p.secret_key draw.iv content accepted;
  }

  saved-IsTrusted :
      (name content : String) (time : Value) (draw : Draw) (saved : Outcome Bool) (app : App p)
      → IsTrusted app
      → IsTrusted (ws_saved p name content time draw saved app).1
  saved-IsTrusted name content time draw raised app h = h
  saved-IsTrusted name content time draw (returned _) app h = broadcast-IsTrusted draw.dead _ app h

  ws_store-IsTrusted :
      (o : Option (Keys p)) (name content : String) (time : Value) (draw : Draw) (app : App p)
      → p.fernet.accepts p.secret_key ≡ true
      → ((keys : Keys p) → o ≡ some keys → IsPair p keys)
      → IsTrusted app
      → IsTrusted (ws_store p o name content time draw app).1
  ws_store-IsTrusted none name content time draw app accepted pairs h = h
  ws_store-IsTrusted (some keys) name content time draw app accepted pairs h =
      let row = ws_row p keys name content time draw app in
      let (saved, db) = save_message p.config row app.db in
      saved-IsTrusted name content time draw saved (record app { db = db })
        (record {
          genuine = record {
            keys = h.genuine.keys;
            rows =
                save-AreSealed p row app.db h.genuine.rows
                  (ws_row-IsSealed keys name content time draw app accepted (pairs keys refl));
          };
          sockets = h.sockets;
        })

  on_message-IsTrusted :
      (ws : ℕ) (username : Option String) (draw : Draw) (msg : Fields) (app : App p)
      → p.fernet.accepts p.secret_key ≡ true
      → IsTrusted app
      → IsTrusted (on_message p ws username draw msg app).1
  unfolding on_message
  on_message-IsTrusted ws none draw msg app accepted h = h
  on_message-IsTrusted ws (some name) draw msg app accepted h =
      let content = prefix 2000 (str p.config.repr (get_or (text "") msg "text")) in
      elim (Bool-cases (is_empty (strip content))) [
        | inl blank ↦ rw blank h
        | inr said ↦ rw said (
            ws_store-IsTrusted (find_socket ws app.client_keys) name content _ draw app accepted
              (λ keys e. found-SocketsPaired ws app.client_keys keys h.sockets e) h)
      ]

  join_as-IsTrusted :
      (ws : ℕ) (draw : Draw) (app : App p) (name : Outcome String)
      → IsTrusted app
      → IsTrusted (join_as p ws draw app name).1
  unfolding upsert_user_pubkey
  join_as-IsTrusted ws draw app raised h = h
  join_as-IsTrusted ws draw app (returned name) h =
      let keys = new_keys p draw.key_seed in
      let sockets =
        put-SocketsPaired ws keys app.client_keys (new_keys-IsPair p draw.key_seed) h.sockets in
      elim (Bool-cases (draw.dead ws)) [
        | inl dead ↦ rw dead (record {
          genuine = record { keys = h.genuine.keys; rows = h.genuine.rows };
          sockets = sockets;
        })
        | inr alive ↦ rw alive (record {
          genuine = record { keys = h.genuine.keys; rows = h.genuine.rows };
          sockets = sockets;
        })
      ]

  pub ws_turn-IsTrusted :
      (ws : ℕ) (username : Option String) (draw : Draw) (event : Received) (app : App p)
      → p.fernet.accepts p.secret_key ≡ true
      → IsTrusted app
      → IsTrusted (ws_turn p ws username draw event app).1
  unfolding ws_turn on_join join_name
  ws_turn-IsTrusted ws username draw closed app accepted h = h
  ws_turn-IsTrusted ws username draw not_json app accepted h = h
  ws_turn-IsTrusted ws username draw (message (dict msg)) app accepted h =
      elim (Bool-cases (text_is p "join" (get msg "type"))) [
        | inl k ↦ rw k (join_as-IsTrusted ws draw app _ h)
        | inr k1 ↦ elim (Bool-cases (text_is p "message" (get msg "type"))) [
          | inl k ↦ rw (k1, k) (on_message-IsTrusted ws username draw msg app accepted h)
          | inr k ↦ rw (k1, k) h
        ]
      ]
  ws_turn-IsTrusted ws username draw (message _) app accepted h = h
