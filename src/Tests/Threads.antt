-- ===== src/Tests/Threads.antt =====
-- Examples for the threads of `POST /message`.
use chat_app_csd.Prelude.{
  str_int, ◌≤◌, String, ◌≡◌, refl, sym, ◌∙◌, ◌≢◌, true, false, some, [], ◌∷◌, ◌++◌, arith, ◌==◌,
  eq_iff, length, str_int, total_by, All, pos, ℕ,
}
use chat_app_csd.Tests.{packages, app, draw, request, row}
use chat_app_csd.Db.{start, message_exists, feed_item, save_message}
use chat_app_csd.Db.Pipeline.{IsDurable, pending}
use chat_app_csd.Db.Steps.{start-IsDurable}
use chat_app_csd.Db.Saving.{feed_ids}
use chat_app_csd.Store.{empty_store, ids_of, msg_ids, Row}
use chat_app_csd.Value.{dict, field, text, end, str}
use chat_app_csd.App.{Keys, canonical_message, App}
use chat_app_csd.App.Post.{Request, Posted}
use chat_app_csd.App.Threads.{
  write, then_move, hash_row, hashing, sending, Pc, arrived, System, Moves, still, arrive, hash_row,
  feeding,
}
use chat_app_csd.App.Threads.Alone.{steps}
use chat_app_csd.App.Threads.Ends.{remaining, steps-remaining}
use chat_app_csd.App.Threads.Order.{run_first, run_second, crossed_requests}
use chat_app_csd.App.Threads.Counts.{occurrences}
use chat_app_csd.App.Threads.Weights.{inside}
use chat_app_csd.App.Threads.Settled.{threads_bounded, settled_bags, bag}
use chat_app_csd.Integrity.{compute_record_hash, hash_after, record_payload, verify_chain}
use chat_app_csd.Integrity.Chain.{all_true}
use chat_app_csd.Signatures.{sign_message}
use chat_app_csd.CryptoUtils.{encrypt_text}
use chat_app_csd.Db.Writer.{writer_write, writer_rounds}
use chat_app_csd.App.Signed.{IsSealed}
use chat_app_csd.Db.Stored.{stored}
use chat_app_csd.App.Threads.Sealed.{stored_sealed}
use chat_app_csd.App.Routes.{reset_state}
use chat_app_csd.App.Threads.Cleared.{reset_splits_message}
use chat_app_csd.App.Threads.Flushed.{settled_flushed}

abbrev pub request2 : Request
request2 = record request {
  json = some (
      dict (
        field "client-name" (text "bob")
          (field "msg" (text "yo") (field "msg_id" (text "m-2") end))));
}

abbrev pub System0 : System packages
System0 = record { app = app; threads = [] }

abbrev pub two_arrived : System packages
two_arrived = record { app = app; threads = arrived request draw ∷ arrived request2 draw ∷ [] }

pub both_arrive : Moves packages System0 two_arrived
both_arrive = then_move (then_move still (arrive request draw refl)) (arrive request2 draw refl)

pub app-IsDurable : IsDurable app.db
app-IsDurable = start-IsDurable empty_store tt

-- The first request runs until it has put its id into the set, then the second to its end.
abbrev first_part : Pc packages × App packages
first_part = steps packages 6 (arrived request draw, app)

abbrev second_part : Pc packages × App packages
second_part = steps packages 12 (arrived request2 draw, first_part.1)

abbrev mixed : System packages
mixed = record { app = second_part.1; threads = first_part.0 ∷ second_part.0 ∷ [] }

mixed_run : Moves packages System0 mixed
mixed_run =
    run_second packages 12 System0 first_part.0 (arrived request2 draw) first_part.1
      (run_first packages 6 System0 (arrived request draw) (arrived request2 draw) app both_arrive)

threads_bounded_example :
    ((k : String) → occurrences k (feed_ids mixed.app.db.feed) ≤ 1)
    × ((k : String)
        → occurrences k (msg_ids mixed.app.db.working.messages ++ ids_of (pending mixed.app.db))
          ≤ 1)
    × (mixed.app.active_requests ≡ total_by (inside packages) mixed.threads)
    × (mixed.app.active_requests ≤ length mixed.threads)
threads_bounded_example = threads_bounded packages app mixed app-IsDurable refl mixed_run

-- Then the first to its end as well.
abbrev last_part : Pc packages × App packages
last_part = steps packages 6 (first_part.0, second_part.1)

abbrev ended : System packages
ended = record { app = last_part.1; threads = last_part.0 ∷ second_part.0 ∷ [] }

ended_run : Moves packages System0 ended
ended_run = run_first packages 6 System0 first_part.0 second_part.0 second_part.1 mixed_run

all_left : total_by (remaining packages) ended.threads ≡ 0
all_left = omega (
  arith,
  steps-remaining packages 6 (arrived request draw) app,
  steps-remaining packages 6 first_part.0 second_part.1,
  steps-remaining packages 12 (arrived request2 draw) first_part.1,
)

settled_bags_example :
    (bag (feed_ids ended.app.db.feed) ≡ bag ended.app.db.seen)
    × (bag (msg_ids ended.app.db.working.messages ++ ids_of (pending ended.app.db))
        ≡ bag ended.app.db.seen)
    × (ended.app.active_requests ≡ 0)
settled_bags_example = settled_bags packages app ended app-IsDurable refl ended_run all_left

-- Two messages whose rows are saved in the order opposite to that of their hashes.
abbrev ann_posted : Posted
ann_posted = record { client_name = "ann"; msg_text = "hi"; msg_id = "m-1" }

abbrev bob_posted : Posted
bob_posted = record { client_name = "bob"; msg_text = "yo"; msg_id = "m-2" }

abbrev some_keys : Keys packages
some_keys = ("key", "key")

abbrev ann_row : Row
ann_row = (hash_row packages ann_posted draw some_keys app).0

abbrev bob_row : Row
bob_row =
    (hash_row packages bob_posted draw some_keys
      (hash_row packages ann_posted draw some_keys app).1).0

abbrev behind_bob : String
behind_bob = hash_after packages.config.repr packages.sha256_hex bob_row.record_hash ann_row

crossed_seen : behind_bob == ann_row.record_hash ≡ false
unfolding hash_row compute_record_hash record_payload str str_int sign_message encrypt_text
    canonical_message
crossed_seen = refl

crossed_apart : behind_bob ≢ ann_row.record_hash
crossed_apart = λ e. cc (sym crossed_seen ∙ (eq_iff behind_bob ann_row.record_hash).1 e)

ids_seen : "m-2" == "m-1" ≡ false
ids_seen = refl

ids_apart : bob_posted.msg_id ≢ ann_posted.msg_id
ids_apart = λ e. cc (sym ids_seen ∙ (eq_iff "m-2" "m-1").1 e)

crossed_requests_example :
    ((t : System packages) × Moves packages
        (record {
          app = app;
          threads = hashing ann_posted draw some_keys ∷ hashing bob_posted draw some_keys ∷ [];
        })
        t
      × (t.threads ≡ sending ann_posted draw true ∷ sending bob_posted draw true ∷ [])
      × (t.app.db.queue ≡ app.db.queue ++ bob_row ∷ ann_row ∷ []))
    × (bob_row.prev_hash ≡ ann_row.record_hash)
    × (all_true
          (verify_chain packages.config.repr packages.sha256_hex (bob_row ∷ ann_row ∷ bob_row ∷ []))
        ≡ false)
crossed_requests_example =
    crossed_requests packages ann_posted bob_posted draw draw some_keys some_keys app []
      (bob_row ∷ []) (unfold start in refl) (unfold start in refl) ids_apart
      (unfold start in omega arith) crossed_apart

-- The two requests of `ended`, and then a round of the writer.
abbrev flushed : System packages
flushed = record ended {
  app = record ended.app { db = (writer_write packages.config ended.app.db).0 };
}

stored_sealed_example : All (IsSealed packages) (stored flushed.app.db)
stored_sealed_example =
    stored_sealed packages app flushed refl app-IsDurable refl tt (unfold start in tt)
      (then_move ended_run write)

reset_splits_message_example :
    let cleared = (reset_state packages app).1 in
    let (pc, after) = steps packages 2 (feeding ann_posted draw (row "m-1" (pos 5)), cleared) in
    (pc ≡ sending ann_posted draw true)
    × (message_exists "m-1" after.db ≡ false)
    × (after.db.feed ≡ feed_item (row "m-1" (pos 5)) ∷ [])
    × (after.db.queue ≡ row "m-1" (pos 5) ∷ [])
    × (feed_ids (save_message packages.config (row "m-1" (pos 9)) after.db).1.feed
        ≡ "m-1" ∷ "m-1" ∷ [])
reset_splits_message_example =
    reset_splits_message packages ann_posted draw (row "m-1" (pos 5)) (row "m-1" (pos 9)) app refl

-- More rounds than are needed: one for each row of the queue.
abbrev enough : ℕ
enough = length ended.app.db.queue

settled_flushed_example :
    let db = writer_rounds packages.config enough (writer_write packages.config ended.app.db).0 in
    (pending db ≡ [])
    × (db.working ≡ db.committed)
    × (bag (msg_ids db.committed.messages) ≡ bag (feed_ids ended.app.db.feed))
settled_flushed_example =
    settled_flushed packages app ended enough app-IsDurable refl ended_run all_left (omega arith)
