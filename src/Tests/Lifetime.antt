-- ===== src/Tests/Lifetime.antt =====
-- Examples for the start of a process and its life.
use chat_app_csd.Prelude.{
  ◌∙◌, ◌+◌, ◌<◌, ◌≡◌, refl, true, false, none, some, [], ◌∷◌, length, pos, Distinct, arith,
}
use chat_app_csd.Tests.{packages, draw, request, engine}
use chat_app_csd.Store.{empty_store, rows_of, msg_ids}
use chat_app_csd.Value.{truthy}
use chat_app_csd.Integrity.{verify_chain, verify_from}
use chat_app_csd.Integrity.Chain.{all_true}
use chat_app_csd.Db.{start, save_message, queue_max}
use chat_app_csd.Db.Saving.{queue-save_message}
use chat_app_csd.Db.Writer.{writer_take, writer_write}
use chat_app_csd.App.{App, Draw, track_response_time}
use chat_app_csd.App.Answers.{db-sealed_row, db-after_save, handle_induction}
use chat_app_csd.App.Chained.{IsChained, chain_rows}
use chat_app_csd.App.Post.{
  Posted, Request, post_message, store_message, sealed_row, body_data, named,
}
use chat_app_csd.App.Start.{boot, served_ports, settings}
use chat_app_csd.App.Start.Lifetime.{
  Life, born, then_lived, posted, took, wrote, restarted, Life-verified,
}

-- A request leaves the writer's batch alone.
in_flight-store :
    (m : Posted) (draw : Draw) (app : App packages)
    → (store_message packages m draw app).1.db.in_flight ≡ app.db.in_flight
unfolding store_message
in_flight-store m draw app =
    let (row, chained) = sealed_row packages m draw app in
    let (saved, db) = save_message packages.config row chained.db in
    rw
      (
        db-after_save packages m draw saved (record chained { db = db }),
        db-sealed_row packages m draw app,
      )
      (queue-save_message packages.config row app.db).1

in_flight-post :
    (r : Request) (draw : Draw) (app : App packages)
    → (post_message packages r draw app).1.db.in_flight ≡ app.db.in_flight
unfolding post_message track_response_time
in_flight-post r draw app =
    let entered : App packages = record app { active_requests = app.active_requests + 1 } in
    handle_induction packages (λ t. t.db.in_flight ≡ app.db.in_flight) (body_data r) draw entered
      refl (λ m new. in_flight-store (named m draw) draw entered)

abbrev new_process : App packages
new_process = boot packages empty_store

new_process_room : length new_process.db.queue < queue_max
unfolding start boot
new_process_room = omega arith

new_process_idle : new_process.db.in_flight ≡ []
unfolding start boot
new_process_idle = refl

abbrev told : App packages
told = (post_message packages request draw new_process).1

abbrev taken : App packages
taken = record told { db = writer_take told.db }

abbrev stored : App packages
stored = record taken { db = (writer_write packages.config taken.db).0 }

lived : Life packages new_process (boot packages stored.db.committed)
lived = then_lived restarted (
    then_lived wrote (
      then_lived (took (in_flight-post request draw new_process ∙ new_process_idle))
        (then_lived (posted request draw refl new_process_room) born)))

Life-verified_example :
    let after = boot packages stored.db.committed in
    (all_true (
        verify_chain packages.config.repr packages.sha256_hex (rows_of after.db.committed.messages))
      ≡ true)
    × (all_true (verify_chain packages.config.repr packages.sha256_hex (chain_rows after.db))
        ≡ true)
    × Distinct (msg_ids after.db.committed.messages)
    × IsChained packages (boot packages after.db.committed)
Life-verified_example =
    Life-verified packages empty_store _ tt (unfold verify_chain in unfold verify_from in refl)
      lived

port_tests :
    (served_ports (pos 4210) (pos 0) ≡ pos 4210 ∷ [])
    × (served_ports (pos 4210) (pos 4210) ≡ pos 4210 ∷ [])
    × (served_ports (pos 4210) (pos 4211) ≡ pos 4211 ∷ pos 4210 ∷ [])
unfolding served_ports truthy
port_tests = (refl, refl, refl)

setting_tests :
    ((settings engine (λ v. "") none none).is_shared_db_host ≡ false)
    × ((settings engine (λ v. "") none (some "True")).is_shared_db_host ≡ true)
    × ((settings engine (λ v. "") (some "") (some "yes")).is_shared_db_host ≡ false)
unfolding settings
setting_tests = (refl, refl, refl)
