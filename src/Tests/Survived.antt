-- ===== src/Tests/Survived.antt =====
-- An example of a request that is answered while another waits, up to a restart.
use chat_app_csd.Prelude.{
  ◌≡◌, refl, ap, true, some, [], ◌∷◌, arith, contains, length, total_by, strip,
}
use chat_app_csd.Tests.{packages, app, draw, request}
use chat_app_csd.Tests.Threads.{request2, System0, both_arrive, app-IsDurable}
use chat_app_csd.Db.{start, message_exists, save_message}
use chat_app_csd.Db.Saving.{feed_ids}
use chat_app_csd.Db.Writer.{writer_write, writer_rounds}
use chat_app_csd.Store.{msg_ids}
use chat_app_csd.App.{App, Response, track_response_time}
use chat_app_csd.App.Post.{
  post_message, body_data, accept_message, store_message, sealed_row, read_posted,
}
use chat_app_csd.App.Threads.{Pc, arrived, System, Moves}
use chat_app_csd.App.Threads.Alone.{steps, steps-post_message}
use chat_app_csd.App.Threads.Ends.{remaining, steps-remaining}
use chat_app_csd.App.Threads.Order.{run_first, run_second}
use chat_app_csd.App.Threads.Acknowledged.{acknowledged}
use chat_app_csd.App.Threads.Survived.{acknowledged_survives}
use chat_app_csd.App.Threads.Ends.{remaining}
use chat_app_csd.Value.{get, get_or, ◌or◌, truthy, str}

abbrev first_done : Pc packages × App packages
first_done = steps packages 12 (arrived request draw, app)

abbrev second_done : Pc packages × App packages
second_done = steps packages 12 (arrived request2 draw, first_done.1)

abbrev done : System packages
done = record { app = second_done.1; threads = first_done.0 ∷ second_done.0 ∷ [] }

done_run : Moves packages System0 done
done_run =
    run_second packages 12 System0 first_done.0 (arrived request2 draw) first_done.1
      (run_first packages 12 System0 (arrived request draw) (arrived request2 draw) app both_arrive)

done_left : total_by (remaining packages) done.threads ≡ 0
done_left = omega (
  arith,
  steps-remaining packages 12 (arrived request draw) app,
  steps-remaining packages 12 (arrived request2 draw) first_done.1,
)

abbrev reply : Response
reply = (post_message packages request draw app).0

reply_known : acknowledged reply ≡ some "m-1"
unfolding acknowledged post_message track_response_time body_data accept_message message_exists
    start read_posted strip get get_or ◌or◌ truthy str store_message sealed_row save_message
reply_known = refl

acknowledged_survives_example :
    let rounds = length done.app.db.queue in
    let db = writer_rounds packages.config rounds (writer_write packages.config done.app.db).0 in
    (contains (feed_ids done.app.db.feed) "m-1" ≡ true)
    × (contains (msg_ids db.committed.messages) "m-1" ≡ true)
    × (contains (feed_ids (start db.committed).feed) "m-1" ≡ true)
acknowledged_survives_example =
    acknowledged_survives packages app done (length done.app.db.queue) [] reply (second_done.0 ∷ [])
      "m-1" app-IsDurable refl done_run done_left (omega arith)
      (ap (λ (s : Pc packages × App packages). s.0 ∷ second_done.0 ∷ [])
        (steps-post_message packages request draw app))
      reply_known
