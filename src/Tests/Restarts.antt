-- ===== src/Tests/Restarts.antt =====
-- The ingest service over two processes, the first of which is killed, and its delivery callbacks in
-- two orders.
use mathlib.Core.List.{Perm, Permᴰ}
use bluesky_trends.Prelude.{
  ℕ, ◌≡◌, refl, true, Option, none, some, List, [], ◌∷◌, arith, inr, ltb, if◌then◌else◌, Bool-cases,
  inl, false,
}
use bluesky_trends.Prelude.Dict.{lookup}
use bluesky_trends.Prelude.StrDict
use bluesky_trends.Ingest.CursorStore.{load}
use bluesky_trends.Json.{get, find}
use bluesky_trends.Ingest.Config.{default_settings}
use bluesky_trends.Ingest.Checkpointer.Advance.{above}
use bluesky_trends.Ingest.Checkpointer.Trace
use bluesky_trends.Ingest.Checkpointer.Trace.{Call, produced, delivered, InOrder}
use bluesky_trends.Ingest.Checkpointer.Ledger.{prefix_end, ledger, run-refines}
use bluesky_trends.Ingest.Parse.{reply, by_collection, to_post, to_model}
use bluesky_trends.Ingest.Kafka.{cursor_acked, Report}
use bluesky_trends.Ingest.Producer.{run_callbacks}
use bluesky_trends.Ingest.Producer.Order.{run_callbacks-perm}
use bluesky_trends.Ingest.Consume.{Arrival}
use bluesky_trends.Ingest.Consume.Rising.{Rising, arrives}
use bluesky_trends.Ingest.Consume.Killed.{Moment, before_poll}
use bluesky_trends.Ingest.Consume.Restarts.{
  Process, Ending, drained, killed, Replays, Kept, run_processes, run_processes_no_loss,
}
use bluesky_trends.Samples.{pydantic, printing, post_event, arrival, empty_store}
use bluesky_trends.Samples.Broker.{new_queue, broker, restarted, restarted-stored}

abbrev first_post : Arrival
first_post = arrival (post_event 5) 1

abbrev last_post : Arrival
last_post = arrival (post_event 8) 3

abbrev replayed : Option ℕ → List Arrival
replayed none = first_post ∷ last_post ∷ []
replayed (some from) = if ltb from 8 then last_post ∷ [] else []

abbrev process : Ending → Process
process ending = record { started = 0; arrivals = replayed; ending = ending }

rising : (from : Option ℕ) → Rising pydantic none (replayed from)
unfolding to_model get find by_collection to_post reply
rising none = (refl, (refl, tt))
rising (some from) = elim (Bool-cases (ltb from 8)) [
  | inl below ↦ rw below (refl, tt)
  | inr reached ↦ rw reached tt
]

complete : (from : Option ℕ) → above from 8 ≡ true → arrives pydantic 8 (replayed from) ≡ true
unfolding arrives to_model get find by_collection to_post reply
complete none up = refl
complete (some from) up = rw up refl

replays : (ending : Ending) → Replays broker pydantic printing default_settings 8 (process ending)
replays ending = record { rising = rising; complete = complete }

fresh : above (load default_settings.stream_name empty_store) 8 ≡ true
unfolding load StrDict.lookup
fresh = refl

-- Killed when the second event has been handed over, and before the poll.
abbrev in_turn : Moment
in_turn = before_poll (arrival (post_event 8) 2)

run_processes_no_loss_example : Kept broker pydantic printing default_settings 8 (
    run_processes broker pydantic printing default_settings restarted
      (process (killed in_turn) ∷ process (drained 9 false) ∷ [])
      (new_queue, empty_store))
run_processes_no_loss_example =
    run_processes_no_loss broker pydantic printing default_settings restarted restarted-stored 8
      (process (killed in_turn) ∷ process (drained 9 false) ∷ []) new_queue empty_store
      (replays (killed in_turn), (replays (drained 9 false), tt)) (inr fresh)

-- Two cursors that were produced, the second of which was acked first.
abbrev history : List Call
history = delivered true 8 ∷ produced 8 ∷ produced 5 ∷ []

in_order : InOrder history
in_order = ((omega arith, tt), (tt, tt))

run-refines_example :
    (Trace.run default_settings 0 empty_store history).0.safe_cursor ≡ prefix_end (ledger history)
run-refines_example = run-refines default_settings 0 empty_store history in_order

abbrev reports : List Report
reports = (cursor_acked 5, true) ∷ (cursor_acked 8, true) ∷ []

abbrev reports_swapped : List Report
reports_swapped = (cursor_acked 8, true) ∷ (cursor_acked 5, true) ∷ []

swapped : Perm reports reports_swapped
swapped = ∣ Permᴰ.swap refl refl ∣₁

abbrev outstanding : List Call
outstanding = produced 8 ∷ produced 5 ∷ []

run_callbacks-perm_example :
    let cp = (Trace.run default_settings 0 empty_store outstanding).0 in
    ((run_callbacks reports cp).safe_cursor ≡ (run_callbacks reports_swapped cp).safe_cursor)
    × ((c : ℕ)
        → lookup c (run_callbacks reports cp).pending_acks
          ≡ lookup c (run_callbacks reports_swapped cp).pending_acks)
run_callbacks-perm_example =
    run_callbacks-perm default_settings 0 empty_store outstanding ((omega arith, tt), (tt, tt))
      swapped
