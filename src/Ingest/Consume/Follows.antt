-- ===== src/Ingest/Consume/Follows.antt =====
-- The steps of the ingest loop in ingest/main.py against histories of calls of the checkpointer, and
-- against what the broker has.
use bluesky_trends.Prelude.{
  ℕ, ◌≡◌, refl, Bool, true, false, ◌||◌, Option, none, some, List, arith, ◌==◌, ◌∙◌,
}
use bluesky_trends.Exceptions.{Result, ok, raised}
use bluesky_trends.Json.{Value, get, as_int}
use bluesky_trends.Schemas.{Pydantic}
use bluesky_trends.Ingest.Parse.{Event, to_model}
use bluesky_trends.Prelude.Dict.{lookup}
use bluesky_trends.Ingest.Config.{Settings}
use bluesky_trends.Ingest.CursorStore.{CursorStore}
use bluesky_trends.Ingest.Checkpointer.Trace
use bluesky_trends.Ingest.Checkpointer.Trace.{
  Call, produced, delivered, checkpoint, shutdown, registered, acked, Newest, NeverFalls,
}
use bluesky_trends.Ingest.Kafka.{Report, reports_success, Kafka, Healthy}
use bluesky_trends.Ingest.Producer.{Outbox, run_callbacks, poll, flush}
use bluesky_trends.Ingest.Consume.{Arrival}
use bluesky_trends.Ingest.Consume.Calls.{
  after_reports, registered-after_reports, after_reports-NeverFalls, acked-after_reports,
  run_callbacks-waits, run-after_reports,
}

abbrev pub is_at : ℕ → Option ℕ → Bool
is_at c none = false
is_at c (some d) = c == d

-- The cursor with which a parsed event is produced, if it has one.
abbrev pub cursor_of : Result Event → Value → Option ℕ
cursor_of (ok _) v = as_int v
cursor_of (raised _) v = none

abbrev pub taken_cursor : Pydantic → Arrival → Option ℕ
taken_cursor py a = cursor_of (to_model py a.event) (get "time_us" a.event)

module _ {Queue : Type 0} (kafka : Kafka Queue) (settings : Settings) (now : ℕ)
    (begin : CursorStore) where
  -- The checkpointer and the store are those after the calls of `h`. With a healthy librdkafka each
  -- pending cursor but `x` was acked, or its message waits.
  pub record FollowsBut (x : Option ℕ) (h : List Call) (out : Outbox Queue) (store : CursorStore)
      : Type 0 where
    pub in_order : NeverFalls h
    pub state : Trace.run settings now begin h ≡ (out.checkpointer, store)
    pub stored : (c : ℕ) → acked c h ≡ true → kafka.stored c out.queue ≡ true
    pub live :
        (w : Healthy kafka) (c : ℕ)
        → lookup c out.checkpointer.pending_acks ≡ some false
        → (is_at c x || w.waiting c out.queue) ≡ true

  abbrev pub Follows : List Call → Outbox Queue → CursorStore → Type 0
  Follows h out store = FollowsBut none h out store

  -- They are those after some calls that register what `h` registers, and `at` if it is there.
  abbrev pub Grown : Option ℕ → List Call → Outbox Queue → CursorStore → Type 0
  Grown at h out store =
      (h' : List Call) × Follows h' out store
      × ((c : ℕ) → registered c h' ≡ (is_at c at || registered c h))

  pub reports-Follows :
      (x : Option ℕ) (queue : Queue) (rs : List Report) (h : List Call) (out : Outbox Queue)
      (store : CursorStore)
      → ((c : ℕ) → kafka.stored c out.queue ≡ true → kafka.stored c queue ≡ true)
      → ((c : ℕ) → reports_success c rs ≡ true → kafka.stored c queue ≡ true)
      → ((w : Healthy kafka) (c : ℕ)
          → w.waiting c out.queue ≡ true
          → (reports_success c rs || w.waiting c queue) ≡ true)
      → FollowsBut x h out store
      → FollowsBut x
          (after_reports rs h)
          (record { queue = queue; checkpointer = run_callbacks rs out.checkpointer })
          store
  reports-Follows x queue rs h out store keeps reported waits f = record {
    in_order = after_reports-NeverFalls rs h f.in_order;
    state = rw (run-after_reports, f.state) refl;
    stored = λ c a. ground (arith, acked-after_reports c rs h a, f.stored c, keeps c, reported c);
    live = λ w c e.
        (let (e', unreported) = run_callbacks-waits c rs out.checkpointer e in
          ground (arith, f.live w c e', waits w c));
  }

  pub poll-Follows :
      (x : Option ℕ) (t : ℕ) (h : List Call) (out : Outbox Queue) (store : CursorStore)
      → FollowsBut x h out store
      → FollowsBut x (after_reports (kafka.serve t out.queue).1 h) (poll kafka t out) store
  unfolding poll
  poll-Follows x t h out store f =
      let (queue, rs) = kafka.serve t out.queue in
      reports-Follows x queue rs h out store (λ c. kafka.serve_stored c t out.queue)
        (λ c. kafka.serve_reports c t out.queue) (λ w c. w.served c t out.queue) f

  pub flush-Follows :
      (t : ℕ) (h : List Call) (out : Outbox Queue) (store : CursorStore)
      → Follows h out store
      → Follows (after_reports (kafka.drain t out.queue).1 h) (flush kafka t out).0 store
  unfolding flush
  flush-Follows t h out store f =
      let (queue, rs, left) = kafka.drain t out.queue in
      reports-Follows none queue rs h out store (λ c. kafka.drain_stored c t out.queue)
        (λ c. kafka.drain_reports c t out.queue)
        (λ w c waits. ground (arith, w.drained c t out.queue waits)) f

  pub poll-Grown :
      (t : ℕ) (h : List Call) (out : Outbox Queue) (store : CursorStore)
      → Follows h out store
      → Grown none h (poll kafka t out) store
  poll-Grown t h out store f = (
    after_reports (kafka.serve t out.queue).1 h,
    poll-Follows none t h out store f,
    λ c. registered-after_reports c (kafka.serve t out.queue).1 h,
  )

  pub Grown-trans :
      (at : Option ℕ) (h h' : List Call) (out : Outbox Queue) (store : CursorStore)
      → ((c : ℕ) → registered c h' ≡ (is_at c at || registered c h))
      → Grown none h' out store
      → Grown at h out store
  Grown-trans at h h' out store same (h'', f, same') = (h'', f, λ c. same' c ∙ same c)
