-- ===== src/Ingest/Consume/Produces.antt =====
-- The producer's methods in the ingest loop of ingest/main.py against histories of calls of the
-- checkpointer: what is produced waits in the queue until its delivery is reported.
use bluesky_trends.Prelude.{
  false, ℕ, zero, suc, ◌≡◌, refl, true, Option, none, some, List, ◌∷◌, arith, inl, inr,
  Option-cases, String,
}
use bluesky_trends.Exceptions.{Result, ok, raised, Exception}
use bluesky_trends.Ingest.Parse.{Event}
use bluesky_trends.Prelude.Dict.{lookup-set_default}
use bluesky_trends.Ingest.Config.{Settings}
use bluesky_trends.Ingest.CursorStore.{CursorStore}
use bluesky_trends.Ingest.Metrics.{Metrics}
use bluesky_trends.Ingest.Checkpointer.{register}
use bluesky_trends.Ingest.Checkpointer.Trace
use bluesky_trends.Ingest.Checkpointer.Trace.{
  Call, produced, delivered, checkpoint, shutdown, registered, acked, Latest, InOrder,
}
use bluesky_trends.Ingest.Kafka.{Message, Kafka, Healthy, is_cursor}
use bluesky_trends.Ingest.Producer.{
  Outbox, poll, attempts, enqueue, event_message, produce, produce_dlq,
}
use bluesky_trends.Ingest.Consume.{Session, with_outbox}
use bluesky_trends.Ingest.Consume.Calls.{after_reports, registered-after_reports}
use bluesky_trends.Ingest.Consume.Follows.{
  is_at, FollowsBut, Follows, Grown, poll-Follows, Grown-trans,
}

module _ {Queue : Type 0} (kafka : Kafka Queue) where
  -- With a healthy librdkafka the attempts do not end with `BufferError`.
  abbrev pub Ends : Result (Unit {0}) → Type 0
  Ends r = Healthy kafka → r ≡ ok tt

  pub attempts-Ends :
      (n : ℕ) (m : Message) (out : Outbox Queue) → Ends (attempts kafka (suc n) m out).0
  unfolding attempts poll
  attempts-Ends n m out w = elim (Option-cases (kafka.offer m out.queue)) [
    | inr (q, room) ↦ rw (room, attempts) refl
    | inl full ↦ rw (full, attempts) (polled n)
  ]
    where
      polled : (n : ℕ) → (attempts kafka n m (poll kafka 500 out)).0 ≡ ok tt
      polled zero = let (q, room) = w.room_after_poll m 500 out.queue in rw (room, attempts) refl
      polled (suc n) = let (q, room) = w.room_after_poll m 500 out.queue in rw (room, attempts) refl

module _ {Queue : Type 0} (kafka : Kafka Queue) (settings : Settings) (now : ℕ)
    (begin : CursorStore) where
  -- The message that is handed over is that of the cursor `x`.
  abbrev Bears : Message → Option ℕ → Type 0
  Bears m x = (c : ℕ) → is_at c x ≡ true → is_cursor c m.on_delivery ≡ true

  offer-Follows :
      (x : Option ℕ) (m : Message) (q : Queue) (h : List Call) (out : Outbox Queue)
      (store : CursorStore)
      → Bears m x
      → kafka.offer m out.queue ≡ some q
      → FollowsBut kafka settings now begin x h out store
      → Follows kafka settings now begin h (record out { queue = q }) store
  offer-Follows x m q h out store bears room f = record {
    in_order = f.in_order;
    state = f.state;
    stored = λ c a. kafka.offer_stored c m out.queue q room (f.stored c a);
    live = λ w c r. ground (arith, f.live w c r, bears c, w.offered c m out.queue q room);
  }

  refused-Follows :
      (x : Option ℕ) (e : Exception) (h : List Call) (out : Outbox Queue) (store : CursorStore)
      → Ends kafka (raised e)
      → FollowsBut kafka settings now begin x h out store
      → Follows kafka settings now begin h out store
  refused-Follows x e h out store ends f = record {
    in_order = f.in_order;
    state = f.state;
    stored = f.stored;
    live = λ w c r. (let fails = ends w in absurd (cc));
  }

  attempts-Grown :
      (x : Option ℕ) (n : ℕ) (m : Message) (h : List Call) (out : Outbox Queue)
      (store : CursorStore)
      → Bears m x
      → Ends kafka (attempts kafka n m out).0
      → FollowsBut kafka settings now begin x h out store
      → Grown kafka settings now begin none h (attempts kafka n m out).1 store
  unfolding attempts
  attempts-Grown x zero m h out store b ends f = elim (Option-cases (kafka.offer m out.queue)) [
    | inl full ↦
        rw (full, attempts)
          (h, refused-Follows x _ h out store (rw (full, attempts) at ends) f, λ c. refl)
    | inr (q, room) ↦ rw (room, attempts) (h, offer-Follows x m q h out store b room f, λ c. refl)
  ]
  attempts-Grown x (suc n) m h out store b ends f = elim (Option-cases (kafka.offer m out.queue)) [
    | inl full ↦
        let rs = (kafka.serve 500 out.queue).1 in
        rw (full, attempts)
          (Grown-trans kafka settings now begin none h (after_reports rs h) _ store
            (λ c. registered-after_reports c rs h)
            (attempts-Grown x n m (after_reports rs h) (poll kafka 500 out) store b
              (rw (full, attempts) at ends)
              (poll-Follows kafka settings now begin x 500 h out store f)))
    | inr (q, room) ↦ rw (room, attempts) (h, offer-Follows x m q h out store b room f, λ c. refl)
  ]

  pub produce-Grown :
      (model : Event) (c : ℕ) (h : List Call) (out : Outbox Queue) (store : CursorStore)
      → Latest c h
      → Follows kafka settings now begin h out store
      → Grown kafka settings now begin
          (some c)
          h
          (produce kafka settings model c
            (record out { checkpointer = register c out.checkpointer })).1
          store
  unfolding produce enqueue
  produce-Grown model c h out store n f =
      let begun : FollowsBut kafka settings now begin (some c) (produced c ∷ h)
          (record out { checkpointer = register c out.checkpointer }) store =
        record {
          in_order = (n, f.in_order);
          state = unfold Trace.run in rw f.state refl;
          stored = unfold acked in f.stored;
          live =
              unfold register in
              λ w d e.
                ground
                  (arith, lookup-set_default d c false out.checkpointer.pending_acks, f.live w d);
        } in
      Grown-trans kafka settings now begin (some c) h (produced c ∷ h) _ store
        (λ d. unfold registered in refl)
        (attempts-Grown (some c) 5 (event_message kafka settings model c) (produced c ∷ h) _ store
          (λ d e. e) (attempts-Ends kafka 4 _ _) begun)

  pub produce_dlq-Grown :
      (raw error topic : String) (wall : ℕ) (h : List Call) (out : Outbox Queue)
      (store : CursorStore)
      → Follows kafka settings now begin h out store
      → Grown kafka settings now begin none h
          (produce_dlq kafka settings raw error topic wall out).1
          store
  unfolding produce_dlq enqueue
  produce_dlq-Grown raw error topic wall h out store f =
      attempts-Grown none 5 _ h out store (λ d e. absurd (cc)) (attempts-Ends kafka 4 _ _) f

  pub with_outbox-Grown :
      (at : Option ℕ) (f : Metrics → Metrics) (h : List Call) (s : Session Queue)
      (p : Result (Unit {0}) × Outbox Queue)
      → Grown kafka settings now begin at h p.1 s.store
      → let s' = (with_outbox f s p).1 in Grown kafka settings now begin at h s'.outbox s'.store
  with_outbox-Grown at f h s (ok _, out) g = g
  with_outbox-Grown at f h s (raised e, out) g = g
