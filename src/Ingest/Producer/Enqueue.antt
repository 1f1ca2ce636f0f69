-- ===== src/Ingest/Producer/Enqueue.antt =====
-- `_enqueue` of ingest/producer.py: the message and the attempts to hand it over.
use bluesky_trends.Prelude.{
  ℕ, zero, suc, ◌≡◌, refl, ap, none, List, ◌∷◌, ◌⊎◌, inl, inr, Option-cases, ◌∙◌,
}
use bluesky_trends.Exceptions.{Result, ok, raised, buffer_error}
use bluesky_trends.Ingest.Kafka.{Message, Kafka}
use bluesky_trends.Ingest.Producer.{Outbox, poll, attempts, enqueue}

module _ {Queue : Type 0} (kafka : Kafka Queue) where
  open kafka use {offer, serve, taken}

  taken-poll : (t : ℕ) (out : Outbox Queue) → taken (poll kafka t out).queue ≡ taken out.queue
  unfolding poll
  taken-poll t out = kafka.serve_taken t out.queue

  queue-poll : (t : ℕ) (out : Outbox Queue) → (poll kafka t out).queue ≡ (serve t out.queue).0
  unfolding poll
  queue-poll t out = refl

  -- The queue refuses the message at once and after each of the next `n` polls.
  unfoldable pub Refused : ℕ → Message → Queue → Type 0
  Refused zero m q = offer m q ≡ none
  Refused (suc n) m q = (offer m q ≡ none) × Refused n m (serve 500 q).0

  Refused-zero : (m : Message) (q : Queue) → offer m q ≡ none → Refused zero m q
  unfolding Refused
  Refused-zero m q full = full

  -- The message was handed over once; or `BufferError` was raised, nothing was handed over, and
  -- every one of the `n + 1` attempts had been refused.
  abbrev pub Once : ℕ → Message → Outbox Queue → Result (Unit {0}) × Outbox Queue → Type 0
  Once n m out (r, out') =
      ((r ≡ ok tt) × (taken out'.queue ≡ m ∷ taken out.queue))
      ⊎ ((r ≡ raised buffer_error) × (taken out'.queue ≡ taken out.queue) × Refused n m out.queue)

  Once-suc :
      (n : ℕ) (m : Message) (out : Outbox Queue) (r : Result (Unit {0}) × Outbox Queue)
      → offer m out.queue ≡ none
      → Once n m (poll kafka 500 out) r
      → Once (suc n) m out r
  unfolding Refused
  Once-suc n m out r full (inl (done, held)) =
      inl (done, held ∙ ap (λ (l : List Message). m ∷ l) (taken-poll 500 out))
  Once-suc n m out r full (inr (fail, held, refused)) =
      inr (fail, held ∙ taken-poll 500 out, (full, unfold poll in refused))

  attempts-Once : (n : ℕ) (m : Message) (out : Outbox Queue) → Once n m out (attempts kafka n m out)
  unfolding attempts
  attempts-Once zero m out = elim (Option-cases (offer m out.queue)) [
    | inl full ↦ rw (full, attempts) (inr (refl, refl, Refused-zero m out.queue full))
    | inr (q, room) ↦ rw (room, attempts) (inl (refl, kafka.offer_taken m out.queue q room))
  ]
  attempts-Once (suc n) m out = elim (Option-cases (offer m out.queue)) [
    | inl full ↦
        rw (full, attempts)
          (Once-suc n m out (attempts kafka n m (poll kafka 500 out)) full
            (attempts-Once n m (poll kafka 500 out)))
    | inr (q, room) ↦ rw (room, attempts) (inl (refl, kafka.offer_taken m out.queue q room))
  ]

  -- `_enqueue` hands the message to librdkafka exactly once; or it raises `BufferError` with
  -- nothing handed over, and then the queue was full at all six attempts, a poll apart.
  pub enqueue-Once : (m : Message) (out : Outbox Queue) → Once 5 m out (enqueue kafka m out)
  unfolding enqueue
  enqueue-Once m out = attempts-Once 5 m out
