-- ===== src/Ingest/Consume/ReadsAll.antt =====
-- The loop of ingest/main.py when no delivery fails, Postgres takes the statements and nothing stops
-- it: the cursors that it registers, and what the `finally` of `run` stores after it.
use bluesky_trends.Prelude.{
  ℕ, ◌≡◌, refl, Bool, true, false, not, ◌&&◌, ◌||◌, Option, none, some, List, [], ◌∷◌, inl, inr,
  ◌⊎◌, ◌∙◌, sym, Bool-cases, arith, if◌then◌else◌,
}
use bluesky_trends.Exceptions.{Result, ok}
use bluesky_trends.Schemas.{Pydantic}
use bluesky_trends.Ingest.Config.{Settings}
use bluesky_trends.Ingest.CursorStore.{CursorStore, load}
use bluesky_trends.Ingest.Checkpointer.Trace
use bluesky_trends.Ingest.Checkpointer.Trace.{Call, shutdown, registered, acked, InOrder}
use bluesky_trends.Ingest.Checkpointer.Resume.{run-Stored}
use bluesky_trends.Ingest.Checkpointer.Shutdown.{NoneWaits, idle_reaches, shutdown_saves-Last}
use bluesky_trends.Ingest.Checkpointer.Replay.{run-Covers}
use bluesky_trends.Ingest.Kafka.{Kafka, Healthy}
use bluesky_trends.Ingest.Consume.{Printing, Arrival, Session, turn, consume, drain_session}
use bluesky_trends.Ingest.Checkpointer.{unsaved, final_save, final_save_or_raise}
use bluesky_trends.Ingest.Producer.{Outbox, flush}
use bluesky_trends.Ingest.Consume.Calls.{
  after_reports, registered-after_reports, run_callbacks-waits,
}
use bluesky_trends.Ingest.Consume.Follows.{is_at, taken_cursor, Follows, flush-Follows}
use bluesky_trends.Ingest.Consume.Turns.{turn-Grown}
use bluesky_trends.Ingest.Consume.Rising.{Rising, arrives, next_floor}
use bluesky_trends.Ingest.Consume.Settled.{Under, Under-Latest, next_floor-Under}
use bluesky_trends.Ingest.Consume.Completes.{turn_completes}

-- No turn of the loop is stopped, and Postgres takes the statement of every save.
abbrev pub undisturbed : List Arrival → Bool
undisturbed [] = true
undisturbed (a ∷ rest) = not a.stop && (a.saves && undisturbed rest)

-- The cursor of the last event that parses, or `floor` if there is none.
abbrev pub final_cursor : Pydantic → Option ℕ → List Arrival → Option ℕ
final_cursor py floor [] = floor
final_cursor py floor (a ∷ rest) = final_cursor py (next_floor floor (taken_cursor py a)) rest

-- The final cursor is registered, or nothing was.
abbrev pub Reaches : Option ℕ → Option ℕ → List Call → List Call → Type 0
Reaches floor final h h' =
    ((final ≡ floor) × ((d : ℕ) → registered d h' ≡ registered d h))
    ⊎ ((c : ℕ) × (final ≡ some c) × (registered c h' ≡ true))

turn-Reaches :
    (floor o final : Option ℕ) (h h' h'' : List Call)
    → ((d : ℕ) → registered d h' ≡ (is_at d o || registered d h))
    → Reaches (next_floor floor o) final h' h''
    → Reaches floor final h h''
turn-Reaches floor o final h h' h'' same (inr reached) = inr reached
turn-Reaches floor none final h h' h'' same (inl (e, still)) = inl (e, λ d. still d ∙ same d)
turn-Reaches floor (some c) final h h' h'' same (inl (e, still)) =
    inr (c, e, ground (arith, still c, same c))

module _ {Queue : Type 0} (kafka : Kafka Queue) (healthy : Healthy kafka) (py : Pydantic)
    (print : Printing) (settings : Settings) (now : ℕ) (begin : CursorStore) where
  -- The loop has read all events.
  abbrev pub CaughtUp :
      Option ℕ → List Arrival → List Call → Result (Unit {0}) × Session Queue → Type 0
  CaughtUp floor l h (r, s) =
      (r ≡ ok tt)
      × (h' : List Call) × Follows kafka settings now begin h' s.outbox s.store
      × Under (final_cursor py floor l) h'
      × Reaches floor (final_cursor py floor l) h h'
      × ((c : ℕ) → registered c h ≡ true → registered c h' ≡ true)
      × ((c : ℕ) → arrives py c l ≡ true → registered c h' ≡ true)

  consume-turn :
      (a : Arrival) (rest : List Arrival) (s : Session Queue)
      → a.stop ≡ false
      → (turn kafka py print settings a s).0 ≡ ok tt
      → consume kafka py print settings (a ∷ rest) s
        ≡ consume kafka py print settings rest (turn kafka py print settings a s).1
  unfolding consume
  consume-turn a rest s goes done = if_false a.stop _ _ goes ∙ rw done refl
    where
      if_false : {A : Type 0} → (b : Bool) (x y : A) → b ≡ false → (if b then x else y) ≡ y
      if_false true x y e = absurd (cc)
      if_false false x y e = refl

  pub consume-CaughtUp :
      (floor : Option ℕ) (l : List Arrival) (h : List Call) (s : Session Queue)
      → Rising py floor l
      → undisturbed l ≡ true
      → Under floor h
      → Follows kafka settings now begin h s.outbox s.store
      → CaughtUp floor l h (consume kafka py print settings l s)
  consume-CaughtUp floor [] h s r calm u f =
      unfold consume arrives in
      (refl, h, f, u, inl (refl, λ d. refl), λ c e. e, λ c e. absurd (ground arith))
  consume-CaughtUp floor (a ∷ rest) h s r calm u f =
      let o = taken_cursor py a in
      let goes : a.stop ≡ false = ground arith in
      let done = turn_completes kafka healthy py print settings a s (ground arith) in
      let (h', f', same) =
        turn-Grown kafka settings now begin py print a h s
          (λ c e. Under-Latest floor c h u (ground (arith, r.0))) f in
      let (ends, h'', f'', u'', reached, keeps, all) =
        consume-CaughtUp (next_floor floor o) rest h' (turn kafka py print settings a s).1 r.1
          (ground arith) (next_floor-Under floor o h h' r.0 u same) f' in
      rw (consume-turn a rest s goes done) (
        ends,
        h'',
        f'',
        u'',
        turn-Reaches floor o _ h h' h'' same reached,
        λ c e. keeps c (ground (arith, same c)),
        λ c e. elim (Bool-cases (is_at c o)) [
          | inl here ↦ keeps c (ground (arith, same c))
          | inr later ↦ all c (unfold arrives in ground arith)
        ],
      )

  drain_session-store :
      (wall : ℕ) (s : Session Queue)
      → (drain_session kafka py print settings wall true s).1.store
        ≡ (final_save settings ((flush kafka 30000 s.outbox).0.checkpointer, s.store)).1
  unfolding drain_session final_save_or_raise
  drain_session-store wall s =
      elim (Bool-cases (unsaved (flush kafka 30000 s.outbox).0.checkpointer && false)) [
        | inl fails ↦ absurd (ground arith)
        | inr goes ↦ rw goes refl
      ]

  ended-store :
      (h : List Call) (out : Outbox Queue) (store : CursorStore)
      → Follows kafka settings now begin h out store
      → (Trace.run settings now begin (shutdown ∷ h)).1
        ≡ (final_save settings (out.checkpointer, store)).1
  unfolding Trace.run
  ended-store h out store f = rw f.state refl

  nothing :
      (c : ℕ) (h : List Call)
      → registered c h ≡ registered c []
      → registered c (shutdown ∷ h) ≡ true
      → ⊥
  unfolding registered
  nothing c h same r = ground arith

  idle :
      (h : List Call) (s : Session Queue)
      → Follows kafka settings now begin h s.outbox s.store
      → NoneWaits
          (Trace.run settings now begin
            (after_reports (kafka.drain 30000 s.outbox.queue).1 h)).0.pending_acks
  unfolding flush
  idle h s f d e =
      let f' = flush-Follows kafka settings now begin 30000 h s.outbox s.store f in
      let e' = rw f'.state at e in
      let (was, unreported) =
        run_callbacks-waits d (kafka.drain 30000 s.outbox.queue).1 s.outbox.checkpointer e' in
      ground (arith, f.live healthy d was, healthy.drained d 30000 s.outbox.queue)

  -- What the save at shutdown leaves in the store, after a flush that delivers all that waits.
  pub drain_session_stores :
      (wall : ℕ) (final : Option ℕ) (h : List Call) (s : Session Queue)
      → Follows kafka settings now begin h s.outbox s.store
      → Under final h
      → Reaches (load settings.stream_name begin) final [] h
      → load settings.stream_name (drain_session kafka py print settings wall true s).1.store
        ≡ final
  drain_session_stores wall final h s f u reached =
      let (queue, rs, left) = kafka.drain 30000 s.outbox.queue in
      let h' = after_reports rs h in
      let f' = flush-Follows kafka settings now begin 30000 h s.outbox s.store f in
      rw (drain_session-store wall s, ← ended-store h' (flush kafka 30000 s.outbox).0 s.store f')
        (elim reached [
          | inl (e, still) ↦ elim (run-Stored settings now begin (shutdown ∷ h') f'.in_order) [
            | inl (_, row) ↦ row ∙ sym e
            | inr (m, _, _, r, _) ↦
                absurd (nothing m h' (registered-after_reports m rs h ∙ still m) r)
          ]
          | inr (c, e, r) ↦ rw e (
              shutdown_saves-Last settings now begin h' f'.in_order (idle h s f) c
                (ground (arith, registered-after_reports c rs h))
                (λ d r'. ground (arith, registered-after_reports d rs h, u d)))
        ])

  drain_session-queue :
      (wall : ℕ) (s : Session Queue)
      → (drain_session kafka py print settings wall true s).1.outbox.queue
        ≡ (flush kafka 30000 s.outbox).0.queue
  unfolding drain_session final_save_or_raise
  drain_session-queue wall s =
      elim (Bool-cases (unsaved (flush kafka 30000 s.outbox).0.checkpointer && false)) [
        | inl fails ↦ absurd (ground arith)
        | inr goes ↦ rw goes refl
      ]

  -- Every registered cursor is with the broker then.
  pub drain_session_delivers :
      (wall : ℕ) (h : List Call) (s : Session Queue) (c : ℕ)
      → Follows kafka settings now begin h s.outbox s.store
      → registered c h ≡ true
      → kafka.stored c (drain_session kafka py print settings wall true s).1.outbox.queue ≡ true
  drain_session_delivers wall h s c f r =
      let rs = (kafka.drain 30000 s.outbox.queue).1 in
      let h' = after_reports rs h in
      let f' = flush-Follows kafka settings now begin 30000 h s.outbox s.store f in
      let r' : registered c h' ≡ true = ground (arith, registered-after_reports c rs h) in
      let low = idle_reaches settings now begin h' f'.in_order (idle h s f) c r' in
      let done = (run-Covers settings now begin h' f'.in_order).folded c r' low in
      rw drain_session-queue (f'.stored c done)
