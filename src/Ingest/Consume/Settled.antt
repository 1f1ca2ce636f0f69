-- ===== src/Ingest/Consume/Settled.antt =====
-- What the loop `_consume` of ingest/main.py has registered of the events that arrived.
use bluesky_trends.Prelude.{
  ℕ, ◌≤◌, ◌==◌, ◌≡◌, Bool, true, false, ◌||◌, Option, none, some, List, [], ◌∷◌, arith, inl, inr,
  ◌⊎◌, Bool-cases, if◌then◌else◌,
}
use bluesky_trends.Exceptions.{Result, ok, raised}
use bluesky_trends.Schemas.{Pydantic}
use bluesky_trends.Ingest.Config.{Settings}
use bluesky_trends.Ingest.CursorStore.{CursorStore}
use bluesky_trends.Ingest.Checkpointer.Advance.{above}
use bluesky_trends.Ingest.Checkpointer.Trace.{Call, registered, Newest, Latest, Latest-registered}
use bluesky_trends.Ingest.Checkpointer.Passes.{not_below}
use bluesky_trends.Ingest.Kafka.{Kafka}
use bluesky_trends.Ingest.Producer.{Outbox}
use bluesky_trends.Ingest.Consume.{Printing, Arrival, Session, turn, consume}
use bluesky_trends.Ingest.Consume.Calls.{Newest-of, Latest-of}
use bluesky_trends.Ingest.Consume.Follows.{is_at, taken_cursor, Follows}
use bluesky_trends.Ingest.Consume.Turns.{turn-Grown}
use bluesky_trends.Ingest.Consume.Rising.{rises, next_floor, Rising, arrives, Rising-arrives}

-- Every registered cursor lies at the floor or below it.
abbrev pub Under : Option ℕ → List Call → Type 0
Under floor h = (d : ℕ) → registered d h ≡ true → above floor d ≡ false

pub Under-Latest :
    (floor : Option ℕ) (c : ℕ) (h : List Call)
    → Under floor h
    → not_below floor c ≡ true
    → Latest c h
Under-Latest floor c h u e = Latest-of c h (λ d r. below floor d (u d r) e)
  where
    below : (o : Option ℕ) (d : ℕ) → above o d ≡ false → not_below o c ≡ true → d ≤ c
    below none d x y = absurd (ground arith)
    below (some f) d x y = ground arith

-- A cursor at the floor or above it was registered, or lies above all that were.
Under-reads :
    (floor : Option ℕ) (c : ℕ) (h : List Call)
    → Under floor h
    → not_below floor c ≡ true
    → (registered c h ≡ true) ⊎ Newest c h
Under-reads floor c h u e = elim (Bool-cases (registered c h)) [
  | inl r ↦ inl r
  | inr fresh ↦ inr (
      Newest-of c h (λ d r.
        let le = Latest-registered c d h (Under-Latest floor c h u e) r in
        elim (Bool-cases (d == c)) [
          | inl same ↦ absurd (let e' : d ≡ c = ground arith in let r' = rw e' at r in cc)
          | inr other ↦ ground arith
        ]))
]

pub next_floor-Under :
    (floor o : Option ℕ) (h h' : List Call)
    → rises floor o ≡ true
    → Under floor h
    → ((d : ℕ) → registered d h' ≡ (is_at d o || registered d h))
    → Under (next_floor floor o) h'
next_floor-Under floor none h h' r u same d e = u d (ground (arith, same d))
next_floor-Under none (some c) h h' r u same d e = ground (arith, same d, u d)
next_floor-Under (some f) (some c) h h' r u same d e = ground (arith, same d, u d)

module _ {Queue : Type 0} (kafka : Kafka Queue) (py : Pydantic) (print : Printing)
    (settings : Settings) (now : ℕ) (begin : CursorStore) where
  -- After the loop: what was registered still is, and an event that parses was registered or is
  -- newer than all that were.
  abbrev pub SettledOn : List Call → List Arrival → Outbox Queue → CursorStore → Type 0
  SettledOn h l out store =
      (h' : List Call) × Follows kafka settings now begin h' out store
      × ((c : ℕ) → registered c h ≡ true → registered c h' ≡ true)
      × ((c : ℕ) → arrives py c l ≡ true → (registered c h' ≡ true) ⊎ Newest c h')

  abbrev pub Settled : List Call → List Arrival → Session Queue → Type 0
  Settled h l s = SettledOn h l s.outbox s.store

  -- The events of a list that is not read.
  stop-Settled :
      (floor : Option ℕ) (l : List Arrival) (h : List Call) (s : Session Queue)
      → Rising py floor l
      → Under floor h
      → Follows kafka settings now begin h s.outbox s.store
      → Settled h l s
  stop-Settled floor l h s r u f =
      (h, f, λ c e. e, λ c e. Under-reads floor c h u (Rising-arrives py floor l c r e))

  -- A turn in front of what follows.
  turn-Settled :
      (a : Arrival) (rest : List Arrival) (h h' : List Call) (s : Session Queue)
      → ((d : ℕ) → registered d h' ≡ (is_at d (taken_cursor py a) || registered d h))
      → Settled h' rest s
      → Settled h (a ∷ rest) s
  unfolding arrives
  turn-Settled a rest h h' s same (h'', f, keeps, all) = (
    h'',
    f,
    λ c e. keeps c (ground (arith, same c)),
    λ c e. elim (Bool-cases (is_at c (taken_cursor py a))) [
      | inl here ↦ inl (keeps c (ground (arith, same c)))
      | inr later ↦ all c (ground arith)
    ],
  )

  if-Settled :
      (h : List Call) (l : List Arrival) (stop : Bool) (p q : Result (Unit {0}) × Session Queue)
      → Settled h l p.1
      → Settled h l q.1
      → Settled h l (if stop then p else q).1
  if-Settled h l true p q x y = x
  if-Settled h l false p q x y = y

  next-Settled :
      (h : List Call) (l : List Arrival) (r : Result (Unit {0}))
      (p : Result (Unit {0}) × Session Queue) (s : Session Queue)
      → Settled h l p.1
      → Settled h l s
      → Settled h l
          (elim r as (λ _. Result (Unit {0}) × Session Queue) [
            | ok _ ↦ p
            | raised e ↦ (raised e, s)
          ]).1
  next-Settled h l (ok _) p s x y = x
  next-Settled h l (raised e) p s x y = y

  pub consume-Settled :
      (floor : Option ℕ) (l : List Arrival) (h : List Call) (s : Session Queue)
      → Rising py floor l
      → Under floor h
      → Follows kafka settings now begin h s.outbox s.store
      → Settled h l (consume kafka py print settings l s).1
  unfolding consume
  consume-Settled floor [] h s r u f = stop-Settled floor [] h s r u f
  consume-Settled floor (a ∷ rest) h s r u f =
      let t = turn kafka py print settings a s in
      let (h', f', same) =
        turn-Grown kafka settings now begin py print a h s
          (λ c e. Under-Latest floor c h u (ground (arith, r.0))) f in
      let floor' = next_floor floor (taken_cursor py a) in
      let u' = next_floor-Under floor (taken_cursor py a) h h' r.0 u same in
      if-Settled h (a ∷ rest) a.stop _ _ (stop-Settled floor (a ∷ rest) h s r u f) (
        next-Settled h (a ∷ rest) t.0 (consume kafka py print settings rest t.1) t.1
          (turn-Settled a rest h h' (consume kafka py print settings rest t.1).1 same
            (consume-Settled floor' rest h' t.1 r.1 u' f'))
          (turn-Settled a rest h h' t.1 same (stop-Settled floor' rest h' t.1 r.1 u' f')))
