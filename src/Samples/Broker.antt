-- ===== src/Samples/Broker.antt =====
-- A queue of librdkafka in memory: it holds at most three messages, and every call that serves it
-- delivers all that it holds.
use bluesky_trends.Prelude.{
  ℕ, ◌≡◌, refl, Bool, true, false, ◌||◌, Option, none, some, List, [], ◌∷◌, ◌++◌, arith, length,
  leb,
}
use bluesky_trends.Ingest.Kafka.{is_cursor, Message, Report, reports_success, Kafka, Healthy}

pub record Queue : Type 0 where
  pub waiting : List Message
  pub delivered : List Message

abbrev pub new_queue : Queue
new_queue = record { waiting = []; delivered = [] }

abbrev take_in : Bool → Message → Queue → Option Queue
take_in true m q = none
take_in false m q = some (record q { waiting = m ∷ q.waiting })

abbrev reports : List Message → List Report
reports [] = []
reports (m ∷ ms) = (m.on_delivery, true) ∷ reports ms

abbrev has_cursor : ℕ → List Message → Bool
has_cursor c [] = false
has_cursor c (m ∷ ms) = is_cursor c m.on_delivery || has_cursor c ms

abbrev deliver : Queue → Queue
deliver q = record { waiting = []; delivered = q.waiting ++ q.delivered }

pub take_in-waiting :
    (b : Bool) (m : Message) (q q' : Queue)
    → take_in b m q ≡ some q'
    → (q'.waiting ≡ m ∷ q.waiting) × (q'.delivered ≡ q.delivered)
take_in-waiting true m q q' e = absurd (cc)
take_in-waiting false m q q' e = (cc, cc)

has_cursor-append :
    (c : ℕ) (ms ns : List Message) → has_cursor c (ms ++ ns) ≡ (has_cursor c ms || has_cursor c ns)
has_cursor-append c [] ns = refl
has_cursor-append c (m ∷ ms) ns = ground (arith, has_cursor-append c ms ns)

reports_success-reports :
    (c : ℕ) (ms : List Message) → reports_success c (reports ms) ≡ has_cursor c ms
unfolding reports_success
reports_success-reports c [] = refl
reports_success-reports c (m ∷ ms) = ground (arith, reports_success-reports c ms)

pub kept :
    (c : ℕ) (q : Queue)
    → has_cursor c q.delivered ≡ true
    → has_cursor c (deliver q).delivered ≡ true
kept c q s = ground (arith, has_cursor-append c q.waiting q.delivered)

pub reported :
    (c : ℕ) (q : Queue)
    → reports_success c (reports q.waiting) ≡ true
    → has_cursor c (deliver q).delivered ≡ true
reported c q s =
    ground (arith, has_cursor-append c q.waiting q.delivered, reports_success-reports c q.waiting)

abbrev pub broker : Kafka Queue
broker = record {
  offer = λ m q. take_in (leb 3 (length q.waiting)) m q;
  serve = λ t q. (deliver q, reports q.waiting);
  drain = λ t q. (deliver q, reports q.waiting, 0);
  serialize = λ topic d. 0 ∷ [];
  taken = λ q. q.waiting ++ q.delivered;
  stored = λ c q. has_cursor c q.delivered;
  offer_taken = λ m q q' e. (let (w, d) = take_in-waiting _ m q q' e in rw (w, d) refl);
  serve_taken = λ t q. refl;
  drain_taken = λ t q. refl;
  offer_stored = λ c m q q' e s. (let (w, d) = take_in-waiting _ m q q' e in rw d s);
  serve_stored = λ c t q s. kept c q s;
  drain_stored = λ c t q s. kept c q s;
  serve_reports = λ c t q s. reported c q s;
  drain_reports = λ c t q s. reported c q s;
}

pub broker-Healthy : Healthy broker
broker-Healthy = record {
  waiting = λ c q. has_cursor c q.waiting;
  offered = λ c m q q' e s. (let (w, d) = take_in-waiting _ m q q' e in rw w s);
  served = λ c t q s. ground (arith, reports_success-reports c q.waiting);
  drained = λ c t q s. ground (arith, reports_success-reports c q.waiting);
  room_after_poll =
      λ m t q. (record { waiting = m ∷ []; delivered = q.waiting ++ q.delivered }, refl);
}

-- The queue of a new producer: what waited in the old one is gone.
abbrev pub restarted : Queue → Queue
restarted q = record q { waiting = [] }

pub restarted-stored :
    (c : ℕ) (q : Queue) → broker.stored c q ≡ true → broker.stored c (restarted q) ≡ true
restarted-stored c q s = s
