-- ===== src/Ingest/Metrics.antt =====
-- ingest/metrics.py: counters and the time of the last event, in milliseconds. The log line of
-- `log_stats` is the record that it is given.
use bluesky_trends.Prelude.{
  ℕ, ◌+◌, ◌-◌, String, ◌≡◌, refl, Option, none, some, [], ◌∷◌, arith, leb, str_eq, eq_iff,
  if◌then◌else◌,
}
use bluesky_trends.Prelude.StrDict
use bluesky_trends.Prelude.StrDict.{StrDict, lookup-insert}

pub record Metrics : Type 0 where
  pub events : StrDict ℕ
  pub dlq : StrDict ℕ
  pub last_event_ts : Option ℕ

abbrev pub new_metrics : Metrics
new_metrics = record { events = []; dlq = []; last_event_ts = none }

abbrev pub or_zero : Option ℕ → ℕ
or_zero none = 0
or_zero (some n) = n

-- `counter[k]`
unfoldable pub count : String → StrDict ℕ → ℕ
count k counter = or_zero (StrDict.lookup k counter)

-- `counter[k] += 1`
unfoldable pub increment : String → StrDict ℕ → StrDict ℕ
unfolding count
increment k counter = StrDict.insert k (count k counter + 1) counter

-- `sum(counter.values())`
unfoldable pub total : StrDict ℕ → ℕ
total [] = 0
total ((_, n) ∷ d) = n + total d

unfoldable pub record_event : String → ℕ → Metrics → Metrics
record_event collection now m = record m {
  events = increment collection m.events;
  last_event_ts = some now;
}

unfoldable pub record_dlq : String → Metrics → Metrics
record_dlq reason m = record m { dlq = increment reason m.dlq }

-- The age of the last event; the wall clock may have been set back.
pub data Age : Type 0 where
  ago ahead : ℕ → Age

unfoldable pub age : ℕ → ℕ → Age
age now last = if leb last now then ago (now - last) else ahead (last - now)

pub record Stats : Type 0 where
  pub events : StrDict ℕ
  pub events_total : ℕ
  pub dlq : StrDict ℕ
  pub dlq_total : ℕ
  pub last_event_age_s : Option Age

abbrev pub age_at : ℕ → Option ℕ → Option Age
age_at now none = none
age_at now (some last) = some (age now last)

unfoldable pub log_stats : ℕ → Metrics → Stats
unfolding total age
log_stats now m = record {
  events = m.events;
  events_total = total m.events;
  dlq = m.dlq;
  dlq_total = total m.dlq;
  last_event_age_s = age_at now m.last_event_ts;
}

-- One more of a key, and no other count moves.
pub count-increment :
    (j k : String) (d : StrDict ℕ)
    → count j (increment k d) ≡ (if str_eq j k then count j d + 1 else count j d)
unfolding count increment
count-increment j k d = rw lookup-insert (ground (arith, eq_iff j k))

total-insert :
    (k : String) (v : ℕ) (d : StrDict ℕ)
    → total (StrDict.insert k v d) + or_zero (StrDict.lookup k d) ≡ total d + v
unfolding total StrDict.insert StrDict.lookup
total-insert k v [] = omega arith
total-insert k v ((j, n) ∷ d) = ground (arith, total-insert k v d)

total-increment : (k : String) (d : StrDict ℕ) → total (increment k d) ≡ total d + 1
unfolding increment count
total-increment k d = omega (arith, total-insert k (or_zero (StrDict.lookup k d) + 1) d)

-- A recorded event adds one to the count of its collection and to the total of the log line, and
-- leaves the DLQ's counts; a recorded DLQ event does the same the other way round.
pub log_stats-record :
    (k j : String) (now later : ℕ) (m : Metrics)
    → ((log_stats later (record_event k now m)).events_total ≡ (log_stats later m).events_total + 1)
      × ((log_stats later (record_event k now m)).dlq_total ≡ (log_stats later m).dlq_total)
      × ((log_stats later (record_dlq k m)).dlq_total ≡ (log_stats later m).dlq_total + 1)
      × ((log_stats later (record_dlq k m)).events_total ≡ (log_stats later m).events_total)
      × (count j (log_stats later (record_event k now m)).events
          ≡ (if str_eq j k then count j m.events + 1 else count j m.events))
      × (count j (log_stats later (record_dlq k m)).dlq
          ≡ (if str_eq j k then count j m.dlq + 1 else count j m.dlq))
unfolding log_stats record_event record_dlq
log_stats-record k j now later m = (
  total-increment k m.events,
  refl,
  total-increment k m.dlq,
  refl,
  count-increment j k m.events,
  count-increment j k m.dlq,
)
