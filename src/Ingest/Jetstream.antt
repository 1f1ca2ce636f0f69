-- ===== src/Ingest/Jetstream.antt =====
-- ingest/jetstream_client.py: the websocket client with its backoff. A `Connection` is one turn of
-- the `while True`: whether the websocket opens, the events that it brings, and whether the turn
-- ends by an exception, with the reading of `random.random()` then, or by a close.
pub mod Backoff
pub mod Resume
use bluesky_trends.Prelude.{
  ℕ, ◌+◌, ◌-◌, ◌*◌, ◌^◌, min, String, Bool, true, false, Option, none, some, List, [], ◌∷◌, ◌++◌,
  ltb, if◌then◌else◌,
}
use bluesky_trends.Json.{Fields, get, as_int}
use bluesky_trends.Ingest.Config.{Ratio, Settings}

-- `min(initial * power, max)`, in milliseconds, for the power `2 ** attempt`.
abbrev pub base_delay : Settings → ℕ → ℕ
base_delay settings power =
    min (settings.backoff_initial_seconds * power) settings.backoff_max_seconds

-- Python's conversion of an `int` to a float: it rounds to 53 bits, half to even, and raises
-- `OverflowError`, which `none` is, if that is too large for a float. The rounding of the others is
-- left out: it changes no power of two.
unfoldable pub int_to_float : ℕ → Option ℕ
int_to_float n = if ltb n (2 ^ 1024 - 2 ^ 970) then some n else none

-- `max(0.0, base + jitter)`; the subtraction on `ℕ` is the `max`.
abbrev pub jittered : ℕ → Ratio → Ratio → Ratio
jittered base jitter rand = record {
  num =
      (base * jitter.den * rand.den + base * jitter.num * (2 * rand.num))
      - base * jitter.num * rand.den;
  den = jitter.den * rand.den;
}

-- `backoff_delay`, in milliseconds, as a fraction: `initial` is a float, so that `2 ** attempt` is
-- converted to one.
unfoldable pub backoff_delay : ℕ → Settings → Ratio → Option Ratio
unfolding int_to_float
backoff_delay attempt settings rand = elim (int_to_float (2 ^ attempt)) [
  | none ↦ none
  | some power ↦ some (jittered (base_delay settings power) settings.backoff_jitter_ratio rand)
]

-- The parameters of the query of `build_url`.
unfoldable pub collection_params : List String → List (String × String)
collection_params [] = []
collection_params (c ∷ cs) = ("wantedCollections", c) ∷ collection_params cs

-- `build_url` before `urlencode` and `str` make text of it: the parameters and the cursor's.
unfoldable pub build_url : Settings → Option ℕ → String × List (String × String) × Option ℕ
build_url settings cursor =
    (settings.jetstream_url, collection_params settings.wanted_collections, cursor)

pub data End : Type 0 where
  closed : End
  raises : Ratio → End

pub record Connection : Type 0 where
  pub opens : Bool
  pub events : List Fields
  pub ends : End

pub record Client : Type 0 where
  pub attempt : ℕ
  pub latest_cursor : Option ℕ
  -- the connections that were asked for, the events that were yielded and the sleeps, oldest first
  pub requests : List (String × List (String × String) × Option ℕ)
  pub yielded : List Fields
  pub delays : List Ratio

abbrev pub new_client : Option ℕ → Client
new_client cursor = record {
  attempt = 0;
  latest_cursor = cursor;
  requests = [];
  yielded = [];
  delays = [];
}

abbrev pub or_kept : Option ℕ → Option ℕ → Option ℕ
or_kept kept none = kept
or_kept kept (some ts) = some ts

-- One event of the `async for`.
unfoldable pub receive : Fields → Client → Client
receive event c = record c {
  latest_cursor = or_kept c.latest_cursor (as_int (get "time_us" event));
  yielded = c.yielded ++ event ∷ [];
}

unfoldable pub receive_all : List Fields → Client → Client
unfolding receive
receive_all [] c = c
receive_all (event ∷ rest) c = receive_all rest (receive event c)

abbrev pub slept : Option Ratio → Client → Option Client
slept none c = none
slept (some delay) c = some (record c { delays = c.delays ++ delay ∷ []; attempt = c.attempt + 1 })

-- How a turn ends: a close goes on at once, an exception sleeps; an exception of the handler
-- leaves the loop.
abbrev pub finish : Settings → End → Client → Option Client
finish settings closed c = some c
finish settings (raises rand) c = slept (backoff_delay c.attempt settings rand) c

unfoldable pub connect : Settings → Connection → Client → Option Client
unfolding receive_all backoff_delay build_url
connect settings x c =
    let asked = record c { requests = c.requests ++ build_url settings c.latest_cursor ∷ [] } in
    finish settings x.ends
      (if x.opens then receive_all x.events (record asked { attempt = 0 }) else asked)

-- `events`, as far as the connections go.
unfoldable pub events : Settings → List Connection → Client → Option Client
unfolding connect
events settings [] c = some c
events settings (x ∷ rest) c = elim (connect settings x c) [
  | none ↦ none
  | some c' ↦ events settings rest c'
]
