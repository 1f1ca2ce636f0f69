-- ===== src/Ingest/Consume/Rising.antt =====
-- The order in which events come to the loop of ingest/main.py.
use bluesky_trends.Prelude.{
  ℕ, ◌≡◌, refl, Bool, true, false, ◌||◌, Option, none, some, List, [], ◌∷◌, arith, inl, inr,
  Bool-cases,
}
use bluesky_trends.Schemas.{Pydantic}
use bluesky_trends.Ingest.Checkpointer.Passes.{not_below}
use bluesky_trends.Ingest.Consume.{Arrival}
use bluesky_trends.Ingest.Consume.Follows.{is_at, taken_cursor}

-- The cursor, if there is one, does not lie below the floor.
abbrev pub rises : Option ℕ → Option ℕ → Bool
rises floor none = true
rises floor (some c) = not_below floor c

abbrev pub next_floor : Option ℕ → Option ℕ → Option ℕ
next_floor floor none = floor
next_floor floor (some c) = some c

-- The cursors of the events that are produced never fall, from the floor on: Jetstream sends
-- events in the order of their `time_us`, and replays that of the cursor that it is asked for.
abbrev pub Rising : Pydantic → Option ℕ → List Arrival → Type 0
Rising py floor [] = Unit
Rising py floor (a ∷ rest) =
    (rises floor (taken_cursor py a) ≡ true) × Rising py (next_floor floor (taken_cursor py a)) rest

-- An event that parses arrives with this cursor.
unfoldable pub arrives : Pydantic → ℕ → List Arrival → Bool
arrives py c [] = false
arrives py c (a ∷ rest) = is_at c (taken_cursor py a) || arrives py c rest

pub rises-above :
    (floor o : Option ℕ) (c : ℕ)
    → rises floor o ≡ true
    → not_below (next_floor floor o) c ≡ true
    → not_below floor c ≡ true
rises-above none o c r e = refl
rises-above (some f) none c r e = e
rises-above (some f) (some d) c r e = ground arith

rises-at :
    (floor o : Option ℕ) (c : ℕ)
    → rises floor o ≡ true
    → is_at c o ≡ true
    → not_below floor c ≡ true
rises-at none o c r e = refl
rises-at (some f) none c r e = cc
rises-at (some f) (some d) c r e = ground arith

pub Rising-arrives :
    (py : Pydantic) (floor : Option ℕ) (l : List Arrival) (c : ℕ)
    → Rising py floor l
    → arrives py c l ≡ true
    → not_below floor c ≡ true
unfolding arrives
Rising-arrives py floor [] c r e = absurd (ground arith)
Rising-arrives py floor (a ∷ rest) c r e = elim (Bool-cases (is_at c (taken_cursor py a))) [
  | inl here ↦ rises-at floor (taken_cursor py a) c r.0 here
  | inr later ↦
      rises-above floor (taken_cursor py a) c r.0
        (Rising-arrives py (next_floor floor (taken_cursor py a)) rest c r.1 (ground arith))
]

rises-none : (o : Option ℕ) → rises none o ≡ true
rises-none none = refl
rises-none (some c) = refl

Rising-next_floor :
    (py : Pydantic) (floor o : Option ℕ) (l : List Arrival)
    → (Rising py floor l → Rising py none l)
    → Rising py (next_floor floor o) l
    → Rising py (next_floor none o) l
Rising-next_floor py floor none l lower r = lower r
Rising-next_floor py floor (some c) l lower r = r

-- What rises from above a floor rises from anywhere.
pub Rising-none :
    (py : Pydantic) (floor : Option ℕ) (l : List Arrival) → Rising py floor l → Rising py none l
Rising-none py floor [] r = tt
Rising-none py floor (a ∷ rest) r = (
  rises-none (taken_cursor py a),
  Rising-next_floor py floor (taken_cursor py a) rest (Rising-none py floor rest) r.1,
)
