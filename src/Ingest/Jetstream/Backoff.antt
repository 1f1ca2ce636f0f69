-- ===== src/Ingest/Jetstream/Backoff.antt =====
-- The bounds of `backoff_delay` of ingest/jetstream_client.py, and where it raises.
use native.Mathlib.Nat.{pow-le-pow_right}
use bluesky_trends.Prelude.{
  ◌^◌, ltb, leb, true, false, inl, inr, Bool-cases, ℕ, ◌+◌, ◌-◌, ◌*◌, ◌≤◌, ◌<◌, ◌≡◌, refl, ◌↔◌,
  none, some, arith,
}
use bluesky_trends.Ingest.Config.{Ratio, Settings}
use bluesky_trends.Ingest.Jetstream.{int_to_float, base_delay, jittered, backoff_delay}

-- The fraction `d` lies between `base * (1 - jitter)` and `base * (1 + jitter)`, over the common
-- denominator of the jitter and the random number.
abbrev pub Within : ℕ → Ratio → Ratio → Ratio → Type 0
Within base jitter rand d =
    (d.den ≡ jitter.den * rand.den)
    × (base * jitter.den * rand.den - base * jitter.num * rand.den ≤ d.num)
    × (d.num ≤ base * jitter.den * rand.den + base * jitter.num * rand.den)

twice-le : (m a b : ℕ) → a ≤ b → m * (2 * a) ≤ m * b + m * b
twice-le m a b h = grind arith

-- The powers of two around the largest float.
largest_fits : ltb (2 ^ 1023) (2 ^ 1024 - 2 ^ 970) ≡ true
largest_fits = refl

next_overflows : leb (2 ^ 1024 - 2 ^ 970) (2 ^ 1024) ≡ true
next_overflows = refl

fits : (a l m : ℕ) → a ≤ m → ltb m l ≡ true → ltb a l ≡ true
fits a l m le lt = ground arith

exceeds : (a l m : ℕ) → m ≤ a → leb l m ≡ true → ltb a l ≡ false
exceeds a l m le ge = ground arith

power-fits : (attempt : ℕ) → attempt < 1024 → int_to_float (2 ^ attempt) ≡ some (2 ^ attempt)
unfolding int_to_float
power-fits attempt h =
    rw
      (fits (2 ^ attempt) (2 ^ 1024 - 2 ^ 970) (2 ^ 1023)
        (pow-le-pow_right {n = 2} (omega arith) {i = attempt} {j = 1023} (omega arith))
        largest_fits)
      refl

power-exceeds : (attempt : ℕ) → 1024 ≤ attempt → int_to_float (2 ^ attempt) ≡ none
unfolding int_to_float
power-exceeds attempt h =
    rw
      (exceeds (2 ^ attempt) (2 ^ 1024 - 2 ^ 970) (2 ^ 1024)
        (pow-le-pow_right {n = 2} (omega arith) {i = 1024} {j = attempt} h) next_overflows)
      refl

-- For a random number below 1, up to attempt 1023 there is a delay; it lies within the jitter
-- around a base that is at most the maximum.
pub backoff_delay_bounds :
    (attempt : ℕ) (settings : Settings) (rand : Ratio)
    → attempt < 1024
    → rand.num < rand.den
    → (d : Ratio) × (backoff_delay attempt settings rand ≡ some d)
      × Within (base_delay settings (2 ^ attempt)) settings.backoff_jitter_ratio rand d
      × (base_delay settings (2 ^ attempt) ≤ settings.backoff_max_seconds)
unfolding backoff_delay
backoff_delay_bounds attempt settings rand h below =
    let jitter = settings.backoff_jitter_ratio in
    let base = base_delay settings (2 ^ attempt) in
    let wide = twice-le (base * jitter.num) rand.num rand.den (omega arith) in
    (
      jittered base jitter rand,
      rw (power-fits attempt h, backoff_delay) refl,
      (refl, omega arith, omega (arith, wide)),
      omega arith,
    )

-- From attempt 1024 on `backoff_delay` raises `OverflowError`, and before it never: `2 ** 1024` is
-- the first power of two that is too large for a float.
pub backoff_delay_overflows :
    (attempt : ℕ) (settings : Settings) (rand : Ratio)
    → (backoff_delay attempt settings rand ≡ none) ↔ (1024 ≤ attempt)
unfolding backoff_delay
backoff_delay_overflows attempt settings rand = elim (Bool-cases (ltb attempt 1024)) [
  | inl e_early ↦
      let early : attempt < 1024 = ground arith in
      (
        λ e. absurd (let e' = rw (power-fits attempt early, backoff_delay) at e in cc),
        λ late. absurd (omega arith),
      )
  | inr e_late ↦
      let late : 1024 ≤ attempt = ground arith in
      (λ e. late, λ e. rw (power-exceeds attempt late, backoff_delay) refl)
]
