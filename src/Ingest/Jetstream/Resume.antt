-- ===== src/Ingest/Jetstream/Resume.antt =====
-- What the Jetstream client yields and where it resumes.
use bluesky_trends.Prelude.{
  ◌<◌, ◌≤◌, ◌+◌, length, ℕ, ◌≡◌, refl, sym, ap, ◌∙◌, String, Bool, true, false, Option, some, List,
  [], ◌∷◌, ◌++◌, arith, Option-cases, inl, inr, if◌then◌else◌,
}
use mathlib.Core.List.{append-nil, append_assoc}
use bluesky_trends.Json.{Fields, get, as_int}
use bluesky_trends.Ingest.Config.{Settings}
use bluesky_trends.Ingest.Jetstream.Backoff.{backoff_delay_overflows}
use bluesky_trends.Ingest.Jetstream.{
  backoff_delay, End, closed, raises, Connection, Client, or_kept, build_url, receive, receive_all,
  finish, connect, events,
}

-- The last integer `time_us` of the events, or the cursor before them.
unfoldable pub last_cursor : Option ℕ → List Fields → Option ℕ
last_cursor cursor [] = cursor
last_cursor cursor (event ∷ rest) = last_cursor (or_kept cursor (as_int (get "time_us" event))) rest

-- What a connection brings.
abbrev pub brought : Connection → List Fields
brought x = if x.opens then x.events else []

unfoldable pub all_brought : List Connection → List Fields
all_brought [] = []
all_brought (x ∷ rest) = brought x ++ all_brought rest

-- The cursors that the connections ask for, one after the other.
unfoldable pub cursors : Option ℕ → List Connection → List (Option ℕ)
unfolding last_cursor
cursors cursor [] = []
cursors cursor (x ∷ rest) = cursor ∷ cursors (last_cursor cursor (brought x)) rest

unfoldable pub urls : Settings → List (Option ℕ) → List (String × List (String × String) × Option ℕ)
urls settings [] = []
urls settings (c ∷ cs) = build_url settings c ∷ urls settings cs

-- The client has asked at these cursors, yielded these events, and is at this cursor.
pub record Stands (settings : Settings) (asked : List (Option ℕ)) (got : List Fields)
    (start : Option ℕ) (before c : Client) : Type 0 where
  pub requested : c.requests ≡ before.requests ++ urls settings asked
  pub yields : c.yielded ≡ before.yielded ++ got
  pub latest : c.latest_cursor ≡ last_cursor start got

last_cursor-append :
    (cursor : Option ℕ) (l k : List Fields)
    → last_cursor cursor (l ++ k) ≡ last_cursor (last_cursor cursor l) k
unfolding last_cursor
last_cursor-append cursor [] k = refl
last_cursor-append cursor (event ∷ l) k =
    last_cursor-append (or_kept cursor (as_int (get "time_us" event))) l k

receive_all-Stands :
    (l : List Fields) (c : Client)
    → ((receive_all l c).latest_cursor ≡ last_cursor c.latest_cursor l)
      × ((receive_all l c).yielded ≡ c.yielded ++ l)
      × ((receive_all l c).requests ≡ c.requests)
unfolding receive_all receive last_cursor
receive_all-Stands [] c = (refl, sym (append-nil c.yielded), refl)
receive_all-Stands (event ∷ l) c =
    let (a, b, d) = receive_all-Stands l (receive event c) in
    (a, b ∙ append_assoc c.yielded (event ∷ []) l, d)

finish-Stands :
    (settings : Settings) (e : End) (c c' : Client)
    → finish settings e c ≡ some c'
    → (c'.latest_cursor ≡ c.latest_cursor) × (c'.yielded ≡ c.yielded) × (c'.requests ≡ c.requests)
finish-Stands settings closed c c' e = (cc, cc, cc)
finish-Stands settings (raises rand) c c' e = ground arith

opened-Stands :
    (opens : Bool) (l : List Fields) (c : Client)
    → let c' = if opens then receive_all l (record c { attempt = 0 }) else c in
      let got = if opens then l else [] in
      (c'.latest_cursor ≡ last_cursor c.latest_cursor got)
      × (c'.yielded ≡ c.yielded ++ got)
      × (c'.requests ≡ c.requests)
unfolding last_cursor
opened-Stands true l c = receive_all-Stands l (record c { attempt = 0 })
opened-Stands false l c = (refl, sym (append-nil c.yielded), refl)

connect-Stands :
    (settings : Settings) (x : Connection) (c c' : Client)
    → connect settings x c ≡ some c'
    → Stands settings (c.latest_cursor ∷ []) (brought x) c.latest_cursor c c'
unfolding connect urls last_cursor
connect-Stands settings x c c' e =
    let asked : Client = record c {
      requests = c.requests ++ build_url settings c.latest_cursor ∷ [];
    } in
    let (latest, yields, requested) = opened-Stands x.opens x.events asked in
    let (latest', yields', requested') = finish-Stands settings x.ends _ c' e in
    record {
      requested = requested' ∙ requested;
      yields = yields' ∙ yields;
      latest = latest' ∙ latest;
    }

none_yet :
    (settings : Settings) (c c' : Client) → c' ≡ c → Stands settings [] [] c.latest_cursor c c'
unfolding urls last_cursor
none_yet settings c c' e = rw e (record {
  requested = sym (append-nil c.requests);
  yields = sym (append-nil c.yielded);
  latest = refl;
})

joined :
    (settings : Settings) (got : List Fields) (asked : List (Option ℕ)) (more : List Fields)
    (c mid c' : Client)
    → Stands settings (c.latest_cursor ∷ []) got c.latest_cursor c mid
    → Stands settings asked more (last_cursor c.latest_cursor got) mid c'
    → Stands settings (c.latest_cursor ∷ asked) (got ++ more) c.latest_cursor c c'
unfolding urls
joined settings got asked more c mid c' f l = record {
  requested =
      l.requested
      ∙ ap (λ (r : List (String × List (String × String) × Option ℕ)). r ++ urls settings asked)
          f.requested
      ∙ append_assoc c.requests (build_url settings c.latest_cursor ∷ []) (urls settings asked);
  yields =
      l.yields ∙ ap (λ (y : List Fields). y ++ more) f.yields ∙ append_assoc c.yielded got more;
  latest = l.latest ∙ sym (last_cursor-append c.latest_cursor got more);
}

-- Where the loop goes on, it has yielded all that the connections brought.
pub events-Stands :
    (settings : Settings) (l : List Connection) (c c' : Client)
    → events settings l c ≡ some c'
    → Stands settings (cursors c.latest_cursor l) (all_brought l) c.latest_cursor c c'
unfolding events cursors all_brought
events-Stands settings [] c c' e = none_yet settings c c' (cc)
events-Stands settings (x ∷ rest) c c' e = elim (Option-cases (connect settings x c)) [
  | inl left ↦ absurd (let e' = rw (left, events) at e in cc)
  | inr (mid, turned) ↦
      let first = connect-Stands settings x c mid turned in
      let later = events-Stands settings rest mid c' (rw (turned, events) at e) in
      joined settings (brought x) (cursors _ rest) (all_brought rest) c mid c' first
        (rw (sym first.latest) later)
]

receive_all-attempt : (l : List Fields) (c : Client) → (receive_all l c).attempt ≡ c.attempt
unfolding receive_all receive
receive_all-attempt [] c = refl
receive_all-attempt (event ∷ l) c = receive_all-attempt l (receive event c)

finish-returns :
    (settings : Settings) (e : End) (c : Client)
    → c.attempt < 1024
    → (c' : Client) × (finish settings e c ≡ some c') × (c'.attempt ≤ c.attempt + 1)
finish-returns settings closed c h = (c, refl, omega arith)
finish-returns settings (raises rand) c h =
    elim (Option-cases (backoff_delay c.attempt settings rand)) [
      | inl none_left ↦
          let late = (backoff_delay_overflows c.attempt settings rand).0 none_left in
          absurd (omega (arith, late))
      | inr (delay, e) ↦ (
        record c { delays = c.delays ++ delay ∷ []; attempt = c.attempt + 1 },
        ground (arith, e),
        omega arith,
      )
    ]

opened-attempt :
    (opens : Bool) (l : List Fields) (c : Client)
    → (if opens then receive_all l (record c { attempt = 0 }) else c).attempt ≤ c.attempt
opened-attempt true l c = omega (arith, receive_all-attempt l (record c { attempt = 0 }))
opened-attempt false l c = omega arith

connect-returns :
    (settings : Settings) (x : Connection) (c : Client)
    → c.attempt < 1024
    → (c' : Client) × (connect settings x c ≡ some c') × (c'.attempt ≤ c.attempt + 1)
unfolding connect
connect-returns settings x c h =
    let asked : Client = record c {
      requests = c.requests ++ build_url settings c.latest_cursor ∷ [];
    } in
    let grows = opened-attempt x.opens x.events asked in
    let (c', e, le) = finish-returns settings x.ends _ (omega (arith, grows)) in
    (c', e, omega (arith, grows, le))

-- From a client that has `n` failures in a row behind it, over at most `1024 - n` connections, the
-- loop goes on, however they end. It has yielded the events of the connections that opened, all of
-- them and in order, and each connection has asked for the last cursor that came before it, or, if
-- none came, for the cursor that the client was given.
pub events_resume :
    (settings : Settings) (l : List Connection) (c : Client)
    → c.attempt + length l ≤ 1024
    → (c' : Client) × (events settings l c ≡ some c')
      × Stands settings (cursors c.latest_cursor l) (all_brought l) c.latest_cursor c c'
unfolding events cursors all_brought urls
events_resume settings [] c h = (c, refl, none_yet settings c c refl)
events_resume settings (x ∷ rest) c h =
    let (mid, turned, le) = connect-returns settings x c (omega arith) in
    let (c', later, stands) = events_resume settings rest mid (omega (arith, le)) in
    let first = connect-Stands settings x c mid turned in
    (
      c',
      rw (turned, events) later,
      joined settings (brought x) (cursors _ rest) (all_brought rest) c mid c' first
          (rw (sym first.latest) stands),
    )
