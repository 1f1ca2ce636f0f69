-- ===== src/Prelude/Sorted.antt =====
-- `sorted(d)` of a Python dictionary: its keys in ascending order.
use Prim.Native.Nat.{ℕ, ◌<◌}
use mathlib.Core.Path.{◌≡◌, refl}
use mathlib.Core.Bool.{Bool, true, false, ◌||◌}
use mathlib.Core.List.{List, [], ◌∷◌}
use native.Mathlib.Omega.{arith}
use bluesky_trends.Prelude.Tests.{ltb, ◌==◌, if◌then◌else◌}
use bluesky_trends.Prelude.Dict.{Dict, contains, NodupKeys, contains-eq-lookup}

unfoldable pub insert_sorted : ℕ → List ℕ → List ℕ
insert_sorted k [] = k ∷ []
insert_sorted k (j ∷ js) = if ltb k j then k ∷ j ∷ js else j ∷ insert_sorted k js

unfoldable pub sorted {ℓ} : {V : Type ℓ} → Dict V → List ℕ
unfolding insert_sorted
sorted [] = []
sorted ((k, _) ∷ d) = insert_sorted k (sorted d)

unfoldable pub mem : ℕ → List ℕ → Bool
mem c [] = false
mem c (k ∷ ks) = c == k || mem c ks

-- Every element is above `k`.
abbrev pub Above : ℕ → List ℕ → Type 0
Above k [] = Unit
Above k (j ∷ js) = (k < j) × Above k js

-- Strictly ascending.
abbrev pub Ascending : List ℕ → Type 0
Ascending [] = Unit
Ascending (k ∷ ks) = Above k ks × Ascending ks

pub mem-insert_sorted : (c k : ℕ) (ks : List ℕ) → mem c (insert_sorted k ks) ≡ (c == k || mem c ks)
unfolding mem insert_sorted
mem-insert_sorted c k [] = refl
mem-insert_sorted c k (j ∷ js) = ground (arith, mem-insert_sorted c k js)

-- The list holds exactly the keys.
pub mem-sorted {ℓ} : {V : Type ℓ} (c : ℕ) (d : Dict V) → mem c (sorted d) ≡ contains c d
unfolding sorted mem contains
mem-sorted c [] = refl
mem-sorted c ((k, v) ∷ d) = ground (arith, mem-insert_sorted c k (sorted d), mem-sorted c d)

pub Above-insert_sorted :
    (a k : ℕ) (ks : List ℕ) → a < k → Above a ks → Above a (insert_sorted k ks)
unfolding insert_sorted
Above-insert_sorted a k [] h hs = (h, tt)
Above-insert_sorted a k (j ∷ js) h hs = ground (arith, Above-insert_sorted a k js h hs.1)

Above-trans : (a b : ℕ) (ks : List ℕ) → a < b → Above b ks → Above a ks
Above-trans a b [] h hs = tt
Above-trans a b (k ∷ ks) h hs = (omega arith, Above-trans a b ks h hs.1)

pub Above-mem : (a c : ℕ) (ks : List ℕ) → Above a ks → mem c ks ≡ true → a < c
unfolding mem
Above-mem a c [] h e = cc
Above-mem a c (k ∷ ks) h e = ground (arith, Above-mem a c ks h.1)

insert_sorted-Ascending :
    (k : ℕ) (ks : List ℕ) → Ascending ks → mem k ks ≡ false → Ascending (insert_sorted k ks)
unfolding insert_sorted mem
insert_sorted-Ascending k [] h e = (tt, tt)
insert_sorted-Ascending k (j ∷ js) h e =
    ground (arith, insert_sorted-Ascending k js h.1, Above-trans k j js, Above-insert_sorted j k js)

-- Distinct keys are sorted strictly.
pub sorted-Ascending {ℓ} : {V : Type ℓ} (d : Dict V) → NodupKeys d → Ascending (sorted d)
unfolding sorted
sorted-Ascending [] h = tt
sorted-Ascending ((k, v) ∷ d) h =
    insert_sorted-Ascending k (sorted d) (sorted-Ascending d h.1)
      (rw (mem-sorted, contains-eq-lookup, h.0) refl)
