-- ===== src/Prelude/Dict.antt =====
-- Python dictionaries keyed by numbers, as association lists in insertion order.
use Prim.Native.Nat.{ℕ}
use mathlib.Core.Path.{◌≡◌, refl}
use mathlib.Core.Bool.{Bool, true, false, ◌||◌}
use mathlib.Core.Option.{Option, none, some}
use mathlib.Core.List.{List, [], ◌∷◌}
use native.Mathlib.Omega.{arith}
use bluesky_trends.Prelude.Tests.{◌==◌, if◌then◌else◌}

abbrev pub Dict {ℓ} : Type ℓ → Type ℓ
Dict V = List (ℕ × V)

module _ {ℓ} {V : Type ℓ} where
  -- `d.get(k)`
  unfoldable pub lookup : ℕ → Dict V → Option V
  lookup k [] = none
  lookup k ((j, v) ∷ d) = if k == j then some v else lookup k d

  -- `k in d`
  unfoldable pub contains : ℕ → Dict V → Bool
  contains k [] = false
  contains k ((j, v) ∷ d) = k == j || contains k d

  -- `d[k] = v`
  unfoldable pub insert : ℕ → V → Dict V → Dict V
  insert k v [] = (k, v) ∷ []
  insert k v ((j, w) ∷ d) = if k == j then (k, v) ∷ d else (j, w) ∷ insert k v d

  -- `del d[k]`: a dictionary holds a key once, so at most one entry goes.
  unfoldable pub erase : ℕ → Dict V → Dict V
  erase k [] = []
  erase k ((j, w) ∷ d) = let rest = erase k d in if k == j then rest else (j, w) ∷ rest

  -- `d.setdefault(k, v)`
  unfoldable pub set_default : ℕ → V → Dict V → Dict V
  unfolding contains insert
  set_default k v d = if contains k d then d else insert k v d

  pub lookup-insert :
      (j k : ℕ) (v : V) (d : Dict V)
      → lookup j (insert k v d) ≡ (if j == k then some v else lookup j d)
  unfolding lookup insert
  lookup-insert j k v [] = refl
  lookup-insert j k v ((i, w) ∷ d) = ground (arith, lookup-insert j k v d)

  pub lookup-erase :
      (j k : ℕ) (d : Dict V) → lookup j (erase k d) ≡ (if j == k then none else lookup j d)
  unfolding lookup erase
  lookup-erase j k [] = ground arith
  lookup-erase j k ((i, w) ∷ d) = ground (arith, lookup-erase j k d)

  abbrev pub is_some : Option V → Bool
  is_some none = false
  is_some (some _) = true

  pub contains-eq-lookup : (k : ℕ) (d : Dict V) → contains k d ≡ is_some (lookup k d)
  unfolding contains lookup
  contains-eq-lookup k [] = refl
  contains-eq-lookup k ((j, w) ∷ d) = ground (arith, contains-eq-lookup k d)

  pub lookup-set_default :
      (j k : ℕ) (v : V) (d : Dict V)
      → lookup j (set_default k v d)
        ≡ (if contains k d then lookup j d else if j == k then some v else lookup j d)
  unfolding set_default
  lookup-set_default j k v d = ground (arith, lookup-insert j k v d)

  -- The keys are distinct, as in every Python dictionary.
  abbrev pub NodupKeys : Dict V → Type ℓ
  NodupKeys [] = Unit
  NodupKeys ((k, _) ∷ d) = (lookup k d ≡ none) × NodupKeys d

  pub insert-NodupKeys : (k : ℕ) (v : V) (d : Dict V) → NodupKeys d → NodupKeys (insert k v d)
  unfolding insert lookup
  insert-NodupKeys k v [] h = (refl, tt)
  insert-NodupKeys k v ((j, w) ∷ d) h =
      ground (arith, insert-NodupKeys k v d h.1, lookup-insert j k v d)

  pub erase-NodupKeys : (k : ℕ) (d : Dict V) → NodupKeys d → NodupKeys (erase k d)
  unfolding erase
  erase-NodupKeys k [] h = tt
  erase-NodupKeys k ((j, w) ∷ d) h = ground (arith, erase-NodupKeys k d h.1, lookup-erase j k d)

  pub set_default-NodupKeys :
      (k : ℕ) (v : V) (d : Dict V) → NodupKeys d → NodupKeys (set_default k v d)
  unfolding set_default
  set_default-NodupKeys k v d h = ground (arith, insert-NodupKeys k v d h)
