-- ===== src/Prelude/Dict.antt =====
-- `std::map` where only look-ups matter, as an association list, with its laws in `if` form.
use mathlib.Core.Path.{◌≡◌}
use mathlib.Core.Option.{Option, none, some}
use mathlib.Core.List.{List, [], ◌∷◌}
use native.Mathlib.Omega.{arith}
use wolk_connect_task.Prelude.Equality.{Eq, ◌==◌}
use wolk_connect_task.Prelude.Tests.{if◌then◌else◌}

abbrev pub Dict {ℓ κ} : Type ℓ → Type κ → Type (ℓ ⊔ κ)
Dict K V = List (K × V)

module _ {ℓ κ} {K : Type ℓ} {V : Type κ} ⦃e : Eq K⦄ where
  unfoldable pub lookup : K → Dict K V → Option V
  lookup k [] = none
  lookup k ((j, v) ∷ d) = if j == k then some v else lookup k d

  -- `d[k] = v`
  unfoldable pub insert : K → V → Dict K V → Dict K V
  insert k v [] = (k, v) ∷ []
  insert k v ((j, w) ∷ d) = if j == k then (k, v) ∷ d else (j, w) ∷ insert k v d

  -- `d.erase(k)`
  unfoldable pub erase : K → Dict K V → Dict K V
  erase k [] = []
  erase k ((j, w) ∷ d) = let rest = erase k d in if j == k then rest else (j, w) ∷ rest

  -- `emplace`, which keeps what is there.
  abbrev pub emplace : K → V → Dict K V → Dict K V
  emplace k v d = elim (lookup k d) [ none ↦ insert k v d | some w ↦ d ]

  pub lookup-insert :
      (j k : K) (v : V) (d : Dict K V)
      → lookup j (insert k v d) ≡ (if k == j then some v else lookup j d)
  unfolding lookup insert
  lookup-insert j k v [] = ground arith
  lookup-insert j k v (_ ∷ d) = ground (arith, lookup-insert j k v d)

  pub lookup-erase :
      (j k : K) (d : Dict K V) → lookup j (erase k d) ≡ (if k == j then none else lookup j d)
  unfolding lookup erase
  lookup-erase j k [] = ground arith
  lookup-erase j k (_ ∷ d) = ground (arith, lookup-erase j k d)

  pub lookup-emplace :
      (j k : K) (v : V) (d : Dict K V)
      → lookup j d ≡ none
      → lookup k (emplace j v d) ≡ (if j == k then some v else lookup k d)
  lookup-emplace j k v d fresh = ground (arith, lookup-insert k j v d)

  pub lookup-emplace_kept :
      (j k : K) (v w : V) (d : Dict K V) → lookup k d ≡ some w → lookup k (emplace j v d) ≡ some w
  lookup-emplace_kept j k v w d kept = ground (arith, lookup-insert k j v d)
