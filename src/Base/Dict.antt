-- ===== src/Base/Dict.antt =====
-- Python's `dict`, in insertion order, as an association list over keys with an equality test.
use mathlib.Core.Path.{◌≡◌, refl}
use mathlib.Core.Option.{Option, none, some}
use mathlib.Core.List.{List, [], ◌∷◌}
use native.Mathlib.Omega.{arith}
use trading_project.Base.Tests.{if◌then◌else◌}
use trading_project.Base.Eq.{Eq, ◌==◌}

abbrev pub Dict {ℓ κ} : Type ℓ → Type κ → Type (ℓ ⊔ κ)
Dict K V = List (K × V)

module _ {ℓ κ} {K : Type ℓ} {V : Type κ} where
  -- `list(d.keys())`, `list(d.values())`
  abbrev pub keys : Dict K V → List K
  keys [] = []
  keys ((k, _) ∷ d) = k ∷ keys d

  abbrev pub values : Dict K V → List V
  values [] = []
  values ((_, v) ∷ d) = v ∷ values d

module _ {ℓ κ} {K : Type ℓ} {V : Type κ} ⦃e : Eq K⦄ where
  -- `d.get(k)`
  abbrev pub lookup : K → Dict K V → Option V
  lookup k [] = none
  lookup k ((j, v) ∷ d) = if k == j then some v else lookup k d

  -- `d[k] = v`
  abbrev pub insert : K → V → Dict K V → Dict K V
  insert k v [] = (k, v) ∷ []
  insert k v (x ∷ d) = if k == x.0 then (x.0, v) ∷ d else x ∷ insert k v d

  -- `d.pop(k, None)`: every entry of the key goes
  abbrev pub remove : K → Dict K V → Dict K V
  remove k [] = []
  remove k (x ∷ d) = let rest = remove k d in if k == x.0 then rest else x ∷ rest

  pub lookup-insert :
      (j k : K) (v : V) (d : Dict K V)
      → lookup j (insert k v d) ≡ (if j == k then some v else lookup j d)
  lookup-insert j k v [] = refl
  lookup-insert j k v (x ∷ d) =
      ground (arith, lookup-insert j k v d, e.beq_iff j k, e.beq_iff k x.0, e.beq_iff j x.0)

  pub lookup-remove :
      (j k : K) (d : Dict K V) → lookup j (remove k d) ≡ (if j == k then none else lookup j d)
  lookup-remove j k [] = ground arith
  lookup-remove j k (x ∷ d) =
      ground (arith, lookup-remove j k d, e.beq_iff j k, e.beq_iff k x.0, e.beq_iff j x.0)
