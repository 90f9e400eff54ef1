-- ===== src/Prelude/Dict.antt =====
-- A dict, or a table by its primary key: entries in the order of insertion, one for each key.
use mathlib.Core.Path.{◌≡◌, refl}
use mathlib.Core.Logic.{inl, inr}
use mathlib.Core.Bool.{Bool}
use mathlib.Core.Option.{Option, none, some}
use mathlib.Core.List.{List, [], ◌∷◌, map}
use Prim.Native.Nat.{ℕ, ◌+◌}
use native.Mathlib.Omega.{arith}
use ai_home_assistant.Prelude.Tests.{if◌then◌else◌, Bool-cases, map_option}
use ai_home_assistant.Prelude.Equality.{Eq, ◌==◌}
use ai_home_assistant.Prelude.Lists.{keep}

abbrev pub Dict {ℓ κ} : Type ℓ → Type κ → Type (ℓ ⊔ κ)
Dict K V = List (K × V)

module _ {ℓ κ} {K : Type ℓ} {V : Type κ} where
  abbrev pub keys : Dict K V → List K
  keys = map (λ e. e.0)

  abbrev pub values : Dict K V → List V
  values = map (λ e. e.1)

module _ {ℓ κ} {K : Type ℓ} {V : Type κ} ⦃e : Eq K⦄ where
  -- `d.get(k)`
  unfoldable pub get : K → Dict K V → Option V
  get k [] = none
  get k ((j, v) ∷ d) = if j == k then some v else get k d

  -- The entry of `k` made anew from what is there: an insert with a conflict clause.
  unfoldable pub alter : K → (Option V → V) → Dict K V → Dict K V
  alter k f [] = (k, f none) ∷ []
  alter k f ((j, v) ∷ d) = if j == k then (j, f (some v)) ∷ d else (j, v) ∷ alter k f d

  -- `d[k] = v`: a key that is there keeps its place.
  abbrev pub put : K → V → Dict K V → Dict K V
  put k v = alter k (λ _. v)

  -- `update ... where key = k`: no entry, no change.
  unfoldable pub modify : K → (V → V) → Dict K V → Dict K V
  modify k f [] = []
  modify k f ((j, v) ∷ d) = if j == k then (j, f v) ∷ d else (j, v) ∷ modify k f d

  pub get-alter :
      (k j : K) (f : Option V → V) (d : Dict K V)
      → get j (alter k f d) ≡ (if k == j then some (f (get k d)) else get j d)
  unfolding get alter
  get-alter k j f [] = refl
  get-alter k j f ((i, v) ∷ d) =
      ground (arith, e.same_iff i k, e.same_iff i j, e.same_iff k j, get-alter k j f d)

  pub get-modify :
      (k j : K) (f : V → V) (d : Dict K V)
      → get j (modify k f d) ≡ (if k == j then map_option f (get k d) else get j d)
  unfolding get modify
  get-modify k j f [] = ground arith
  get-modify k j f ((i, v) ∷ d) =
      ground (arith, e.same_iff i k, e.same_iff i j, e.same_iff k j, get-modify k j f d)

  -- Entries selected by a test of their keys.
  pub get-keep :
      (p : K → Bool) (k : K) (d : Dict K V)
      → get k (keep (λ x. p x.0) d) ≡ (if p k then get k d else none)
  unfolding get
  get-keep p k [] = ground arith
  get-keep p k ((j, v) ∷ d) = elim (Bool-cases (j == k)) [
    | inl t ↦
        let same : j ≡ k = (e.same_iff j k).0 t in ground (arith, get-keep p k d, e.same_iff j k)
    | inr t ↦ ground (arith, get-keep p k d)
  ]

-- The sum of a table's numbers.
abbrev pub total {ℓ} : {K : Type ℓ} → Dict K ℕ → ℕ
total [] = 0
total ((_, n) ∷ d) = n + total d
