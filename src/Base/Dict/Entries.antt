-- ===== src/Base/Dict/Entries.antt =====
-- What holds of every entry of a `dict`, through a write and a read.
use mathlib.Core.Path.{◌≡◌, sym, subst}
use mathlib.Core.Logic.{inl, inr}
use mathlib.Core.Option.{some, some-injective}
use mathlib.Core.List.{[], ◌∷◌}
use native.Mathlib.Omega.{arith}
use pqcensus.Base.Tests.{if◌then◌else◌, Bool-cases}
use pqcensus.Base.Equality.{Eq, ◌==◌, ==_iff}
use pqcensus.Base.Lists.{All}
use pqcensus.Base.Dict.{Dict, lookup, insert}

module _ {ℓ κ μ} {K : Type ℓ} {V : Type κ} ⦃e : Eq K⦄ (P : K × V → Type μ) where
  pub All-insert : (k : K) (v : V) (d : Dict K V) → P (k, v) → All P d → All P (insert k v d)
  unfolding insert
  All-insert k v [] h all = (h, tt)
  All-insert k v ((j, w) ∷ d) h all = elim (Bool-cases (k == j)) [
    | inl same ↦ rw (same, if◌then◌else◌) (subst (λ i. P (i, v)) ((==_iff k j).0 same) h, all.1)
    | inr other ↦ rw (other, if◌then◌else◌) (all.0, All-insert k v d h all.1)
  ]

  pub lookup-All : (k : K) (v : V) (d : Dict K V) → All P d → lookup k d ≡ some v → P (k, v)
  unfolding lookup
  lookup-All k v [] all = (λ found. ground arith)
  lookup-All k v ((j, w) ∷ d) all = elim (Bool-cases (k == j)) [
    | inl same ↦
        rw (same, if◌then◌else◌)
          (λ found.
            subst (λ i. P (i, v)) (sym ((==_iff k j).0 same))
              (subst (λ u. P (j, u)) (some-injective w v found) all.0))
    | inr other ↦ rw (other, if◌then◌else◌) (lookup-All k v d all.1)
  ]
