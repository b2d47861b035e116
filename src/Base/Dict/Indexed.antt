-- ===== src/Base/Dict/Indexed.antt =====
-- `{key(x): x for x in xs}.values()`: one value for each key, the last that has it.
use Prim.Native.Nat.{ℕ}
use mathlib.Core.Path.{◌≡◌, refl, ap, ◌∙◌}
use mathlib.Core.Bool.{Bool, false, ◌&&◌}
use mathlib.Core.Option.{Option, none, some}
use mathlib.Core.List.{List, [], ◌∷◌}
use native.Mathlib.Omega.{arith}
use pqcensus.Base.Equality.{Eq, ◌==◌, ==_iff}
use pqcensus.Base.Lists.{any, count, All}
use pqcensus.Base.Dict.{
  Dict, values, lookup, insert, index_onto, last_with, NodupKeys, index_onto-NodupKeys,
  lookup-index_onto,
}

-- Whether a value that may be missing passes a test.
unfoldable pub passes {κ} : {V : Type κ} → (V → Bool) → Option V → Bool
passes p none = false
passes p (some v) = p v

-- `1` for a value, `0` for none.
unfoldable pub as_count {κ} : {V : Type κ} → Option V → ℕ
as_count none = 0
as_count (some v) = 1

module _ {ℓ κ} {K : Type ℓ} {V : Type κ} ⦃e : Eq K⦄ (key : V → K) where
  unfoldable pub index_by : List V → List V
  unfolding index_onto values
  index_by xs = values (index_onto key [] xs)

  -- Every value stands under its own key.
  abbrev KeyedBy : Dict K V → Type ℓ
  KeyedBy = All (λ p. p.0 ≡ key p.1)

  insert-KeyedBy : (x : V) (d : Dict K V) → KeyedBy d → KeyedBy (insert (key x) x d)
  unfolding insert
  insert-KeyedBy x [] h = (refl, tt)
  insert-KeyedBy x ((j, w) ∷ d) h = ground (arith, ==_iff (key x) j, insert-KeyedBy x d h.1)

  index_onto-KeyedBy : (d : Dict K V) (xs : List V) → KeyedBy d → KeyedBy (index_onto key d xs)
  unfolding index_onto
  index_onto-KeyedBy d [] h = h
  index_onto-KeyedBy d (x ∷ xs) h =
      index_onto-KeyedBy (insert (key x) x d) xs (insert-KeyedBy x d h)

  any-values :
      (k : K) (p : V → Bool) (d : Dict K V)
      → NodupKeys d
      → KeyedBy d
      → any (λ v. (k == key v) && p v) (values d) ≡ passes p (lookup k d)
  unfolding any values lookup passes
  any-values k p [] u h = refl
  any-values k p ((j, w) ∷ d) (fresh, u) (own, h) =
      ground (arith, any-values k p d u h, ==_iff k j, own)

  -- Among the values, those of a key that pass a test are there if the last value of that key passes.
  pub any-index_by :
      (k : K) (p : V → Bool) (xs : List V)
      → any (λ v. (k == key v) && p v) (index_by xs) ≡ passes p (last_with key k none xs)
  unfolding index_by lookup
  any-index_by k p xs =
      any-values k p (index_onto key [] xs) (index_onto-NodupKeys key [] xs tt)
        (index_onto-KeyedBy [] xs tt)
      ∙ ap (passes p) (lookup-index_onto key k [] xs)

  count-values :
      (k : K) (d : Dict K V)
      → NodupKeys d
      → KeyedBy d
      → count (λ v. k == key v) (values d) ≡ as_count (lookup k d)
  unfolding count values lookup as_count
  count-values k [] u h = refl
  count-values k ((j, w) ∷ d) (fresh, u) (own, h) =
      ground (arith, count-values k d u h, ==_iff k j, own)

  -- Each key that occurs has one value, and no other has any.
  pub count-index_by :
      (k : K) (xs : List V)
      → count (λ v. k == key v) (index_by xs) ≡ as_count (last_with key k none xs)
  unfolding index_by lookup
  count-index_by k xs =
      count-values k (index_onto key [] xs) (index_onto-NodupKeys key [] xs tt)
        (index_onto-KeyedBy [] xs tt)
      ∙ ap as_count (lookup-index_onto key k [] xs)

  All-insert-values {μ} :
      (P : V → Type μ) (k : K) (x : V) (d : Dict K V)
      → P x
      → All P (values d)
      → All P (values (insert k x d))
  unfolding insert values
  All-insert-values P k x [] h all = (h, tt)
  All-insert-values P k x ((j, w) ∷ d) h all = ground (arith, All-insert-values P k x d h all.1)

  All-index_onto-values {μ} :
      (P : V → Type μ) (d : Dict K V) (xs : List V)
      → All P (values d)
      → All P xs
      → All P (values (index_onto key d xs))
  unfolding index_onto
  All-index_onto-values P d [] held all = held
  All-index_onto-values P d (x ∷ xs) held all =
      All-index_onto-values P (insert (key x) x d) xs (All-insert-values P (key x) x d all.0 held)
        all.1

  pub All-index_by {μ} : (P : V → Type μ) (xs : List V) → All P xs → All P (index_by xs)
  unfolding index_by values
  All-index_by P xs all = All-index_onto-values P [] xs tt all
