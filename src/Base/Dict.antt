-- ===== src/Base/Dict.antt =====
-- Python's `dict`, in insertion order: a write to a present key keeps its place.
pub mod Entries
pub mod Indexed
use mathlib.Core.Path.{◌≡◌, refl, subst}
use mathlib.Core.Option.{Option, none, some}
use mathlib.Core.List.{List, [], ◌∷◌, map}
use native.Mathlib.Omega.{arith}
use pqcensus.Base.Tests.{if◌then◌else◌}
use pqcensus.Base.Equality.{Eq, ◌==◌, ==_iff}

abbrev pub Dict {ℓ κ} : Type ℓ → Type κ → Type (ℓ ⊔ κ)
Dict K V = List (K × V)

-- `d.keys()`
unfoldable pub keys {ℓ κ} : {K : Type ℓ} {V : Type κ} → Dict K V → List K
keys = map (λ e. e.0)

-- `d.values()`
unfoldable pub values {ℓ κ} : {K : Type ℓ} {V : Type κ} → Dict K V → List V
values = map (λ e. e.1)

module _ {ℓ κ} {K : Type ℓ} {V : Type κ} ⦃e : Eq K⦄ where
  -- `d.get(k)`
  unfoldable pub lookup : K → Dict K V → Option V
  lookup k [] = none
  lookup k ((j, v) ∷ d) = if k == j then some v else lookup k d

  -- `d[k] = v`
  unfoldable pub insert : K → V → Dict K V → Dict K V
  insert k v [] = (k, v) ∷ []
  insert k v ((j, w) ∷ d) = if k == j then (j, v) ∷ d else (j, w) ∷ insert k v d

  -- `{key(x): x for x in xs}`, onto a dict that is there.
  unfoldable pub index_onto : (V → K) → Dict K V → List V → Dict K V
  unfolding insert
  index_onto key d [] = d
  index_onto key d (x ∷ xs) = index_onto key (insert (key x) x d) xs

  pub lookup-insert :
      (k j : K) (v : V) (d : Dict K V)
      → lookup j (insert k v d) ≡ (if j == k then some v else lookup j d)
  unfolding lookup insert
  lookup-insert k j v [] = refl
  lookup-insert k j v ((i, w) ∷ d) =
      ground (arith, ==_iff k i, ==_iff j i, ==_iff j k, lookup-insert k j v d)

  -- No key stands twice.
  abbrev pub NodupKeys : Dict K V → Type κ
  NodupKeys [] = Unit
  NodupKeys ((k, _) ∷ d) = (lookup k d ≡ none) × NodupKeys d

  pub insert-NodupKeys : (k : K) (v : V) (d : Dict K V) → NodupKeys d → NodupKeys (insert k v d)
  unfolding insert lookup
  insert-NodupKeys k v [] _ = (refl, tt)
  insert-NodupKeys k v ((j, w) ∷ d) (fresh, u) =
      ground (arith, insert-NodupKeys k v d u, lookup-insert k j v d, ==_iff k j, ==_iff j k)

  pub index_onto-NodupKeys :
      (key : V → K) (d : Dict K V) (xs : List V) → NodupKeys d → NodupKeys (index_onto key d xs)
  unfolding index_onto
  index_onto-NodupKeys key d [] u = u
  index_onto-NodupKeys key d (x ∷ xs) u =
      index_onto-NodupKeys key (insert (key x) x d) xs (insert-NodupKeys (key x) x d u)

  -- The last of a list whose key is the given one, or else what was there before.
  unfoldable pub last_with : (V → K) → K → Option V → List V → Option V
  last_with key k o [] = o
  last_with key k o (x ∷ xs) = last_with key k (if k == key x then some x else o) xs

  pub lookup-index_onto :
      (key : V → K) (k : K) (d : Dict K V) (xs : List V)
      → lookup k (index_onto key d xs) ≡ last_with key k (lookup k d) xs
  unfolding index_onto last_with
  lookup-index_onto key k d [] = refl
  lookup-index_onto key k d (x ∷ xs) =
      subst (λ o. lookup k (index_onto key (insert (key x) x d) xs) ≡ last_with key k o xs)
        (lookup-insert (key x) k x d) (lookup-index_onto key k (insert (key x) x d) xs)
