-- ===== src/Base/Sort/Laws.antt =====
-- What `sorted` returns is in order, and is a rearrangement of its argument.
use Prim.Native.Nat.{suc}
use mathlib.Core.Path.{◌≡◌, refl, ap, ◌∙◌}
use mathlib.Core.Logic.{inl, inr}
use mathlib.Core.Bool.{Bool, true, false}
use mathlib.Core.List.{List, [], ◌∷◌, map, Perm}
use mathlib.Core.List.Perm
use native.Mathlib.Omega.{arith}
use pqcensus.Base.Tests.{Bool-cases, if◌then◌else◌}
use pqcensus.Base.Equality.{Eq, contains}
use pqcensus.Base.Lists.{length, any, count, All, All-map}
use pqcensus.Base.Sort.{Ord, le, le_total, le_trans, place, sorted, IsSorted}

module _ {ℓ κ} {A : Type ℓ} {K : Type κ} ⦃o : Ord K⦄ (key : A → K) where
  place-perm : (x : A) (ys : List A) → Perm (place key x ys) (x ∷ ys)
  unfolding place
  place-perm x [] = Perm.refl (x ∷ [])
  place-perm x (y ∷ ys) =
      elim (le (key x) (key y))
        as (λ b. Perm (if b then x ∷ y ∷ ys else y ∷ place key x ys) (x ∷ y ∷ ys)) [
          | true ↦ Perm.refl (x ∷ y ∷ ys)
          | false ↦ Perm.trans (Perm.cons y (place-perm x ys)) (Perm.swap x y ys)
        ]

  pub sorted-perm : (xs : List A) → Perm (sorted key xs) xs
  unfolding sorted
  sorted-perm [] = Perm.refl []
  sorted-perm (x ∷ xs) = Perm.trans (place-perm x (sorted key xs)) (Perm.cons x (sorted-perm xs))

  All-place {μ} : (P : A → Type μ) (x : A) (ys : List A) → P x → All P ys → All P (place key x ys)
  unfolding place
  All-place P x [] h k = (h, tt)
  All-place P x (y ∷ ys) h k = ground (arith, All-place P x ys h k.1)

  -- A rearrangement keeps what holds of every item.
  pub All-sorted {μ} : (P : A → Type μ) (xs : List A) → All P xs → All P (sorted key xs)
  unfolding sorted
  All-sorted P [] h = tt
  All-sorted P (x ∷ xs) h = All-place P x (sorted key xs) h.0 (All-sorted P xs h.1)

  length-place : (x : A) (ys : List A) → length (place key x ys) ≡ suc (length ys)
  unfolding place
  length-place x [] = refl
  length-place x (y ∷ ys) = ground (arith, length-place x ys)

  pub length-sorted : (xs : List A) → length (sorted key xs) ≡ length xs
  unfolding sorted
  length-sorted [] = refl
  length-sorted (x ∷ xs) = length-place x (sorted key xs) ∙ ap suc (length-sorted xs)

  count-place : (p : A → Bool) (x : A) (ys : List A) → count p (place key x ys) ≡ count p (x ∷ ys)
  unfolding place count
  count-place p x [] = refl
  count-place p x (y ∷ ys) = ground (arith, count-place p x ys)

  pub count-sorted : (p : A → Bool) (xs : List A) → count p (sorted key xs) ≡ count p xs
  unfolding sorted count
  count-sorted p [] = refl
  count-sorted p (x ∷ xs) = ground (arith, count-place p x (sorted key xs), count-sorted p xs)

  any-place : (p : A → Bool) (x : A) (ys : List A) → any p (place key x ys) ≡ any p (x ∷ ys)
  unfolding place any
  any-place p x [] = refl
  any-place p x (y ∷ ys) = ground (arith, any-place p x ys)

  pub any-sorted : (p : A → Bool) (xs : List A) → any p (sorted key xs) ≡ any p xs
  unfolding sorted any
  any-sorted p [] = refl
  any-sorted p (x ∷ xs) = ground (arith, any-place p x (sorted key xs), any-sorted p xs)

  above :
      (x y : A) (ys : List A)
      → le (key x) (key y) ≡ true
      → All (λ z. le (key y) (key z) ≡ true) ys
      → All (λ z. le (key x) (key z) ≡ true) ys
  above x y ys h = All-map _ _ ys (λ z. le_trans (key x) (key y) (key z) h)

  place-IsSorted : (x : A) (ys : List A) → IsSorted key ys → IsSorted key (place key x ys)
  unfolding place
  place-IsSorted x [] h = (tt, tt)
  place-IsSorted x (y ∷ ys) h = elim (Bool-cases (le (key x) (key y))) [
    | inl below ↦ rw (below, if◌then◌else◌) ((below, above x y ys below h.0), h)
    | inr past ↦
        rw (past, if◌then◌else◌)
          (
            All-place (λ z. le (key y) (key z) ≡ true) x ys (le_total (key x) (key y) past) h.0,
            place-IsSorted x ys h.1,
          )
  ]

  -- Each item of `sorted(xs, key=key)` stands before those with greater keys.
  pub sorted-IsSorted : (xs : List A) → IsSorted key (sorted key xs)
  unfolding sorted
  sorted-IsSorted [] = tt
  sorted-IsSorted (x ∷ xs) = place-IsSorted x (sorted key xs) (sorted-IsSorted xs)

  map-place : (x : A) (ys : List A) → map key (place key x ys) ≡ place (λ k. k) (key x) (map key ys)
  unfolding place
  map-place x [] = refl
  map-place x (y ∷ ys) = ground (arith, map-place x ys)

  -- The keys of what is sorted are the sorted keys.
  pub map-sorted : (xs : List A) → map key (sorted key xs) ≡ sorted (λ k. k) (map key xs)
  unfolding sorted
  map-sorted [] = refl
  map-sorted (x ∷ xs) = map-place x (sorted key xs) ∙ ap (place (λ k. k) (key x)) (map-sorted xs)

module _ {ℓ} {A : Type ℓ} ⦃o : Ord A⦄ ⦃e : Eq A⦄ where
  contains-place : (x a : A) (ys : List A) → contains (place (λ y. y) x ys) a ≡ contains (x ∷ ys) a
  unfolding place contains
  contains-place x a [] = refl
  contains-place x a (y ∷ ys) = ground (arith, contains-place x a ys)

  -- A value is in `sorted(xs)` exactly if it is in `xs`.
  pub contains-sorted : (xs : List A) (a : A) → contains (sorted (λ y. y) xs) a ≡ contains xs a
  unfolding sorted contains
  contains-sorted [] a = refl
  contains-sorted (x ∷ xs) a =
      ground (arith, contains-place x a (sorted (λ y. y) xs), contains-sorted xs a)
