-- ===== src/Base/Sort.antt =====
-- Orders, and Python's `sorted(xs, key=...)`: a stable sort by the order of the keys.
pub mod Laws
use Prim.Native.Nat.{ℕ}
use mathlib.Core.Path.{◌≡◌, refl}
use mathlib.Core.Bool.{Bool, true, false, ◌&&◌, ◌||◌, not}
use mathlib.Core.List.{List, [], ◌∷◌}
use native.Mathlib.Omega.{arith}
use pqcensus.Base.Tests.{leb, if◌then◌else◌}
use pqcensus.Base.Equality.{Eq, ◌==◌, contains}
use pqcensus.Base.Lists.{length, count, All}

-- A total preorder that can be tested.
pub record Ord {ℓ} (A : Type ℓ) : Type ℓ where
  pub le : A → A → Bool
  pub total : (a b : A) → le a b ≡ false → le b a ≡ true
  pub trans : (a b c : A) → le a b ≡ true → le b c ≡ true → le a c ≡ true

abbrev pub le {ℓ} : {A : Type ℓ} ⦃o : Ord A⦄ → A → A → Bool
le ⦃o⦄ = o.le

pub le_total {ℓ} : {A : Type ℓ} ⦃o : Ord A⦄ (a b : A) → le a b ≡ false → le b a ≡ true
le_total ⦃o⦄ = o.total

pub le_trans {ℓ} :
    {A : Type ℓ} ⦃o : Ord A⦄ (a b c : A) → le a b ≡ true → le b c ≡ true → le a c ≡ true
le_trans ⦃o⦄ = o.trans

pub leb_total : (a b : ℕ) → leb a b ≡ false → leb b a ≡ true
leb_total a b h = ground arith

pub leb_trans : (a b c : ℕ) → leb a b ≡ true → leb b c ≡ true → leb a c ≡ true
leb_trans a b c h k = ground arith

instance abbrev pub nat_ord : Ord ℕ
nat_ord = record { le = leb; total = leb_total; trans = leb_trans }

-- Texts and tuples are compared from the left.
module _ {ℓ} {A : Type ℓ} ⦃o : Ord A⦄ where
  unfoldable pub list_le : List A → List A → Bool
  list_le [] ys = true
  list_le (x ∷ xs) [] = false
  list_le (x ∷ xs) (y ∷ ys) = le x y && (not (le y x) || list_le xs ys)

  pub list_le_total : (xs ys : List A) → list_le xs ys ≡ false → list_le ys xs ≡ true
  unfolding list_le
  list_le_total [] ys h = ground arith
  list_le_total (x ∷ xs) [] h = refl
  list_le_total (x ∷ xs) (y ∷ ys) h =
      ground (arith, list_le_total xs ys, le_total x y, le_total y x)

  pub list_le_trans :
      (xs ys zs : List A) → list_le xs ys ≡ true → list_le ys zs ≡ true → list_le xs zs ≡ true
  unfolding list_le
  list_le_trans [] ys zs h k = refl
  list_le_trans (x ∷ xs) [] zs h k = ground arith
  list_le_trans (x ∷ xs) (y ∷ ys) [] h k = ground arith
  list_le_trans (x ∷ xs) (y ∷ ys) (z ∷ zs) h k =
      ground (arith, list_le_trans xs ys zs, le_trans x y z, le_trans z x y, le_trans y z x)

  instance abbrev pub list_ord : Ord (List A)
  list_ord = record { le = list_le; total = list_le_total; trans = list_le_trans }

module _ {ℓ κ} {A : Type ℓ} {B : Type κ} ⦃o : Ord A⦄ ⦃p : Ord B⦄ where
  unfoldable pub pair_le : A × B → A × B → Bool
  pair_le s t = le s.0 t.0 && (not (le t.0 s.0) || le s.1 t.1)

  pub pair_le_total : (s t : A × B) → pair_le s t ≡ false → pair_le t s ≡ true
  unfolding pair_le
  pair_le_total (a, b) (c, d) h = ground (arith, le_total a c, le_total c a, le_total b d)

  pub pair_le_trans : (s t u : A × B) → pair_le s t ≡ true → pair_le t u ≡ true → pair_le s u ≡ true
  unfolding pair_le
  pair_le_trans (a, b) (c, d) (e, f) h k =
      ground (arith, le_trans a c e, le_trans e a c, le_trans c e a, le_trans b d f)

  instance abbrev pub pair_ord : Ord (A × B)
  pair_ord = record { le = pair_le; total = pair_le_total; trans = pair_le_trans }

module _ {ℓ κ} {A : Type ℓ} {K : Type κ} ⦃o : Ord K⦄ (key : A → K) where
  unfoldable pub place : A → List A → List A
  place x [] = x ∷ []
  place x (y ∷ ys) = let rest = place x ys in if le (key x) (key y) then x ∷ y ∷ ys else y ∷ rest

  -- `sorted(xs, key=key)`: equal keys keep their order.
  unfoldable pub sorted : List A → List A
  unfolding place
  sorted [] = []
  sorted (x ∷ xs) = place x (sorted xs)

  abbrev pub IsSorted : List A → Type ℓ
  IsSorted [] = Unit
  IsSorted (x ∷ xs) = All (λ y. le (key x) (key y) ≡ true) xs × IsSorted xs
