-- ===== src/Base/Lists.antt =====
-- Lists measured by native numbers, and Python's `any`, `all`, comprehensions with `if`, `next`.
use Prim.Native.Nat.{ℕ, zero, suc, ◌+◌, ◌≤◌}
use mathlib.Core.Path.{◌≡◌, refl, ap}
use mathlib.Core.Logic.{◌↔◌}
use mathlib.Core.Bool.{Bool, true, false, ◌&&◌, ◌||◌, not}
use mathlib.Core.Option.{Option, none, some, some-injective}
use mathlib.Core.List.{List, [], ◌∷◌, ◌++◌, map}
use native.Mathlib.Omega.{arith}
use pqcensus.Base.Tests.{if◌then◌else◌}

module _ {ℓ} {A : Type ℓ} where
  abbrev pub length : List A → ℕ
  length [] = 0
  length (x ∷ xs) = suc (length xs)

  -- `xs[i]`, or `none` past the end.
  abbrev pub get_elem? : List A → ℕ → Option A
  get_elem? [] i = none
  get_elem? (x ∷ xs) zero = some x
  get_elem? (x ∷ xs) (suc i) = get_elem? xs i

  -- `xs[:n]`
  abbrev pub take : ℕ → List A → List A
  take zero xs = []
  take (suc n) [] = []
  take (suc n) (x ∷ xs) = x ∷ take n xs

  unfoldable pub any : (A → Bool) → List A → Bool
  any p [] = false
  any p (x ∷ xs) = p x || any p xs

  unfoldable pub all : (A → Bool) → List A → Bool
  all p [] = true
  all p (x ∷ xs) = p x && all p xs

  -- `[x for x in xs if p x]`
  unfoldable pub keep : (A → Bool) → List A → List A
  keep p [] = []
  keep p (x ∷ xs) = let rest = keep p xs in if p x then x ∷ rest else rest

  -- `next((x for x in xs if p x), None)`
  unfoldable pub first : (A → Bool) → List A → Option A
  first p [] = none
  first p (x ∷ xs) = if p x then some x else first p xs

  -- `sum(p x for x in xs)`, of truth values.
  unfoldable pub count : (A → Bool) → List A → ℕ
  count p [] = 0
  count p (x ∷ xs) = if p x then suc (count p xs) else count p xs

  abbrev pub All {κ} : (A → Type κ) → List A → Type κ
  All P [] = Unit
  All P (x ∷ xs) = P x × All P xs

  pub length-append : (xs ys : List A) → length (xs ++ ys) ≡ length xs + length ys
  length-append [] ys = omega arith
  length-append (x ∷ xs) ys = omega (arith, length-append xs ys)

module _ {ℓ} {A : Type ℓ} where
  pub length-map {κ} : {B : Type κ} (f : A → B) (xs : List A) → length (map f xs) ≡ length xs
  length-map f [] = refl
  length-map f (x ∷ xs) = ap suc (length-map f xs)

  pub length-keep : (p : A → Bool) (xs : List A) → length (keep p xs) ≡ count p xs
  unfolding keep count
  length-keep p [] = refl
  length-keep p (x ∷ xs) = ground (arith, length-keep p xs)

  pub count-le-length : (p : A → Bool) (xs : List A) → count p xs ≤ length xs
  unfolding count
  count-le-length p [] = omega arith
  count-le-length p (x ∷ xs) = ground (arith, count-le-length p xs)

  pub count-not : (p : A → Bool) (xs : List A) → count p xs + count (λ x. not (p x)) xs ≡ length xs
  unfolding count
  count-not p [] = omega arith
  count-not p (x ∷ xs) = ground (arith, count-not p xs)

  pub All-append {κ} : (P : A → Type κ) (xs ys : List A) → All P xs → All P ys → All P (xs ++ ys)
  All-append P [] ys hx hy = hy
  All-append P (x ∷ xs) ys hx hy = (hx.0, All-append P xs ys hx.1 hy)

  pub All-map {κ} : (P Q : A → Type κ) (xs : List A) → ((x : A) → P x → Q x) → All P xs → All Q xs
  All-map P Q [] f h = tt
  All-map P Q (x ∷ xs) f h = (f x h.0, All-map P Q xs f h.1)

  any-get_elem?-here :
      (p : A → Bool) (x : A) (xs : List A)
      → (any p xs ≡ true → (i : ℕ) × (y : A) × (get_elem? xs i ≡ some y) × (p y ≡ true))
      → (b : Bool) → p x ≡ b
      → (b || any p xs) ≡ true
      → (i : ℕ) × (y : A) × (get_elem? (x ∷ xs) i ≡ some y) × (p y ≡ true)
  any-get_elem?-here p x xs later true e h = (0, x, refl, e)
  any-get_elem?-here p x xs later false e h = let (i, y, at, k) = later h in (suc i, y, at, k)

  pub get_elem?-any :
      (p : A → Bool) (xs : List A) (i : ℕ) (y : A)
      → get_elem? xs i ≡ some y
      → p y ≡ true
      → any p xs ≡ true
  unfolding any
  get_elem?-any p [] i y at h = absurd cc
  get_elem?-any p (x ∷ xs) zero y at h = rw (some-injective x y at, h) refl
  get_elem?-any p (x ∷ xs) (suc i) y at h = ground (arith, get_elem?-any p xs i y at h)

  -- `any` is true exactly if an item passes.
  pub any-get_elem? :
      (p : A → Bool) (xs : List A)
      → (any p xs ≡ true) ↔ ((i : ℕ) × (x : A) × (get_elem? xs i ≡ some x) × (p x ≡ true))
  unfolding any
  any-get_elem? p [] = (λ h. absurd cc, λ (i, x, at, h). absurd cc)
  any-get_elem? p (x ∷ xs) = (
    any-get_elem?-here p x xs (any-get_elem? p xs).0 (p x) refl,
    λ (i, y, at, h). get_elem?-any p (x ∷ xs) i y at h,
  )

  -- What a comprehension keeps passes its test.
  pub keep-All : (p : A → Bool) (xs : List A) → All (λ x. p x ≡ true) (keep p xs)
  unfolding keep
  keep-All p [] = tt
  keep-All p (x ∷ xs) = ground (arith, keep-All p xs)
