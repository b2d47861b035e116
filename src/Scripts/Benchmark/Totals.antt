-- ===== src/Scripts/Benchmark/Totals.antt =====
-- The counts and the metrics of scripts/run_quantumguardbench.py.
use pqcensus.Base.{
  ℕ, zero, suc, ◌+◌, ◌≤◌, ◌<◌, false, not, ◌≡◌, refl, sym, none, List, [], ◌∷◌, length, count,
  contains, length-keep, count-not, arith, if◌then◌else◌, Eq, ◌==◌, ==_iff, nat_eq, list_eq,
  pair_eq, option_eq,
}
use pqcensus.Base.Dict.{Dict, NodupKeys, keys, lookup, index_onto, index_onto-NodupKeys}
use pqcensus.Model.{Finding}
use pqcensus.Scripts.Benchmark.{
  Key, Label, LabelUnit, Counts, Ratio, label_key, bench_key, expected_keys, observed_keys,
  case_counts, ratio_or, metrics,
}

module _ {ℓ} {A : Type ℓ} ⦃e : Eq A⦄ where
  -- A list holds nothing twice.
  abbrev IsDistinct : List A → Type 0
  IsDistinct [] = Unit
  IsDistinct (k ∷ ks) = (contains ks k ≡ false) × IsDistinct ks

  keys-contains {κ} :
      {V : Type κ} (k : A) (d : Dict A V) → lookup k d ≡ none → contains (keys d) k ≡ false
  unfolding contains keys lookup
  keys-contains k [] h = refl
  keys-contains k ((j, v) ∷ d) h = ground (arith, keys-contains k d)

  keys-IsDistinct {κ} : {V : Type κ} (d : Dict A V) → NodupKeys d → IsDistinct (keys d)
  unfolding keys
  keys-IsDistinct [] u = tt
  keys-IsDistinct ((k, v) ∷ d) (fresh, u) = (keys-contains k d fresh, keys-IsDistinct d u)

  count-one :
      (k : A) (ys : List A)
      → IsDistinct ys
      → count (λ y. y == k) ys ≡ (if contains ys k then 1 else 0)
  unfolding count contains
  count-one k [] u = refl
  count-one k (y ∷ ys) (fresh, u) = ground (arith, count-one k ys u, ==_iff y k, ==_iff k y, fresh)

  count-contains-cons :
      (k : A) (ks ys : List A)
      → contains ks k ≡ false
      → count (contains (k ∷ ks)) ys ≡ count (λ y. y == k) ys + count (contains ks) ys
  unfolding count contains
  count-contains-cons k ks [] h = omega arith
  count-contains-cons k ks (y ∷ ys) h = ground (arith, count-contains-cons k ks ys h, ==_iff y k)

  count-false : (ys : List A) → count (contains []) ys ≡ 0
  unfolding count contains
  count-false [] = refl
  count-false (y ∷ ys) = count-false ys

  -- As many of one list stand in the other as the other way round.
  count-contains :
      (xs ys : List A)
      → IsDistinct xs
      → IsDistinct ys
      → count (contains ys) xs ≡ count (contains xs) ys
  unfolding count
  count-contains [] ys u v = sym (count-false ys)
  count-contains (k ∷ ks) ys (fresh, u) v =
      ground (arith, count-contains ks ys u v, count-contains-cons k ks ys fresh, count-one k ys v)

-- A quotient between 0 and 1.
abbrev pub IsShare : Ratio → Type 0
IsShare r = (r.0 ≤ r.1) × (0 < r.1)

ratio_or-IsShare : (n d : ℕ) → n ≤ d → IsShare (ratio_or n (1, 1) d)
unfolding ratio_or
ratio_or-IsShare n zero h = (omega arith, omega arith)
ratio_or-IsShare n (suc d) h = (h, omega arith)

case_counts-keys :
    (expected observed : List Key)
    → IsDistinct expected
    → IsDistinct observed
    → let c = case_counts expected observed in
      (c.true_positive + c.false_negative ≡ length expected)
      × (c.true_positive + c.false_positive ≡ length observed)
unfolding case_counts
case_counts-keys expected observed u v =
    let hits = length-keep (contains observed) expected in
    let misses = length-keep (λ k. not (contains observed k)) expected in
    let extras = length-keep (λ k. not (contains expected k)) observed in
    let same = count-contains expected observed u v in
    (
      omega (arith, hits, misses, count-not (contains observed) expected),
      omega (arith, hits, extras, same, count-not (contains expected) observed),
    )

expected_keys-IsDistinct :
    (unit : LabelUnit) (labels : List Label) → IsDistinct (expected_keys unit labels)
unfolding expected_keys
expected_keys-IsDistinct unit labels =
    keys-IsDistinct (index_onto (label_key unit) [] labels)
      (index_onto-NodupKeys (label_key unit) [] labels tt)

observed_keys-IsDistinct :
    (unit : LabelUnit) (active : List Finding) → IsDistinct (observed_keys unit active)
unfolding observed_keys
observed_keys-IsDistinct unit active =
    keys-IsDistinct (index_onto (bench_key unit) [] active)
      (index_onto-NodupKeys (bench_key unit) [] active tt)

metrics-IsShare : (c : Counts) → IsShare (metrics c).precision × IsShare (metrics c).recall
unfolding metrics
metrics-IsShare c = (
  ratio_or-IsShare c.true_positive (c.true_positive + c.false_positive) (omega arith),
  ratio_or-IsShare c.true_positive (c.true_positive + c.false_negative) (omega arith),
)

-- In the counts of a benchmark case, the true positives with the false negatives are the different keys
-- of the labels, and with the false positives the different keys of the findings; precision and recall
-- are defined and lie between 0 and 1.
pub case_counts_lem :
    (unit : LabelUnit) (labels : List Label) (active : List Finding)
    → let c = case_counts (expected_keys unit labels) (observed_keys unit active) in
      (c.true_positive + c.false_negative ≡ length (expected_keys unit labels))
      × (c.true_positive + c.false_positive ≡ length (observed_keys unit active))
      × IsShare (metrics c).precision
      × IsShare (metrics c).recall
case_counts_lem unit labels active =
    let e = expected_keys unit labels in
    let o = observed_keys unit active in
    let (found, seen) =
      case_counts-keys e o (expected_keys-IsDistinct unit labels)
        (observed_keys-IsDistinct unit active) in
    let (precise, complete) = metrics-IsShare (case_counts e o) in (found, seen, precise, complete)
