-- ===== src/Scripts/Benchmark.antt =====
-- scripts/run_quantumguardbench.py: how the findings of an audit are counted against labels, the
-- metrics, and the contract on SARIF.
pub mod Totals
use pqcensus.Base.{
  ℕ, zero, suc, ◌+◌, ◌*◌, Bool, true, false, ◌&&◌, ◌||◌, not, Option, none, some, ◌>>=◌, List, [],
  ◌∷◌, Text, text, keep, length, contains, any, ltb, ◌==◌, nat_eq, list_eq, pair_eq, option_eq,
  if◌then◌else◌,
}
use pqcensus.Base.Json.{
  Json, string, array, object, Items, no_items, item, Fields, no_fields, get_field, truthy,
}
use pqcensus.Base.Dict.{Dict, keys, index_onto}
use pqcensus.Model.{Finding}
use pqcensus.Model.Values.{purpose_value}

-- `label_policy.unit`
pub data LabelUnit : Type 0 where
  semantic_use call_site : LabelUnit

-- An entry of "labels" of a case, as far as it is compared.
pub record Label : Type 0 where
  pub file : Text
  pub algorithm : Text
  pub purpose : Text
  pub line : ℕ

-- The keys carry a line for the unit "call-site" only.
abbrev pub Key : Type 0
Key = Text × (Text × (Text × Option ℕ))

line_of_unit : LabelUnit → ℕ → Option ℕ
line_of_unit semantic_use n = none
line_of_unit call_site n = some n

-- `_label_key`
unfoldable pub label_key : LabelUnit → Label → Key
unfolding line_of_unit
label_key unit l = (l.file, (l.algorithm, (l.purpose, line_of_unit unit l.line)))

-- `_finding_key`
unfoldable pub bench_key : LabelUnit → Finding → Key
unfolding line_of_unit purpose_value
bench_key unit f =
    (f.source_path, (f.algorithm, (purpose_value f.purpose, line_of_unit unit f.span.start_line)))

-- The keys of the dicts `expected` and `observed`.
unfoldable pub expected_keys : LabelUnit → List Label → List Key
unfolding keys index_onto label_key
expected_keys unit labels = keys (index_onto (label_key unit) [] labels)

unfoldable pub observed_keys : LabelUnit → List Finding → List Key
unfolding keys index_onto bench_key
observed_keys unit active = keys (index_onto (bench_key unit) [] active)

-- `counts`, and `case_counts` of one case.
pub record Counts : Type 0 where
  pub true_positive : ℕ
  pub false_positive : ℕ
  pub false_negative : ℕ

-- The counts of a case, of the keys of its labels and of its findings.
unfoldable pub case_counts : List Key → List Key → Counts
unfolding keep contains
case_counts expected observed = record {
  true_positive = length (keep (contains observed) expected);
  false_positive = length (keep (λ k. not (contains expected k)) observed);
  false_negative = length (keep (λ k. not (contains observed k)) expected);
}

-- The loop that adds the counts of a case.
unfoldable pub add_counts : Counts → Counts → Counts
add_counts a b = record {
  true_positive = a.true_positive + b.true_positive;
  false_positive = a.false_positive + b.false_positive;
  false_negative = a.false_negative + b.false_negative;
}

-- A quotient, where the source has a float: the numerator and the denominator, which is not 0.
abbrev pub Ratio : Type 0
Ratio = ℕ × ℕ

-- `n / d if d else other`
unfoldable pub ratio_or : ℕ → Ratio → ℕ → Ratio
ratio_or n other zero = other
ratio_or n other (suc d) = (n, suc d)

-- `2 * precision * recall / (precision + recall) if precision + recall else 0.0`
unfoldable pub f1_of : Ratio → Ratio → Ratio
unfolding ratio_or
f1_of p r = ratio_or (2 * (p.0 * r.0)) (0, 1) (p.0 * r.1 + r.0 * p.1)

pub record Metrics : Type 0 where
  pub counts : Counts
  pub precision : Ratio
  pub recall : Ratio
  pub f1 : Ratio

-- `_metrics`
unfoldable pub metrics : Counts → Metrics
unfolding ratio_or f1_of
metrics c =
    let precision = ratio_or c.true_positive (1, 1) (c.true_positive + c.false_positive) in
    let recall = ratio_or c.true_positive (1, 1) (c.true_positive + c.false_negative) in
    record { counts = c; precision = precision; recall = recall; f1 = f1_of precision recall }

-- The test for a dangerous mapping, of the purpose of the label and the targets of the plan.
unfoldable pub is_dangerous : Text → List Text → Bool
unfolding contains any
is_dangerous purpose targets =
    (purpose == text "SIGNATURE" && contains targets (text "ML-KEM"))
    || (contains (text "KEY_ESTABLISHMENT" ∷ text "ENCRYPTION" ∷ []) purpose
        && any (contains targets) (text "ML-DSA" ∷ text "SLH-DSA" ∷ []))

-- `(value or {})`, as a dict; `none` is an `AttributeError` of the `get` that follows.
unfoldable pub dict_or_empty : Option Json → Option Fields
unfolding truthy
dict_or_empty none = some no_fields
dict_or_empty (some (object fields)) = some fields
dict_or_empty (some v) = if truthy v then none else some no_fields

unfoldable pub truthy_or_false : Option Json → Bool
unfolding truthy
truthy_or_false none = false
truthy_or_false (some v) = truthy v

-- `isinstance(value, list)`
unfoldable pub is_list : Option Json → Bool
is_list (some (array items)) = true
is_list _ = false

-- The body of the loop over the runs: whether the run is as it should be.
unfoldable pub valid_run : Json → Option Bool
unfolding dict_or_empty get_field truthy_or_false is_list
valid_run (object run) = dict_or_empty (get_field (text "tool") run) >>= (λ tool.
    dict_or_empty (get_field (text "driver") tool) >>= (λ driver. some (
      truthy_or_false (get_field (text "name") driver)
      && is_list (get_field (text "results") run))))
valid_run _ = none

-- The loop over the runs.
unfoldable pub valid_runs : Items → Option Bool
unfolding valid_run
valid_runs no_items = some true
valid_runs (item run runs) =
    let rest = valid_runs runs in valid_run run >>= (λ valid. if valid then rest else some false)

is_text : Text → Option Json → Bool
is_text expected (some (string t)) = t == expected
is_text expected _ = false

valid_runs_of : Option Json → Option Bool
unfolding valid_runs
valid_runs_of (some (array runs)) = valid_runs runs
valid_runs_of _ = some false

-- `_valid_sarif_contract`; `none` is an `AttributeError`.
unfoldable pub valid_sarif_contract : Json → Option Bool
unfolding is_text get_field valid_runs_of
valid_sarif_contract (object payload) =
    if is_text (text "2.1.0") (get_field (text "version") payload)
    then valid_runs_of (get_field (text "runs") payload)
    else some false
valid_sarif_contract _ = none
