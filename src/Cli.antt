-- ===== src/Cli.antt =====
-- src/quantumguard/cli.py: the baseline of an audit, what has changed since it, and the exit
-- status of the commands.
pub mod Baselines
pub mod Commands
pub mod Explain
pub mod ExitStatus
use pqcensus.Base.{
  ℕ, Bool, true, false, ◌&&◌, ◌||◌, not, Option, none, some, List, [], ◌∷◌, Text, text, map, keep,
  any, upper, ◌==◌, leb, contains, nat_eq, list_eq, if◌then◌else◌,
}
use pqcensus.Base.Json.{
  Json, boolean, integer, float, string, array, object, Items, no_items, item, document, number,
  strings, get_field,
}
use pqcensus.Base.Sort.{sorted, nat_ord, list_ord}
use pqcensus.Model.{Finding}
use pqcensus.Model.Values.{is_active, severity_value}
use pqcensus.Util.Severities.{severity_rank}

-- A set of texts, as a list that holds each once, in the order in which they came.
unfoldable pub distinct : List Text → List Text
unfolding contains
distinct [] = []
distinct (t ∷ ts) = t ∷ keep (λ s. not (s == t)) (distinct ts)

-- `[item.finding_id for item in result.findings if item.status == "active"]`
unfoldable pub active_ids : List Finding → List Text
unfolding is_active keep
active_ids fs = map (λ f. f.finding_id) (keep (λ f. is_active f.status) fs)

pub record Baseline : Type 0 where
  pub schema_version : ℕ
  pub tool_version : Text
  pub repository : Text
  pub finding_ids : List Text

-- `_baseline_document`, of the findings, the version and the repository's name of a result.
unfoldable pub baseline_document : List Finding → Text → Text → Baseline
unfolding active_ids sorted
baseline_document fs generated_by repository = record {
  schema_version = 1;
  tool_version = generated_by;
  repository = repository;
  finding_ids = sorted (λ t. t) (active_ids fs);
}

-- `_baseline_document` as the document that is written.
unfoldable pub baseline_dict : Baseline → Json
unfolding document number strings
baseline_dict b = document (
    (text "schema_version", number b.schema_version)
    ∷ (text "tool_version", string b.tool_version)
    ∷ (text "repository", string b.repository)
    ∷ (text "finding_ids", strings b.finding_ids)
    ∷ [])

-- `value == 1`, of a value that may be missing: also the float and `True` are equal to 1.
unfoldable pub is_one : Option Json → Bool
is_one (some (integer is_zero t)) = t == text "1"
is_one (some (float is_zero t)) = t == text "1.0"
is_one (some (boolean b)) = b
is_one _ = false

module _ (to_text : Json → Text) where
  -- `str(value)`; of a value that is no string, `str` is the parameter.
  unfoldable pub str : Json → Text
  str (string t) = t
  str v = to_text v

  -- `str(value) for value in values`
  unfoldable pub strs : Items → List Text
  unfolding str
  strs no_items = []
  strs (item v items) = str v ∷ strs items

  -- The set of identifiers, of the value of "finding_ids": it must be a list.
  unfoldable pub baseline_ids : Option Json → Option (List Text)
  unfolding strs distinct
  baseline_ids (some (array items)) = some (distinct (strs items))
  baseline_ids _ = none

  -- `_load_baseline`, of what `json.loads` returns: `none` is the `ValueError`, or the `AttributeError` of a
  -- document that is no table.
  unfoldable pub load_baseline : Json → Option (List Text)
  unfolding is_one baseline_ids get_field
  load_baseline (object fs) =
      if is_one (get_field (text "schema_version") fs)
      then baseline_ids (get_field (text "finding_ids") fs)
      else none
  load_baseline _ = none

pub record BaselineDiff : Type 0 where
  pub new_ids : List Text
  pub fixed : List Text
  pub unchanged : List Text

-- `_baseline_diff`
unfoldable pub baseline_diff : List Finding → List Text → BaselineDiff
unfolding distinct active_ids sorted contains
baseline_diff fs baseline =
    let current = distinct (active_ids fs) in
    record {
      new_ids = sorted (λ t. t) (keep (λ t. not (contains baseline t)) current);
      fixed = sorted (λ t. t) (keep (λ t. not (contains current t)) baseline);
      unchanged = sorted (λ t. t) (keep (λ t. contains baseline t) current);
    }

abbrev pub exit_ok : ℕ
exit_ok = 0

abbrev pub exit_findings : ℕ
exit_findings = 1

abbrev pub exit_error : ℕ
exit_error = 3

-- The variable `candidates` of `_audit_command`.
unfoldable pub candidates_of : List Finding → Option BaselineDiff → List Finding
unfolding contains keep
candidates_of fs none = fs
candidates_of fs (some d) = keep (λ f. contains d.new_ids f.finding_id) fs

-- The test of the last `any`.
unfoldable pub reaches : Text → Finding → Bool
unfolding is_active severity_rank severity_value
reaches threshold f =
    is_active f.status && leb (severity_rank threshold) (severity_rank (severity_value f.severity))

-- The exit status of `_audit_command`, of the findings, the difference to the baseline and the
-- argument `--fail-on`.
unfoldable pub audit_exit : List Finding → Option BaselineDiff → Text → ℕ
unfolding candidates_of any upper
audit_exit fs diff fail_on =
    let threshold = upper fail_on in
    if threshold == text "NONE"
    then exit_ok
    else if any (reaches threshold) (candidates_of fs diff)
    then exit_findings
    else exit_ok
