-- ===== src/Analyzers/Config/Analysis.antt =====
-- src/quantumguard/analyzers/config.py: `analyze`, `_pairs` and `_line_number`.
use pqcensus.Base.{
  ℕ, suc, Bool, ◌||◌, any, true, Option, none, some, List, [], ◌∷◌, ◌++◌, Text, text, lower, occurs,
  length, get_elem?, nat_eq, list_eq, ◌==◌, if◌then◌else◌, ◌-◌,
}
use pqcensus.Base.Json.{Json}
use pqcensus.Analyzers.Common.{environment_of, rule_id_of, splitlines}
use pqcensus.Model.{Finding, Purpose, Confidence, Status, SourceSpan}
use pqcensus.Model.Values.{stable_id, is_unnameable}
use pqcensus.Policy.{Rule, algorithm_status, default_severity, references_for, targets_for}
use pqcensus.Util.Algorithms.{algorithm_display}
use pqcensus.Util.Paths.{path_suffix, test_only_path}
use pqcensus.Analyzers.Config.Names.{is_interesting, classify}
use pqcensus.Analyzers.Config.Pairs.{flatten_option, line_pairs}

-- `Confidence.MEDIUM if targets else Confidence.UNKNOWN`
confidence_of : List Text → Confidence
confidence_of [] = Confidence.unknown
confidence_of (t ∷ ts) = Confidence.medium

-- What the analyzer calls: the parsers, `none` where they raise an error in decoding; whether the parser
-- for a suffix raises another error for a text, as that of JSON does at an integer of too many digits;
-- `repr`, and the hash.
pub record Parsers : Type 0 where
  pub json_loads : Text → Option Json
  pub toml_loads : Text → Option Json
  pub raises : Text → Text → Bool
  pub repr : Text → Text
  pub sha256 : Text → Text

-- The loop of `_line_number`.
unfoldable pub line_number_from : ℕ → List Text → Text → ℕ
unfolding occurs
line_number_from n [] value = 1
line_number_from n (line ∷ lines) value =
    if occurs value line then n else line_number_from (suc n) lines value

-- `_line_number`
unfoldable pub line_number : Text → Text → ℕ
unfolding splitlines line_number_from
line_number source value = line_number_from 1 (splitlines source) value

length_or_zero : Option Text → ℕ
length_or_zero none = 0
length_or_zero (some line) = length line

-- `SourceSpan(line, 0, line, len(lines[line - 1]) if lines else 0)`
unfoldable pub span_of : Text → Text → SourceSpan
unfolding line_number splitlines length_or_zero
span_of source value =
    let line = line_number source value in
    record {
      start_line = line;
      start_column = 0;
      end_line = some line;
      end_column = some (length_or_zero (get_elem? (splitlines source) (line - 1)));
    }

module _ (p : Parsers) (rules : List Rule) where
  -- `_pairs`
  unfoldable pub pairs_of : Text → Text → List (Text × Text)
  unfolding flatten_option line_pairs splitlines
  pairs_of suffix source =
      if suffix == text ".json"
      then flatten_option (p.json_loads source)
      else if suffix == text ".toml"
      then flatten_option (p.toml_loads source)
      else line_pairs (splitlines source)

  -- The finding for a pair that is classified.
  unfoldable pub finding_of : Text → Text → Text → Text → Text → Purpose → Finding
  unfolding confidence_of span_of stable_id rule_id_of environment_of test_only_path references_for
      targets_for
  finding_of rel source key value algorithm purpose =
      let detail = text "structured config " ++ key ++ text "=" ++ value in
      let targets = targets_for rules algorithm purpose in
      let refs = references_for rules algorithm purpose in
      let span = span_of source value in
      record {
        finding_id =
            stable_id p.sha256 (rule_id_of rules algorithm purpose) rel span algorithm purpose
              detail;
        rule_id = rule_id_of rules algorithm purpose;
        category = text "protocol-configuration";
        algorithm = algorithm;
        purpose = purpose;
        source_path = rel;
        span = span;
        symbol = some key;
        evidence =
            record {
              evidence_type = text "structured_config";
              detail = detail;
              snippet_sha256 = some (p.sha256 value);
              references = refs;
            }
            ∷ [];
        confidence = Confidence.medium;
        quantum_risk = algorithm_status algorithm;
        severity = default_severity algorithm purpose (test_only_path rel);
        rationale =
            text "A cryptographic primitive is selected by the structured configuration key "
            ++ p.repr key
            ++ text ".";
        migration_target = targets;
        migration_confidence = confidence_of targets;
        references = refs;
        suppressible = true;
        analyzer = text "structured-config";
        environment = environment_of (test_only_path rel);
        status = Status.active;
        suppression = none;
      }

  -- The loop of `analyze`.
  unfoldable pub findings_of : Text → Text → List (Text × Text) → List Finding
  unfolding is_interesting classify finding_of algorithm_display
  findings_of rel source [] = []
  findings_of rel source ((key, value) ∷ pairs) =
      let rest = findings_of rel source pairs in
      if is_interesting key
      then elim (classify key value) [
        | none ↦ rest
        | some c ↦ finding_of rel source key value (algorithm_display c.0) c.1 ∷ rest
      ]
      else rest

  -- `analyze`, of the path relative to the root.
  unfoldable pub analyze : Text → Text → List Finding
  unfolding findings_of pairs_of path_suffix lower
  analyze rel source = findings_of rel source (pairs_of (lower (path_suffix rel)) source)

  -- Whether `analyze` raises: in the parser, or in `stable_id`.
  unfoldable pub analyze_raises : Text → Text → Bool
  unfolding analyze is_unnameable any path_suffix lower
  analyze_raises rel source =
      p.raises (lower (path_suffix rel)) source || any is_unnameable (analyze rel source)
