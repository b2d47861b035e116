-- ===== src/Analyzers/Textual/Analysis.antt =====
-- src/quantumguard/analyzers/textual.py: `analyze` and `_strip_comments`.
use pqcensus.Base.{
  ℕ, suc, Bool, true, Option, none, some, List, [], ◌∷◌, ◌++◌, Text, text, lower, strip, before,
  contains, non_empty, nat_eq, list_eq, if◌then◌else◌,
}
use pqcensus.Analyzers.Common.{environment_of, rule_id_of, splitlines}
use pqcensus.Model.{Finding, Confidence, Status, SourceSpan}
use pqcensus.Model.Values.{stable_id}
use pqcensus.Policy.{Rule, algorithm_status, default_severity, references_for, targets_for}
use pqcensus.Util.Algorithms.{algorithm_display}
use pqcensus.Util.Paths.{path_suffix, test_only_path}
use pqcensus.Analyzers.Textual.Patterns.{Pattern, patterns, first_match}

-- The languages without comments that begin with `#`.
abbrev pub slash_languages : List Text
slash_languages =
    text ".go"
    ∷ text ".java"
    ∷ text ".rs"
    ∷ text ".c"
    ∷ text ".h"
    ∷ text ".cc"
    ∷ text ".cpp"
    ∷ text ".cxx"
    ∷ text ".hpp"
    ∷ []

-- The attribute `extensions`.
abbrev pub text_extensions : List Text
text_extensions = text ".js" ∷ text ".jsx" ∷ text ".ts" ∷ text ".tsx" ∷ slash_languages

-- `_strip_comments`
unfoldable pub strip_comments : Text → Text → Text
unfolding before contains
strip_comments line suffix =
    if contains slash_languages suffix
    then before (text "//") line
    else before (text "#") (before (text "//") line)

-- `Confidence.LOW if targets else Confidence.UNKNOWN`
unfoldable pub low_or_unknown : List Text → Confidence
low_or_unknown [] = Confidence.unknown
low_or_unknown (t ∷ ts) = Confidence.low

-- `isalnum` says which characters beyond ASCII are letters or digits.
module _ (isalnum : ℕ → Bool) where
  -- What a line holds outside its comments, if it is not blank and a pattern matches.
  unfoldable pub line_match : Text → Text → Option (Pattern × (ℕ × ℕ))
  unfolding strip_comments strip first_match patterns
  line_match suffix line =
      let code = strip_comments line suffix in
      if non_empty (strip code) then first_match isalnum patterns code else none

module _ (sha256 : Text → Text) (isalnum : ℕ → Bool) (rules : List Rule) where
  -- The finding of a match, of the path, the extension, the line and its number.
  unfoldable pub token_finding : Text → Text → Text → ℕ → Pattern → ℕ × ℕ → Finding
  unfolding stable_id rule_id_of environment_of test_only_path references_for targets_for
      algorithm_display strip low_or_unknown
  token_finding rel suffix line number pattern found =
      let algorithm = algorithm_display pattern.algorithm in
      let targets = targets_for rules algorithm pattern.purpose in
      let refs = references_for rules algorithm pattern.purpose in
      let detail = text "line token: " ++ pattern.detail in
      let span : SourceSpan = record {
        start_line = number;
        start_column = found.0;
        end_line = some number;
        end_column = some found.1;
      } in
      record {
        finding_id =
            stable_id sha256 (rule_id_of rules algorithm pattern.purpose) rel span algorithm
              pattern.purpose detail;
        rule_id = rule_id_of rules algorithm pattern.purpose;
        category = text "cryptographic-use";
        algorithm = algorithm;
        purpose = pattern.purpose;
        source_path = rel;
        span = span;
        symbol = none;
        evidence =
            record {
              evidence_type = text "token";
              detail = detail;
              snippet_sha256 = some (sha256 (strip line));
              references = refs;
            }
            ∷ [];
        confidence = Confidence.low;
        quantum_risk = algorithm_status algorithm;
        severity = default_severity algorithm pattern.purpose (test_only_path rel);
        rationale =
            text "Experimental "
            ++ suffix
            ++ text " text evidence found "
            ++ algorithm
            ++ text "; semantic resolution is not yet claimed.";
        migration_target = targets;
        migration_confidence = low_or_unknown targets;
        references = refs;
        suppressible = true;
        analyzer = text "experimental-text";
        environment = environment_of (test_only_path rel);
        status = Status.active;
        suppression = none;
      }

  -- The loop over the lines, from a number on.
  unfoldable pub analyze_lines : Text → Text → ℕ → List Text → List Finding
  unfolding line_match token_finding
  analyze_lines rel suffix number [] = []
  analyze_lines rel suffix number (line ∷ lines) =
      let rest = analyze_lines rel suffix (suc number) lines in
      elim (line_match isalnum suffix line) [
        | none ↦ rest
        | some m ↦ token_finding rel suffix line number m.0 m.1 ∷ rest
      ]

  -- `analyze`, of the path relative to the root.
  unfoldable pub analyze_text : Text → Text → List Finding
  unfolding analyze_lines splitlines path_suffix lower contains
  analyze_text rel source =
      let suffix = lower (path_suffix rel) in
      if contains text_extensions suffix then analyze_lines rel suffix 1 (splitlines source) else []
