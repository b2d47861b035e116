-- ===== src/Audit.antt =====
-- src/quantumguard/api.py: what `audit` makes of the analyzers' findings, and its assets.
pub mod Assets
pub mod Complete
pub mod Default
pub mod Findings
pub mod Unique
use pqcensus.Base.{
  ℕ, zero, suc, Bool, true, false, ◌&&◌, ◌||◌, not, Option, none, some, List, [], ◌∷◌, ◌++◌, Text,
  text, lower, contains, any, map, leb, min, nat_eq, list_eq, ◌==◌, if◌then◌else◌,
}
use pqcensus.Base.Int.{ℤ, pos, negsuc, leb_ℤ}
use pqcensus.Base.Dict.Indexed.{index_by}
use pqcensus.Base.Sort.{sorted, nat_ord, list_ord, pair_ord}
use pqcensus.Model.{Finding}
use pqcensus.Risk.{RiskContext, is_production, assess_finding}
use pqcensus.Suppressions.{Outside, LogEntry, ParserError, apply_suppressions}
use pqcensus.Util.Paths.{path_suffix}

-- What `audit` raises before it reads a file.
pub data ArgumentError : Type 0 where
  is_symlink no_directory limits_not_positive lifetime_negative : ArgumentError

pub record Limits : Type 0 where
  pub max_files : ℤ
  pub max_file_bytes : ℤ
  pub max_total_bytes : ℤ

-- `n <= 0`
is_zero_or_less : ℤ → Bool
is_zero_or_less (pos zero) = true
is_zero_or_less (pos (suc n)) = false
is_zero_or_less (negsuc n) = true

-- `min(max_files, max_file_bytes, max_total_bytes) <= 0`
unfoldable pub is_limit_exhausted : Limits → Bool
unfolding is_zero_or_less
is_limit_exhausted l =
    is_zero_or_less l.max_files
    || is_zero_or_less l.max_file_bytes
    || is_zero_or_less l.max_total_bytes

unfoldable pub is_negative_lifetime : Option ℤ → Bool
is_negative_lifetime (some (negsuc n)) = true
is_negative_lifetime _ = false

-- The guards of `audit`, of whether the path is a link and whether it is a directory.
unfoldable pub argument_error : Bool → Bool → Limits → Option ℤ → Option ArgumentError
unfolding is_limit_exhausted is_negative_lifetime
argument_error symlink directory limits lifetime =
    if symlink
    then some ArgumentError.is_symlink
    else if not directory
    then some ArgumentError.no_directory
    else if is_limit_exhausted limits
    then some ArgumentError.limits_not_positive
    else if is_negative_lifetime lifetime
    then some ArgumentError.lifetime_negative
    else none

-- The class of an analyzer, which decides the files that it sees, with the extensions that it
-- declares; and its `analyze`, of the path and the text: the findings, what it appends to `parser_errors`,
-- and whether it raises.
pub data AnalyzerKind : Type 0 where
  python : AnalyzerKind
  by_extensions : List Text → AnalyzerKind
  other : AnalyzerKind

pub record Analyzer : Type 0 where
  pub kind : AnalyzerKind
  pub analyze : Text → Text → List Finding
  pub errors : Text → Text → List ParserError
  pub raises : Text → Text → Bool

unfoldable pub sees : AnalyzerKind → Text → Bool
unfolding contains path_suffix lower
sees AnalyzerKind.python path = lower (path_suffix path) == text ".py"
sees (AnalyzerKind.by_extensions extensions) path = contains extensions (lower (path_suffix path))
sees AnalyzerKind.other path = true

-- The inner loop over the analyzers.
unfoldable pub analyze_file : List Analyzer → Text → Text → List Finding
unfolding sees
analyze_file [] path source = []
analyze_file (a ∷ analyzers) path source =
    let rest = analyze_file analyzers path source in
    if sees a.kind path then a.analyze path source ++ rest else rest

-- The loop over the files.
unfoldable pub analyze_files : List Analyzer → List (Text × Text) → List Finding
unfolding analyze_file
analyze_files analyzers [] = []
analyze_files analyzers ((path, source) ∷ files) =
    analyze_file analyzers path source ++ analyze_files analyzers files

-- Whether an analyzer raises for a file.
unfoldable pub stops : List Analyzer → Text × Text → Bool
unfolding sees any
stops analyzers file = any (λ a. sees a.kind file.0 && a.raises file.0 file.1) analyzers

-- What the loop over the files appends to `parser_errors`.
unfoldable pub file_errors : List Analyzer → Text → Text → List ParserError
unfolding sees
file_errors [] path source = []
file_errors (a ∷ analyzers) path source =
    let rest = file_errors analyzers path source in
    if sees a.kind path then a.errors path source ++ rest else rest

unfoldable pub files_errors : List Analyzer → List (Text × Text) → List ParserError
unfolding file_errors
files_errors analyzers [] = []
files_errors analyzers ((path, source) ∷ files) =
    file_errors analyzers path source ++ files_errors analyzers files

-- The key of the order of findings.
unfoldable pub finding_key : Finding → Text × (ℕ × (ℕ × Text))
finding_key f = (f.source_path, (f.span.start_line, (f.span.start_column, f.finding_id)))

-- `unique`, and its values in order.
unfoldable pub unique_findings : List Finding → List Finding
unfolding index_by sorted finding_key
unique_findings fs = sorted finding_key (index_by (λ f. f.finding_id) fs)

-- `_deduplicate` of src/quantumguard/analyzers/python.py, which does the same.
unfoldable pub deduplicate : List Finding → List Finding
unfolding index_by sorted finding_key
deduplicate fs = sorted finding_key (index_by (λ f. f.finding_id) fs)

-- `exposure or "unknown"`
unfoldable pub exposure_or_unknown : Option Text → Text
exposure_or_unknown none = text "unknown"
exposure_or_unknown (some []) = text "unknown"
exposure_or_unknown (some (c ∷ t)) = c ∷ t

-- `lifetime is not None and lifetime >= 10`
unfoldable pub is_lifetime_ten : Option ℤ → Bool
is_lifetime_ten none = false
is_lifetime_ten (some years) = leb_ℤ (pos 10) years

-- `exposure in {"public", "internet", "external"}`
unfoldable pub is_reachable : Option Text → Bool
unfolding contains
is_reachable none = false
is_reachable (some e) = contains (text "public" ∷ text "internet" ∷ text "external" ∷ []) e

-- The context in which `audit` assesses a finding.
unfoldable pub context_of : Option Text → Option ℤ → Finding → RiskContext
unfolding exposure_or_unknown is_lifetime_ten is_reachable is_production
context_of exposure lifetime f = record {
  exposure = exposure_or_unknown exposure;
  data_lifetime_years = lifetime;
  trust_lifetime_years = none;
  public_reachability = exposure_or_unknown exposure;
  migration_complexity = text "unknown";
  production = is_production f.environment;
  hndl_relevant = if is_lifetime_ten lifetime && is_reachable exposure then some true else none;
}

-- The findings that `audit` returns, with the log of suppressions and the errors of the configuration:
-- those of the analyzers, one for each identifier, in order, assessed, and suppressed. `none` is an error in the
-- suppressions.
unfoldable pub audit_findings :
    Outside
    → List Analyzer
    → Option Text
    → Option ℤ
    → List (Text × Text)
    → Option (List Finding × List LogEntry × List ParserError)
unfolding apply_suppressions unique_findings analyze_files assess_finding context_of
audit_findings o analyzers exposure lifetime files = apply_suppressions o (
    map (λ f. assess_finding f (some (context_of exposure lifetime f)))
      (unique_findings (analyze_files analyzers files)))
