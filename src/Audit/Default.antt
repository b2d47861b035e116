-- ===== src/Audit/Default.antt =====
-- `audit` of src/quantumguard/api.py as a whole, with the analyzers of src/quantumguard/analyzers, which an
-- empty list of analyzers stands for.
pub mod Active
pub mod Outcome
use pqcensus.Base.{
  ℕ, Bool, true, false, ◌&&◌, not, Option, none, some, List, [], ◌∷◌, Text, text, any, nat_eq,
  list_eq, if◌then◌else◌,
}
use pqcensus.Model.{Finding}
use pqcensus.Model.Values.{is_unnameable}
use pqcensus.Policy.{Rule}
use pqcensus.Hndl.{HndlInputs}
use pqcensus.Suppressions.{ParserError}
use pqcensus.Analyzers.Config.Analysis.{Parsers, analyze, analyze_raises}
use pqcensus.Analyzers.Textual.Analysis.{analyze_text, text_extensions}
use pqcensus.Analyzers.Python.Analysis.{Parsed, analyze_python}
use pqcensus.Audit.{Analyzer, AnalyzerKind, Limits, ArgumentError, argument_error, stops}
use pqcensus.Audit.Complete.{AuditResult, Repository, scan, audit_repository}

-- The attribute `extensions` of `ConfigAnalyzer`.
abbrev config_extensions : List Text
config_extensions = text ".json" ∷ text ".toml" ∷ text ".yaml" ∷ text ".yml" ∷ []

findings_or_none : Option (List Finding × List ParserError) → List Finding
findings_or_none none = []
findings_or_none (some r) = r.0

errors_or_none : Option (List Finding × List ParserError) → List ParserError
errors_or_none none = []
errors_or_none (some r) = r.1

-- What the analyzers call: the parsers of the configuration, `ast.parse` with `ast.walk`, and
-- `str.isalnum` beyond ASCII.
pub record Tools : Type 0 where
  pub parsers : Parsers
  pub parse_python : Text → Text → Parsed
  pub isalnum : ℕ → Bool

-- What `audit` comes to: an error of its arguments, another error, or a result.
pub data Audited : Type 0 where
  refused : ArgumentError → Audited
  raised : Audited
  audited : AuditResult → Audited

is_none : Option (List Finding × List ParserError) → Bool
is_none none = true
is_none (some r) = false

module _ (tools : Tools) (rules : List Rule) where
  -- The analyzer of Python.
  unfoldable pub python_analyzer : Analyzer
  unfolding analyze_python findings_or_none errors_or_none is_none
  python_analyzer = record {
    kind = AnalyzerKind.python;
    analyze = λ path source.
        findings_or_none
          (analyze_python tools.parsers.sha256 rules path source (tools.parse_python path source));
    errors = λ path source.
        errors_or_none
          (analyze_python tools.parsers.sha256 rules path source (tools.parse_python path source));
    raises = λ path source.
        is_none
          (analyze_python tools.parsers.sha256 rules path source (tools.parse_python path source));
  }

  unfoldable pub text_analyzer : Analyzer
  unfolding analyze_text is_unnameable any
  text_analyzer = record {
    kind = AnalyzerKind.by_extensions text_extensions;
    analyze = analyze_text tools.parsers.sha256 tools.isalnum rules;
    errors = λ path source. [];
    raises = λ path source.
        any is_unnameable (analyze_text tools.parsers.sha256 tools.isalnum rules path source);
  }

  unfoldable pub config_analyzer : Analyzer
  unfolding analyze analyze_raises
  config_analyzer = record {
    kind = AnalyzerKind.by_extensions config_extensions;
    analyze = analyze tools.parsers rules;
    errors = λ path source. [];
    raises = analyze_raises tools.parsers rules;
  }

  unfoldable pub default_analyzers : List Analyzer
  unfolding python_analyzer text_analyzer config_analyzer
  default_analyzers = python_analyzer ∷ text_analyzer ∷ config_analyzer ∷ []

  -- `analyzers or (PythonAnalyzer(), ExperimentalTextAnalyzer(), ConfigAnalyzer())`
  unfoldable pub selected_analyzers : List Analyzer → List Analyzer
  unfolding default_analyzers
  selected_analyzers [] = default_analyzers
  selected_analyzers (a ∷ analyzers) = a ∷ analyzers

  unfoldable pub result_or_raised : Option AuditResult → Audited
  result_or_raised none = raised
  result_or_raised (some r) = audited r

  -- `audit`
  unfoldable pub audit : Text → Repository → List Analyzer → Limits → HndlInputs → Audited
  unfolding argument_error selected_analyzers stops scan audit_repository result_or_raised any
  audit version repository analyzers limits inputs =
      let selected = selected_analyzers analyzers in
      elim (argument_error repository.symlink repository.is_directory limits
        inputs.confidentiality_lifetime_years) [
          | some error ↦ refused error
          | none ↦
              if any (stops selected) (scan limits repository).selected
              then raised
              else result_or_raised
                  (audit_repository tools.parsers.sha256 version repository selected limits inputs)
        ]
