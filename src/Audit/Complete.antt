-- ===== src/Audit/Complete.antt =====
-- `audit` of src/quantumguard/api.py from the analyzers' findings on, and its result, `AuditResult` of
-- src/quantumguard/models.py.
use pqcensus.Base.{
  ℕ, Bool, Option, none, some, if◌then◌else◌, List, [], ◌∷◌, ◌++◌, Text, text, length,
}
use pqcensus.Base.Int.{pos_part}
use pqcensus.Base.Sort.{sorted, nat_ord, list_ord}
use pqcensus.Model.{Finding}
use pqcensus.Model.Result.{CryptoAsset, MigrationPlan, Dependency}
use pqcensus.Agility.Components.{Components, components_of, overall_score}
use pqcensus.Hndl.{HndlInputs, HndlResult, assess_hndl}
use pqcensus.Migration.{build_migration_plans}
use pqcensus.Suppressions.{Outside, LogEntry, ParserError}
use pqcensus.Util.Walk.{Directory, Settings, Skipped, WalkState, iter_source_files}
use pqcensus.Audit.{Limits, Analyzer, files_errors, audit_findings}
use pqcensus.Audit.Assets.{assets, assets_raise}

pub record AuditResult : Type 0 where
  pub repository : Text
  pub files_analyzed : ℕ
  pub bytes_analyzed : ℕ
  pub parser_errors : List ParserError
  pub findings : List Finding
  pub assets : List CryptoAsset
  pub dependencies : List Dependency
  pub migration_plans : List MigrationPlan
  pub agility_components : Components
  pub agility_score : ℕ
  pub hndl : HndlResult
  pub suppressions : List LogEntry
  pub limits : Limits
  pub skipped : Skipped
  pub generated_by : Text

abbrev default_extensions : List Text
default_extensions =
    text ".py"
    ∷ text ".js"
    ∷ text ".jsx"
    ∷ text ".ts"
    ∷ text ".tsx"
    ∷ text ".go"
    ∷ text ".java"
    ∷ text ".rs"
    ∷ text ".c"
    ∷ text ".h"
    ∷ text ".cc"
    ∷ text ".cpp"
    ∷ text ".cxx"
    ∷ text ".hpp"
    ∷ text ".json"
    ∷ text ".toml"
    ∷ text ".yaml"
    ∷ text ".yml"
    ∷ []

-- The directory that is scanned: its name, whether the path is a link and whether it is a directory,
-- what is in it, what the suppressions read of it, and what `discover_dependencies` returns for it;
-- `none` if that raises, as it does for a package.json that is no table.
pub record Repository : Type 0 where
  pub name : Text
  pub symlink : Bool
  pub is_directory : Bool
  pub tree : Directory
  pub outside : Outside
  pub dependencies : Option (List Dependency)

-- The arguments of the call of `iter_source_files`; the guards have made the limits positive.
unfoldable pub settings_of : Limits → Settings
settings_of limits = record {
  extensions = default_extensions;
  max_files = pos_part limits.max_files;
  max_file_bytes = pos_part limits.max_file_bytes;
  max_total_bytes = pos_part limits.max_total_bytes;
}

unfoldable pub scan : Limits → Repository → WalkState
unfolding iter_source_files settings_of
scan limits repository = iter_source_files (settings_of limits) repository.tree

module _ (sha256 : Text → Text) (version : Text) where
  -- The result of `audit`, of the dependencies and what the suppressions leave.
  unfoldable pub result_of :
      Repository
      → List Analyzer
      → Limits
      → HndlInputs
      → List Dependency
      → List Finding × List LogEntry × List ParserError
      → AuditResult
  unfolding scan files_errors sorted assets build_migration_plans components_of overall_score
      assess_hndl
  result_of repository analyzers limits inputs dependencies kept =
      let files = (scan limits repository).selected in
      let (found, log, errors) = kept in
      record {
        repository = repository.name;
        files_analyzed = length files;
        bytes_analyzed = (scan limits repository).total;
        parser_errors = sorted (λ e. e.path) (files_errors analyzers files ++ errors);
        findings = found;
        assets = assets sha256 found dependencies;
        dependencies = dependencies;
        migration_plans = build_migration_plans sha256 found;
        agility_components = components_of found dependencies files;
        agility_score = overall_score found dependencies files;
        hndl = assess_hndl found inputs;
        suppressions = log;
        limits = limits;
        skipped = (scan limits repository).skipped;
        generated_by = version;
      }

  -- The part of `audit` behind the suppressions: the dependencies, the assets, and the result.
  unfoldable pub finish_audit :
      Repository
      → List Analyzer
      → Limits
      → HndlInputs
      → List Finding × List LogEntry × List ParserError
      → Option AuditResult
  unfolding result_of assets_raise
  finish_audit repository analyzers limits inputs kept = elim repository.dependencies [
    | none ↦ none
    | some dependencies ↦
        if assets_raise kept.0 dependencies
        then none
        else some (result_of repository analyzers limits inputs dependencies kept)
  ]

  -- The part of `audit` behind the loop over the files; `none` if it raises.
  unfoldable pub audit_repository :
      Repository → List Analyzer → Limits → HndlInputs → Option AuditResult
  unfolding scan audit_findings finish_audit
  audit_repository repository analyzers limits inputs =
      elim (audit_findings repository.outside analyzers inputs.exposure
        inputs.confidentiality_lifetime_years (scan limits repository).selected) [
          | none ↦ none
          | some kept ↦ finish_audit repository analyzers limits inputs kept
        ]
