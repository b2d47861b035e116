-- ===== src/Serialized/Summary.antt =====
-- The summary of an audit: `audit` of src/quantumguard/api.py with the numbers that `AuditResult.to_dict`
-- of src/quantumguard/models.py writes.
use pqcensus.Base.{◌+◌, ◌≤◌, ◌≡◌, sym, List, [], ◌∷◌, Text, length, count, arith}
use pqcensus.Base.Int.{pos_part}
use pqcensus.Model.{Finding}
use pqcensus.Model.Values.{is_active, is_suppressed}
use pqcensus.Hndl.{HndlInputs}
use pqcensus.Migration.Plans.{is_planned, build_migration_plans_lem}
use pqcensus.Util.Walk.Limits.{iter_source_files-IsLimited}
use pqcensus.Model.Result.{Dependency}
use pqcensus.Suppressions.{LogEntry, ParserError}
use pqcensus.Audit.{Analyzer, Limits}
use pqcensus.Audit.Complete.{Repository, AuditResult, scan, settings_of, result_of}
use pqcensus.Serialized.Outcome.{summary_of}

count-active-suppressed :
    (fs : List Finding)
    → count (λ f. is_active f.status) fs + count (λ f. is_suppressed f.status) fs ≡ length fs
unfolding count is_active is_suppressed
count-active-suppressed [] = omega arith
count-active-suppressed (f ∷ fs) = ground (arith, count-active-suppressed fs)

count-le-active : (fs : List Finding) → count is_planned fs ≤ count (λ f. is_active f.status) fs
unfolding count is_planned
count-le-active [] = omega arith
count-le-active (f ∷ fs) = ground (arith, count-le-active fs)

-- What a result says of itself: the files and the bytes are within the limits, every finding counts
-- either as active or as suppressed, the suppressed ones are as many as the entries of the suppression
-- log, and there are no more plans than active findings.
pub record IsBalanced (limits : Limits) (r : AuditResult) : Type 0 where
  pub files : (summary_of r).files_analyzed ≤ pos_part limits.max_files
  pub bytes : (summary_of r).bytes_analyzed ≤ pos_part limits.max_total_bytes
  pub counted :
      (summary_of r).active_findings + (summary_of r).suppressed_findings ≡ (summary_of r).findings
  pub logged : (summary_of r).suppressed_findings ≡ length r.suppressions
  pub planned : length r.migration_plans ≤ (summary_of r).active_findings

module _ (sha256 : Text → Text) (version : Text) (repository : Repository) where
  pub result_of-IsBalanced :
      (analyzers : List Analyzer) (limits : Limits) (inputs : HndlInputs)
      (dependencies : List Dependency) (gs : List Finding) (log : List LogEntry)
      (errors : List ParserError)
      → length log ≡ count (λ f. is_suppressed f.status) gs
      → IsBalanced limits (
          result_of sha256 version repository analyzers limits inputs dependencies
            (gs, log, errors))
  unfolding summary_of result_of settings_of scan
  result_of-IsBalanced analyzers limits inputs dependencies gs log errors h =
      let walked = iter_source_files-IsLimited (settings_of limits) repository.tree in
      let planned = build_migration_plans_lem sha256 gs in
      record {
        files = walked.0;
        bytes = walked.1;
        counted = count-active-suppressed gs;
        logged = sym h;
        planned = omega (arith, planned.0, count-le-active gs);
      }
