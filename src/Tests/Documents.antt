-- ===== src/Tests/Documents.antt =====
-- The theorems about the documents and `explain`, at concrete inputs.
use pqcensus.Base.{
  ◌≡◌, ◌↔◌, refl, true, none, some, [], ◌∷◌, List, Text, text, any, map, count, contains, keep,
  first, All, ◌==◌, nat_eq, list_eq, if◌then◌else◌,
}
use pqcensus.Base.Sort.{IsSorted, nat_ord, list_ord}
use pqcensus.Model.Values.{is_active}
use pqcensus.Policy.{explain_rule}
use pqcensus.Cli.{audit_exit, active_ids}
use pqcensus.Cli.Explain.{explain, explain_result, found_or_unknown}
use pqcensus.Audit.Complete.{AuditResult, result_of}
use pqcensus.Serialized.Outcome.{result_dict}
use pqcensus.Reporting.Sarif.{RuleBook, sarif_results, sarif_rules}
use pqcensus.Reporting.Sarif.Closed.{sarif_results_lem}
use pqcensus.Reporting.Sarif.Failing.{is_error, audit_exit-sarif_results}
use pqcensus.Reporting.Cyclonedx.{cyclonedx_components, cyclonedx_dependencies, application_ref}
use pqcensus.Reporting.Cyclonedx.Refs.{RefersTo, cyclonedx_dependencies_lem}
use pqcensus.Tests.Samples.{findings, dependencies, stand_in_hash}
use pqcensus.Tests.Scans.{sample_repository, sample_limits, no_inputs, version}

abbrev pub book : RuleBook
book = record { rules = []; authorities = [] }

sarif_results_example :
    (map (λ r. r.finding_id) (sarif_results findings) ≡ active_ids findings)
    × All
        (λ r. contains (map (λ s. s.id) (sarif_rules book findings)) r.rule_id ≡ true)
        (sarif_results findings)
    × ((id : Text)
        → count (λ s. id == s) (map (λ s. s.id) (sarif_rules book findings)) ≡ (
            if contains (map (λ f. f.rule_id) (keep (λ f. is_active f.status) findings)) id
            then 1
            else 0))
    × IsSorted (λ id. id) (map (λ s. s.id) (sarif_rules book findings))
sarif_results_example = sarif_results_lem book findings

audit_exit-sarif_results_example :
    (audit_exit findings none (text "high") ≡ 1)
    ↔ (any (λ r. is_error r.level) (sarif_results findings) ≡ true)
audit_exit-sarif_results_example = audit_exit-sarif_results findings

sarif_error_test : any (λ r. is_error r.level) (sarif_results findings) ≡ true
unfolding sarif_results any is_error
sarif_error_test = refl

abbrev pub sample_result : AuditResult
sample_result =
    result_of stand_in_hash version sample_repository [] sample_limits no_inputs dependencies
      (findings, [], [])

cyclonedx_dependencies_example :
    (rest : List (Text × List Text)) × (cyclonedx_dependencies stand_in_hash sample_result
      ≡ (
        application_ref stand_in_hash sample_result.repository,
        map (λ c. c.bom_ref) (cyclonedx_components stand_in_hash sample_result),
      )
        ∷ rest)
    × All (RefersTo (map (λ c. c.bom_ref) (cyclonedx_components stand_in_hash sample_result))) rest
cyclonedx_dependencies_example = cyclonedx_dependencies_lem stand_in_hash sample_result

explain_result_example :
    explain [] (text "QG-2") (some (result_dict sample_result))
    ≡ found_or_unknown (first (λ f. f.finding_id == text "QG-2") sample_result.findings)
unfolding explain_rule
explain_result_example = explain_result [] (text "QG-2") sample_result refl
