-- ===== src/Reporting/Sarif/Failing.antt =====
-- The levels of a SARIF log (src/quantumguard/reporting.py) against the exit status of the audit
-- (src/quantumguard/cli.py).
use pqcensus.Base.{
  Bool, true, false, ◌≡◌, ◌↔◌, refl, none, List, [], ◌∷◌, text, keep, any, leb, list_beq,
  if◌then◌else◌, upper, arith, ◌&&◌, nat_eq, list_eq,
}
use pqcensus.Model.{Finding, Severity, Status}
use pqcensus.Model.Values.{is_active, severity_value}
use pqcensus.Util.Severities.{severity_rank}
use pqcensus.Cli.{reaches, candidates_of, audit_exit, exit_findings, exit_ok}
use pqcensus.Reporting.Sarif.{SarifLevel, sarif_level, sarif_result, sarif_results}

-- `level == "error"`
unfoldable pub is_error : SarifLevel → Bool
is_error SarifLevel.error = true
is_error SarifLevel.warning = false
is_error SarifLevel.note = false

-- A severity reaches "HIGH" exactly if its level is an error.
error_at_high :
    (f : Finding)
    → reaches (text "HIGH") f ≡ (is_active f.status && is_error (sarif_level f.severity))
unfolding reaches severity_rank severity_value sarif_level is_error is_active list_beq
error_at_high f = by_cases f.status f.severity
  where
    by_cases :
        (t : Status) (s : Severity)
        → (is_active t && leb (severity_rank (text "HIGH")) (severity_rank (severity_value s)))
          ≡ (is_active t && is_error (sarif_level s))
    by_cases Status.suppressed s = refl
    by_cases Status.active Severity.info = refl
    by_cases Status.active Severity.low = refl
    by_cases Status.active Severity.medium = refl
    by_cases Status.active Severity.high = refl
    by_cases Status.active Severity.critical = refl

any-sarif_results :
    (fs : List Finding)
    → any (λ r. is_error r.level) (sarif_results fs) ≡ any (reaches (text "HIGH")) fs
unfolding sarif_results sarif_result keep any
any-sarif_results [] = refl
any-sarif_results (f ∷ fs) = ground (arith, error_at_high f, any-sarif_results fs)

audit_exit_iff :
    (fs : List Finding)
    → (audit_exit fs none (text "high") ≡ 1) ↔ (any (reaches (text "HIGH")) fs ≡ true)
unfolding audit_exit candidates_of upper list_beq
audit_exit_iff fs =
    elim (any (reaches (text "HIGH")) fs)
      as (λ b. ((if b then exit_findings else exit_ok) ≡ 1) ↔ (b ≡ true)) [
        | true ↦ ((λ _. refl), (λ _. refl))
        | false ↦ ground arith
      ]

-- Without a baseline and at the threshold "high", which is the default, the audit exits with 1 exactly
-- if its SARIF log holds a result of level "error".
pub audit_exit-sarif_results :
    (fs : List Finding)
    → (audit_exit fs none (text "high") ≡ 1)
      ↔ (any (λ r. is_error r.level) (sarif_results fs) ≡ true)
audit_exit-sarif_results fs = rw (any-sarif_results fs) (audit_exit_iff fs)
