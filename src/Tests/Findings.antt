-- ===== src/Tests/Findings.antt =====
-- The theorems about single findings, at concrete inputs.
use pqcensus.Base.{
  ◌≤◌, ◌≡◌, refl, ◌⊎◌, ◌↔◌, true, false, none, some, [], text, min, ◌||◌, list_beq, contains,
}
use pqcensus.Model.{Purpose, Severity, QuantumStatus}
use pqcensus.Model.Result.{MigrationPlan}
use pqcensus.Model.Values.{is_confidentiality, is_authenticity, is_shor_vulnerable}
use pqcensus.Util.Severities.Ranks.{rank}
use pqcensus.Util.Algorithms.{normalize_algorithm}
use pqcensus.Policy.{algorithm_status, default_severity, targets_for}
use pqcensus.Policy.Shipped.{shipped_rules}
use pqcensus.Policy.Matching.{candidates, targets_for-candidates}
use pqcensus.Policy.Severities.{rank-default_severity, default_severity-critical_iff}
use pqcensus.Risk.{assess_finding, is_production, is_public, is_long_lived, is_relevant, is_weak}
use pqcensus.Risk.Frame.{assess_finding_frame}
use pqcensus.Risk.Neutral.{assess_finding_neutral}
use pqcensus.Risk.Order.{IsRiskier, assess_finding_mono, assess_finding_critical}
use pqcensus.Migration.{build_migration_plan}
use pqcensus.Migration.Plans.{is_planned, IsSound, build_migration_plan-IsSound}
use pqcensus.Tests.Samples.{rsa_finding, quiet_context, exposed_context, stand_in_hash}

rank-default_severity_example :
    rank (default_severity (text "RSA") Purpose.encryption true)
    ≡ min 2 (rank (default_severity (text "RSA") Purpose.encryption false))
rank-default_severity_example = rank-default_severity (text "RSA") Purpose.encryption

default_severity-critical_example :
    (default_severity (text "RSA") Purpose.encryption false ≡ Severity.critical) ↔ (
      (algorithm_status (text "RSA") ≡ QuantumStatus.shor_vulnerable)
      × (is_confidentiality Purpose.encryption ≡ true)
      × (false ≡ false))
default_severity-critical_example =
    default_severity-critical_iff (text "RSA") Purpose.encryption false

targets_for-candidates_example :
    (targets_for shipped_rules (text "RSA") Purpose.unknown ≡ [])
    ⊎ (targets_for shipped_rules (text "RSA") Purpose.unknown ≡ candidates Purpose.unknown)
targets_for-candidates_example = targets_for-candidates (text "RSA") Purpose.unknown

rsa_is_vulnerable : is_shor_vulnerable (algorithm_status rsa_finding.algorithm) ≡ true
unfolding is_shor_vulnerable algorithm_status contains normalize_algorithm list_beq
rsa_is_vulnerable = refl

assess_finding_frame_example :
    (record (assess_finding rsa_finding none) {
      severity = rsa_finding.severity;
      rationale = rsa_finding.rationale;
    }
      ≡ rsa_finding)
    × (is_shor_vulnerable (algorithm_status rsa_finding.algorithm) ≡ false
        → assess_finding rsa_finding none ≡ rsa_finding)
assess_finding_frame_example = assess_finding_frame rsa_finding none

assess_finding_neutral_example :
    (rank (assess_finding rsa_finding none).severity ≤ 3)
    × (is_production rsa_finding.environment ≡ true
        → is_weak rsa_finding.confidence ≡ false
        → (is_confidentiality rsa_finding.purpose || is_authenticity rsa_finding.purpose) ≡ true
        → rank (assess_finding rsa_finding none).severity ≡ 3)
    × (is_production rsa_finding.environment ≡ false
        → rank (assess_finding rsa_finding none).severity ≤ 2)
assess_finding_neutral_example = assess_finding_neutral rsa_finding rsa_is_vulnerable

quiet_then_exposed : IsRiskier quiet_context exposed_context
unfolding is_public is_long_lived is_relevant list_beq
quiet_then_exposed = record {
  public = λ h. refl;
  long_lived = λ h. refl;
  relevant = λ h. refl;
  production = λ h. refl;
}

assess_finding_mono_example :
    rank (assess_finding rsa_finding (some quiet_context)).severity
    ≤ rank (assess_finding rsa_finding (some exposed_context)).severity
assess_finding_mono_example =
    assess_finding_mono rsa_finding quiet_context exposed_context rsa_is_vulnerable
      quiet_then_exposed

assess_finding_critical_example :
    rank (assess_finding rsa_finding (some exposed_context)).severity ≡ 4
unfolding is_weak is_public is_long_lived is_relevant list_beq
assess_finding_critical_example =
    assess_finding_critical rsa_finding exposed_context rsa_is_vulnerable refl refl refl refl refl

build_migration_plan_example :
    (is_planned rsa_finding ≡ false → build_migration_plan stand_in_hash rsa_finding none ≡ none)
    × (is_planned rsa_finding ≡ true
        → (p : MigrationPlan) × (build_migration_plan stand_in_hash rsa_finding none ≡ some p)
          × IsSound rsa_finding p)
build_migration_plan_example = build_migration_plan-IsSound stand_in_hash rsa_finding none
