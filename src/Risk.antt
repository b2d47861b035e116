-- ===== src/Risk.antt =====
-- src/quantumguard/risk.py: the severity of a finding in a context of deployment.
pub mod Score
pub mod Frame
pub mod Neutral
pub mod Order
use pqcensus.Base.{
  Bool, true, false, not, ◌||◌, ◌++◌, Option, none, some, List, [], ◌∷◌, Text, text, ◌==◌, list_eq,
  nat_eq, option_eq, join, if◌then◌else◌,
}
use pqcensus.Base.Int.{ℤ, pos, ◌+ℤ◌, ◌-ℤ◌, leb_ℤ}
use pqcensus.Model.{Finding, Purpose, Confidence, Severity, Environment}
use pqcensus.Model.Values.{is_confidentiality, is_authenticity, is_shor_vulnerable}
use pqcensus.Policy.{algorithm_status}

pub record RiskContext : Type 0 where
  pub exposure : Text
  pub data_lifetime_years : Option ℤ
  pub trust_lifetime_years : Option ℤ
  pub public_reachability : Text
  pub migration_complexity : Text
  pub production : Bool
  pub hndl_relevant : Option Bool

unfoldable pub is_production : Environment → Bool
is_production Environment.production = true
is_production Environment.test = false

-- `RiskContext(production=finding.environment != "test")`
unfoldable pub default_context : Finding → RiskContext
unfolding is_production
default_context finding = record {
  exposure = text "unknown";
  data_lifetime_years = none;
  trust_lifetime_years = none;
  public_reachability = text "unknown";
  migration_complexity = text "unknown";
  production = is_production finding.environment;
  hndl_relevant = none;
}

-- The tests of `assess_finding`.
unfoldable pub is_public : RiskContext → Bool
is_public c = c.exposure == text "public" || c.public_reachability == text "public"

unfoldable pub is_long_lived : Option ℤ → Bool
is_long_lived none = false
is_long_lived (some years) = leb_ℤ (pos 10) years

unfoldable pub is_relevant : Option Bool → Bool
is_relevant none = false
is_relevant (some b) = b

-- `finding.confidence in {Confidence.LOW, Confidence.UNKNOWN}`
unfoldable pub is_weak : Confidence → Bool
is_weak Confidence.low = true
is_weak Confidence.unknown = true
is_weak _ = false

abbrev pub confidentiality_reason : Text
confidentiality_reason = text "the observed purpose protects confidentiality or establishes keys"

abbrev pub authenticity_reason : Text
authenticity_reason = text "the observed purpose anchors authenticity or signatures"

abbrev pub abstention_reason : Text
abstention_reason =
    text
      "the downstream purpose is not verified, so the tool abstains from a purpose-specific critical rating"

abbrev pub exposure_reason : Text
exposure_reason = text "public exposure increases capture or attack opportunity"

abbrev pub lifetime_reason : Text
lifetime_reason = text "the stated confidentiality lifetime is at least 10 years"

abbrev pub hndl_reason : Text
hndl_reason = text "the supplied context makes harvest-now-decrypt-later relevant"

abbrev pub test_reason : Text
test_reason = text "the call site is classified as test or fixture code"

abbrev pub confidence_reason : Text
confidence_reason = text "low evidence confidence limits authoritative severity"

-- The variables `score` and `reasons`.
abbrev pub Scored : Type 0
Scored = ℤ × List Text

-- `if test: score += points; reasons.append(reason)`
unfoldable pub raise_if : Bool → ℤ → Text → Scored → Scored
unfolding ◌+ℤ◌
raise_if test points reason (score, reasons) =
    if test then (score +ℤ points, reasons ++ (reason ∷ [])) else (score, reasons)

-- `if test: score -= points; reasons.append(reason)`
unfoldable pub drop_if : Bool → ℤ → Text → Scored → Scored
unfolding ◌-ℤ◌
drop_if test points reason (score, reasons) =
    if test then (score -ℤ points, reasons ++ (reason ∷ [])) else (score, reasons)

-- The branches on the purpose.
unfoldable pub purpose_step : Purpose → Scored → Scored
unfolding is_confidentiality is_authenticity ◌+ℤ◌
purpose_step purpose (score, reasons) =
    if is_confidentiality purpose
    then (score +ℤ pos 2, reasons ++ (confidentiality_reason ∷ []))
    else if is_authenticity purpose
    then (score +ℤ pos 1, reasons ++ (authenticity_reason ∷ []))
    else (score, reasons ++ (abstention_reason ∷ []))

unfoldable pub risk_score : Finding → RiskContext → Scored
risk_score finding c = drop_if (is_weak finding.confidence) (pos 1) confidence_reason (
    drop_if (not c.production) (pos 2) test_reason (
      raise_if (is_relevant c.hndl_relevant) (pos 1) hndl_reason (
        raise_if (is_long_lived c.data_lifetime_years) (pos 1) lifetime_reason (
          raise_if (is_public c) (pos 1) exposure_reason (
            purpose_step finding.purpose
              (pos 2, (finding.algorithm ++ text " is Shor-relevant") ∷ []))))))

unfoldable pub severity_of_score : ℤ → Severity
severity_of_score score =
    if leb_ℤ (pos 5) score
    then Severity.critical
    else if leb_ℤ (pos 3) score
    then Severity.high
    else if leb_ℤ (pos 1) score
    then Severity.medium
    else Severity.low

context_or_default : Finding → Option RiskContext → RiskContext
unfolding default_context
context_or_default finding none = default_context finding
context_or_default finding (some c) = c

-- The finding is changed in place: the model returns it with its new fields.
unfoldable pub assess_finding : Finding → Option RiskContext → Finding
unfolding context_or_default is_shor_vulnerable
assess_finding finding context =
    if is_shor_vulnerable (algorithm_status finding.algorithm)
    then (let (score, reasons) = risk_score finding (context_or_default finding context) in
        record finding {
          severity = severity_of_score score;
          rationale = join (text "; ") reasons ++ text ".";
        })
    else finding
