-- ===== src/Policy/Severities.antt =====
-- The severities that `default_severity` gives.
use pqcensus.Base.{Bool, true, false, ◌≡◌, ◌↔◌, Text, arith, min, ◌&&◌, if◌then◌else◌}
use pqcensus.Model.{Purpose, Severity, QuantumStatus}
use pqcensus.Model.Values.{is_confidentiality, is_authenticity}
use pqcensus.Policy.{algorithm_status, default_severity, level_of, is_severe}
use pqcensus.Util.Severities.Ranks.{rank}

rank-level_of : (s : Severity) → rank (if is_severe s then Severity.medium else s) ≡ min 2 (rank s)
unfolding rank is_severe
rank-level_of Severity.info = omega arith
rank-level_of _ = omega arith

-- In test code the severity is that of production code, cut down to MEDIUM: the rank is the least
-- of 2 and the rank there, for every algorithm and purpose.
pub rank-default_severity :
    (algorithm : Text) (purpose : Purpose)
    → rank (default_severity algorithm purpose true)
      ≡ min 2 (rank (default_severity algorithm purpose false))
unfolding default_severity
rank-default_severity algorithm purpose =
    rank-level_of (level_of (algorithm_status algorithm) purpose)

critical_level :
    (s : QuantumStatus) (purpose : Purpose) (test_only : Bool)
    → ((if test_only && is_severe (level_of s purpose) then Severity.medium else level_of s purpose)
        ≡ Severity.critical)
      ↔ ((s ≡ QuantumStatus.shor_vulnerable)
          × (is_confidentiality purpose ≡ true)
          × (test_only ≡ false))
unfolding level_of is_severe is_confidentiality is_authenticity
critical_level QuantumStatus.insecure_config purpose test_only = ground arith
critical_level QuantumStatus.shor_vulnerable Purpose.signature test_only = ground arith
critical_level QuantumStatus.shor_vulnerable _ test_only = ground arith
critical_level _ purpose test_only = ground arith

-- The default severity is CRITICAL exactly for a Shor-vulnerable algorithm that establishes keys or
-- encrypts, outside test code.
pub default_severity-critical_iff :
    (algorithm : Text) (purpose : Purpose) (test_only : Bool)
    → (default_severity algorithm purpose test_only ≡ Severity.critical) ↔ (
        (algorithm_status algorithm ≡ QuantumStatus.shor_vulnerable)
        × (is_confidentiality purpose ≡ true)
        × (test_only ≡ false))
unfolding default_severity
default_severity-critical_iff algorithm purpose test_only =
    critical_level (algorithm_status algorithm) purpose test_only
