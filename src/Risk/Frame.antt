-- ===== src/Risk/Frame.antt =====
-- What an assessment leaves alone.
use pqcensus.Base.{false, Option, ◌≡◌, arith}
use pqcensus.Model.{Finding}
use pqcensus.Model.Values.{is_shor_vulnerable}
use pqcensus.Policy.{algorithm_status}
use pqcensus.Risk.{RiskContext, assess_finding}

-- An assessment changes no field but the severity and the rationale, and those only of a finding
-- whose algorithm is Shor-vulnerable.
pub assess_finding_frame :
    (f : Finding) (c : Option RiskContext)
    → (record (assess_finding f c) { severity = f.severity; rationale = f.rationale } ≡ f)
      × (is_shor_vulnerable (algorithm_status f.algorithm) ≡ false → assess_finding f c ≡ f)
unfolding assess_finding
assess_finding_frame f c = ground arith
