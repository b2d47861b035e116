-- ===== src/Risk/Neutral.antt =====
-- Assessments with no context, and the highest severity of an unverified purpose.
use pqcensus.Base.{◌≤◌, ◌≡◌, true, false, none, arith, ◌||◌, list_beq}
use pqcensus.Model.{Finding}
use pqcensus.Model.Values.{is_confidentiality, is_authenticity, is_shor_vulnerable}
use pqcensus.Policy.{algorithm_status}
use pqcensus.Risk.{
  is_production, default_context, is_public, is_long_lived, is_relevant, is_weak, assess_finding,
}
use pqcensus.Risk.Score.{gain, loss, weight, level, rank-assess_finding}
use pqcensus.Util.Severities.Ranks.{rank}

rank-neutral :
    (f : Finding)
    → is_shor_vulnerable (algorithm_status f.algorithm) ≡ true
    → rank (assess_finding f none).severity
      ≡ level (gain f (default_context f)) (loss f (default_context f))
unfolding assess_finding
rank-neutral f h = rank-assess_finding f (default_context f) h

neutral_level :
    (f : Finding)
    → (level (gain f (default_context f)) (loss f (default_context f)) ≤ 3)
      × (is_production f.environment ≡ true
          → is_weak f.confidence ≡ false
          → (is_confidentiality f.purpose || is_authenticity f.purpose) ≡ true
          → level (gain f (default_context f)) (loss f (default_context f)) ≡ 3)
      × (is_production f.environment ≡ false
          → level (gain f (default_context f)) (loss f (default_context f)) ≤ 2)
unfolding level gain loss default_context weight is_public is_long_lived is_relevant list_beq
neutral_level f = ground arith

-- With no context a Shor-vulnerable finding is never CRITICAL. In production code, with evidence of
-- high or medium confidence, it is HIGH if its purpose is a confidentiality or an authenticity
-- purpose. In test code it is MEDIUM at most.
pub assess_finding_neutral :
    (f : Finding)
    → is_shor_vulnerable (algorithm_status f.algorithm) ≡ true
    → (rank (assess_finding f none).severity ≤ 3)
      × (is_production f.environment ≡ true
          → is_weak f.confidence ≡ false
          → (is_confidentiality f.purpose || is_authenticity f.purpose) ≡ true
          → rank (assess_finding f none).severity ≡ 3)
      × (is_production f.environment ≡ false → rank (assess_finding f none).severity ≤ 2)
assess_finding_neutral f h = rw (rank-neutral f h) (neutral_level f)
