-- ===== src/Risk/Order.antt =====
-- More context never lowers a severity, and what it may do to an unverified purpose.
use pqcensus.Base.{ℕ, ◌≤◌, ◌≡◌, ◌∙◌, true, false, some, arith}
use pqcensus.Model.{Finding}
use pqcensus.Model.Values.{is_shor_vulnerable}
use pqcensus.Policy.{algorithm_status}
use pqcensus.Risk.{RiskContext, is_public, is_long_lived, is_relevant, is_weak, assess_finding}
use pqcensus.Risk.Score.{gain, loss, level, rank-assess_finding}
use pqcensus.Util.Severities.Ranks.{rank}

-- The second context states all risks that the first does, and no less of production.
pub record IsRiskier (c d : RiskContext) : Type 0 where
  pub public : is_public c ≡ true → is_public d ≡ true
  pub long_lived :
      is_long_lived c.data_lifetime_years ≡ true → is_long_lived d.data_lifetime_years ≡ true
  pub relevant : is_relevant c.hndl_relevant ≡ true → is_relevant d.hndl_relevant ≡ true
  pub production : c.production ≡ true → d.production ≡ true

gain_mono : (f : Finding) (c d : RiskContext) → IsRiskier c d → gain f c ≤ gain f d
unfolding gain
gain_mono f c d r = ground (arith, r.public, r.long_lived, r.relevant)

loss_mono : (f : Finding) (c d : RiskContext) → IsRiskier c d → loss f d ≤ loss f c
unfolding loss
loss_mono f c d r = ground (arith, r.production)

level_mono : (g l g' l' : ℕ) → g ≤ g' → l' ≤ l → level g l ≤ level g' l'
unfolding level
level_mono g l g' l' h k = ground arith

-- For every Shor-vulnerable finding, a riskier context never yields a lower severity.
pub assess_finding_mono :
    (f : Finding) (c d : RiskContext)
    → is_shor_vulnerable (algorithm_status f.algorithm) ≡ true
    → IsRiskier c d
    → rank (assess_finding f (some c)).severity ≤ rank (assess_finding f (some d)).severity
assess_finding_mono f c d h r =
    rw (rank-assess_finding f c h, rank-assess_finding f d h)
      (level_mono (gain f c) (loss f c) (gain f d) (loss f d) (gain_mono f c d r)
        (loss_mono f c d r))

full_level :
    (f : Finding) (c : RiskContext)
    → is_weak f.confidence ≡ false
    → is_public c ≡ true
    → is_long_lived c.data_lifetime_years ≡ true
    → is_relevant c.hndl_relevant ≡ true
    → c.production ≡ true
    → level (gain f c) (loss f c) ≡ 4
unfolding level gain loss
full_level f c weak exposed lived relevant production = ground arith

-- A Shor-vulnerable finding in production, with evidence of high or medium confidence, is CRITICAL
-- in a context that states public exposure, a lifetime of ten years or more and relevance for
-- harvest-now-decrypt-later, whatever its purpose, so with an unverified one too.
pub assess_finding_critical :
    (f : Finding) (c : RiskContext)
    → is_shor_vulnerable (algorithm_status f.algorithm) ≡ true
    → is_weak f.confidence ≡ false
    → is_public c ≡ true
    → is_long_lived c.data_lifetime_years ≡ true
    → is_relevant c.hndl_relevant ≡ true
    → c.production ≡ true
    → rank (assess_finding f (some c)).severity ≡ 4
assess_finding_critical f c h weak exposed lived relevant production =
    rank-assess_finding f c h ∙ full_level f c weak exposed lived relevant production
