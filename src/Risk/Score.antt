-- ===== src/Risk/Score.antt =====
-- The score of src/quantumguard/risk.py as a difference of two natural numbers: what the purpose
-- and the context add, and what test code and weak evidence take off.
use pqcensus.Base.{
  ℕ, ◌+◌, ◌≡◌, refl, ◌∙◌, ap, Bool, true, false, not, some, Text, arith, leb, if◌then◌else◌,
}
use pqcensus.Base.Int.{pos, sub_ℕ}
use pqcensus.Model.{Finding, Purpose}
use pqcensus.Model.Values.{is_confidentiality, is_authenticity, is_shor_vulnerable}
use pqcensus.Policy.{algorithm_status}
use pqcensus.Risk.{
  RiskContext, Scored, is_public, is_long_lived, is_relevant, is_weak, raise_if, drop_if,
  purpose_step, risk_score, severity_of_score, assess_finding, confidence_reason, test_reason,
  hndl_reason, lifetime_reason, exposure_reason,
}
use pqcensus.Util.Severities.Ranks.{rank}

abbrev pub points : Bool → ℕ → ℕ
points true n = n
points false n = 0

unfoldable pub weight : Purpose → ℕ
weight purpose = if is_confidentiality purpose then 2 else if is_authenticity purpose then 1 else 0

unfoldable pub gain : Finding → RiskContext → ℕ
gain f c =
    2
    + weight f.purpose
    + points (is_public c) 1
    + points (is_long_lived c.data_lifetime_years) 1
    + points (is_relevant c.hndl_relevant) 1

unfoldable pub loss : Finding → RiskContext → ℕ
loss f c = 0 + points (not c.production) 2 + points (is_weak f.confidence) 1

raise_if-score :
    (t : Bool) (n g l : ℕ) (reason : Text) (s : Scored)
    → s.0 ≡ sub_ℕ g l
    → (raise_if t (pos n) reason s).0 ≡ sub_ℕ (g + points t n) l
unfolding raise_if
raise_if-score t n g l reason (score, reasons) h = ground arith

drop_if-score :
    (t : Bool) (n g l : ℕ) (reason : Text) (s : Scored)
    → s.0 ≡ sub_ℕ g l
    → (drop_if t (pos n) reason s).0 ≡ sub_ℕ g (l + points t n)
unfolding drop_if
drop_if-score t n g l reason (score, reasons) h = ground arith

purpose_step-score :
    (p : Purpose) (s : Scored) → s.0 ≡ pos 2 → (purpose_step p s).0 ≡ sub_ℕ (2 + weight p) 0
unfolding purpose_step weight
purpose_step-score p (score, reasons) h = ground arith

score-eq : (f : Finding) (c : RiskContext) → (risk_score f c).0 ≡ sub_ℕ (gain f c) (loss f c)
unfolding risk_score gain loss
score-eq f c = drop_if-score (is_weak f.confidence) 1 _ _ confidence_reason _ (
    drop_if-score (not c.production) 2 _ 0 test_reason _ (
      raise_if-score (is_relevant c.hndl_relevant) 1 _ 0 hndl_reason _ (
        raise_if-score (is_long_lived c.data_lifetime_years) 1 _ 0 lifetime_reason _ (
          raise_if-score (is_public c) 1 _ 0 exposure_reason _
            (purpose_step-score f.purpose _ refl)))))

unfoldable pub level : ℕ → ℕ → ℕ
level g l = if leb (l + 5) g then 4 else if leb (l + 3) g then 3 else if leb (l + 1) g then 2 else 1

rank-severity_of_score : (g l : ℕ) → rank (severity_of_score (sub_ℕ g l)) ≡ level g l
unfolding severity_of_score rank level
rank-severity_of_score g l = ground arith

-- The rank of the severity, from what is added and taken off.
pub rank-assess_finding :
    (f : Finding) (c : RiskContext)
    → is_shor_vulnerable (algorithm_status f.algorithm) ≡ true
    → rank (assess_finding f (some c)).severity ≡ level (gain f c) (loss f c)
unfolding assess_finding
rank-assess_finding f c h =
    rw (h, if◌then◌else◌)
      (ap (λ z. rank (severity_of_score z)) (score-eq f c)
        ∙ rank-severity_of_score (gain f c) (loss f c))
