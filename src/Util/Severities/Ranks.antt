-- ===== src/Util/Severities/Ranks.antt =====
-- The ranks of the severities, and what `lower_severity` does to them.
use pqcensus.Base.{ℕ, ◌-◌, ◌≤◌, ◌≡◌, refl, zero, suc, some, Text, arith, list_beq, get_elem?}
use pqcensus.Model.{Severity}
use pqcensus.Model.Values.{severity_value}
use pqcensus.Util.Severities.{severity_rank, lower_severity, names}

-- The five severities have the ranks 0 to 4.
unfoldable pub rank : Severity → ℕ
rank Severity.info = 0
rank Severity.low = 1
rank Severity.medium = 2
rank Severity.high = 3
rank Severity.critical = 4

pub severity_rank-severity_value : (s : Severity) → severity_rank (severity_value s) ≡ rank s
unfolding severity_rank severity_value rank list_beq
severity_rank-severity_value Severity.info = refl
severity_rank-severity_value _ = refl

pub severity_rank-le-four : (t : Text) → severity_rank t ≤ 4
unfolding severity_rank
severity_rank-le-four t = ground arith

at_rank :
    (n : ℕ)
    → n ≤ 4
    → (s : Severity) × (get_elem? names (n - 1) ≡ some (severity_value s)) × (rank s ≡ n - 1)
unfolding severity_value rank
at_rank zero h = (Severity.info, refl, refl)
at_rank (suc zero) h = (Severity.info, refl, refl)
at_rank (suc (suc zero)) h = (Severity.low, refl, refl)
at_rank (suc (suc (suc zero))) h = (Severity.medium, refl, refl)
at_rank (suc (suc (suc (suc zero)))) h = (Severity.high, refl, refl)
at_rank (suc (suc (suc (suc (suc n))))) h = absurd (omega arith)

-- For every text, `lower_severity` returns a severity's name, with no `IndexError`, and its rank is
-- one less than the rank of the text, or 0.
lower_severity_lem :
    (t : Text)
    → (s : Severity) × (lower_severity t ≡ some (severity_value s)) × (rank s ≡ severity_rank t - 1)
unfolding lower_severity
lower_severity_lem t = at_rank (severity_rank t) (severity_rank-le-four t)
