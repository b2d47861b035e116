-- ===== src/Util/Severities.antt =====
-- `severity_rank` and `lower_severity` of src/quantumguard/util.py.
pub mod Ranks
use pqcensus.Base.{
  ℕ, ◌-◌, Option, none, some, List, [], ◌∷◌, Text, text, upper, nat_eq, list_eq, get_elem?,
}
use pqcensus.Base.Dict.{Dict, lookup}

abbrev levels : Dict Text ℕ
levels =
    (text "INFO", 0)
    ∷ (text "LOW", 1)
    ∷ (text "MEDIUM", 2)
    ∷ (text "HIGH", 3)
    ∷ (text "CRITICAL", 4)
    ∷ []

rank_or_zero : Option ℕ → ℕ
rank_or_zero none = 0
rank_or_zero (some n) = n

-- `{...}.get(value.upper(), 0)`
unfoldable pub severity_rank : Text → ℕ
unfolding rank_or_zero lookup upper
severity_rank value = rank_or_zero (lookup (upper value) levels)

abbrev names : List Text
names = text "INFO" ∷ text "LOW" ∷ text "MEDIUM" ∷ text "HIGH" ∷ text "CRITICAL" ∷ []

-- `levels[max(0, severity_rank(value) - 1)]`. Subtraction stops at 0, which is the `max`; an index
-- past the end, `none`, would be an `IndexError`.
unfoldable pub lower_severity : Text → Option Text
unfolding severity_rank
lower_severity value = get_elem? names (severity_rank value - 1)
