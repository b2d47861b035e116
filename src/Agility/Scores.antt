-- ===== src/Agility/Scores.antt =====
-- The bounds of the score of src/quantumguard/agility.py.
use pqcensus.Base.{ℕ, ◌≤◌, Bool, List, [], ◌∷◌, Text, arith, keep}
use pqcensus.Model.{Finding}
use pqcensus.Model.Result.{Dependency}
use pqcensus.Agility.{configured_count, hard_coded_count, SourceText, is_crypto_dependency}
use pqcensus.Agility.Components.{
  Components, algorithm_selection, provider_centralization, signal_component,
  dependency_constraints, components_of, round_eighth, total_score, overall_score,
}

-- Between two numbers.
abbrev IsWithin : ℕ → ℕ → ℕ → Type 0
IsWithin low high n = (low ≤ n) × (n ≤ high)

selection-IsWithin : (m n : ℕ) → IsWithin 20 70 (algorithm_selection m n).score
unfolding algorithm_selection
selection-IsWithin m n = ground arith

provider-IsWithin : (paths : List Text) → IsWithin 30 85 (provider_centralization paths).score
unfolding provider_centralization
provider-IsWithin [] = (omega arith, omega arith)
provider-IsWithin (p ∷ ps) = (omega arith, omega arith)

signal-IsWithin :
    (b : Bool) (high low : ℕ) (s t : Text)
    → low ≤ high
    → IsWithin low high (signal_component b high low s t).score
unfolding signal_component
signal-IsWithin b high low s t h = ground arith

constraints-IsWithin : (ds : List Dependency) → IsWithin 40 70 (dependency_constraints ds).score
unfolding dependency_constraints
constraints-IsWithin ds = ground arith

round_eighth-IsWithin : (n : ℕ) → IsWithin 220 615 n → IsWithin 28 77 (round_eighth n)
unfolding round_eighth
round_eighth-IsWithin n h = ground arith

-- The bounds of the sum.
total_score-IsWithin :
    (c : Components)
    → IsWithin 20 70 c.selection.score
    → IsWithin 30 85 c.provider.score
    → IsWithin 25 80 c.negotiation.score
    → IsWithin 20 80 c.dual.score
    → IsWithin 30 75 c.key_rotation.score
    → IsWithin 30 75 c.certificate_rotation.score
    → IsWithin 40 70 c.constraints.score
    → IsWithin 25 80 c.policy.score
    → IsWithin 220 615 (total_score c)
unfolding total_score
total_score-IsWithin c h1 h2 h3 h4 h5 h6 h7 h8 = ground arith

-- For every repository the overall score lies between 28 and 77.
pub overall_score-bounds :
    (fs : List Finding) (dependencies : List Dependency) (sources : List SourceText)
    → (28 ≤ overall_score fs dependencies sources) × (overall_score fs dependencies sources ≤ 77)
unfolding overall_score total_score components_of
overall_score-bounds fs dependencies sources = round_eighth-IsWithin _ (
    total_score-IsWithin (components_of fs dependencies sources)
      (selection-IsWithin (configured_count fs) (hard_coded_count fs)) (provider-IsWithin _)
      (signal-IsWithin _ 80 25 _ _ (omega arith)) (signal-IsWithin _ 80 20 _ _ (omega arith))
      (signal-IsWithin _ 75 30 _ _ (omega arith)) (signal-IsWithin _ 75 30 _ _ (omega arith))
      (constraints-IsWithin (keep (λ d. is_crypto_dependency d.name) dependencies))
      (signal-IsWithin _ 80 25 _ _ (omega arith)))
