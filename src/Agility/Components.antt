-- ===== src/Agility/Components.antt =====
-- The components of the score of src/quantumguard/agility.py, and the score.
use pqcensus.Base.{
  ℕ, ◌+◌, ◌/◌, ◌%◌, Bool, ◌&&◌, List, [], ◌∷◌, ◌++◌, Text, text, keep, count, decimal, length,
  nat_beq, ltb, nat_eq, list_eq, if◌then◌else◌,
}
use pqcensus.Base.Sort.{nat_ord, list_ord}
use pqcensus.Model.{Finding}
use pqcensus.Model.Result.{Dependency}
use pqcensus.Agility.{
  SourceText, signal_texts, has_signal, negotiation_words, dual_words, key_words, certificate_words,
  hard_coded_count, configured_count, centralized_paths, has_policy, is_pinned,
  is_crypto_dependency,
}

pub record Component : Type 0 where
  pub score : ℕ
  pub evidence : List Text

unfoldable pub algorithm_selection : ℕ → ℕ → Component
unfolding decimal
algorithm_selection configured hard_coded = record {
  score =
      if ltb 0 configured && nat_beq hard_coded 0
      then 70
      else if ltb 0 configured
      then 45
      else if ltb 0 hard_coded
      then 20
      else 50;
  evidence =
      (text "hard_coded_evidence=" ++ decimal hard_coded)
      ∷ (text "configured_evidence=" ++ decimal configured)
      ∷ [];
}

unfoldable pub provider_centralization : List Text → Component
provider_centralization [] = record {
  score = 30;
  evidence = text "no centralized crypto provider path observed" ∷ [];
}
provider_centralization (path ∷ paths) = record { score = 85; evidence = path ∷ paths }

-- A component of one signal: its scores and evidence where the signal is there, and where it is not.
unfoldable pub signal_component : Bool → ℕ → ℕ → Text → Text → Component
signal_component seen high low observed missing =
    if seen
    then record { score = high; evidence = observed ∷ [] }
    else record { score = low; evidence = missing ∷ [] }

unfoldable pub dependency_constraints : List Dependency → Component
unfolding count is_pinned decimal
dependency_constraints crypto_deps =
    let pinned = count is_pinned crypto_deps in
    record {
      score =
          if nat_beq (length crypto_deps) 0
          then 50
          else if nat_beq pinned (length crypto_deps)
          then 70
          else 40;
      evidence =
          (text "crypto_dependencies=" ++ decimal (length crypto_deps))
          ∷ (text "version_constrained=" ++ decimal pinned)
          ∷ [];
    }

pub record Components : Type 0 where
  pub selection : Component
  pub provider : Component
  pub negotiation : Component
  pub dual : Component
  pub key_rotation : Component
  pub certificate_rotation : Component
  pub constraints : Component
  pub policy : Component

-- The dict `components`.
unfoldable pub components_of : List Finding → List Dependency → List SourceText → Components
unfolding algorithm_selection configured_count hard_coded_count provider_centralization
    centralized_paths signal_component has_signal signal_texts dependency_constraints
    is_crypto_dependency has_policy keep
components_of fs dependencies sources =
    let t = signal_texts sources in
    record {
      selection = algorithm_selection (configured_count fs) (hard_coded_count fs);
      provider = provider_centralization (centralized_paths sources);
      negotiation =
          signal_component (has_signal negotiation_words t) 80 25
            (text "negotiation signal observed") (text "no negotiation signal observed");
      dual =
          signal_component (has_signal dual_words t) 80 20 (text "dual/hybrid signal observed")
            (text "no dual/hybrid signal observed");
      key_rotation =
          signal_component (has_signal key_words t) 75 30 (text "rotation signal observed")
            (text "no key rotation signal observed");
      certificate_rotation =
          signal_component (has_signal certificate_words t) 75 30
            (text "certificate rotation signal observed")
            (text "no certificate rotation signal observed");
      constraints = dependency_constraints (keep (λ d. is_crypto_dependency d.name) dependencies);
      policy =
          signal_component (has_policy sources) 80 25 (text "central policy signal observed")
            (text "no central policy signal observed");
    }

-- `round(n / 8)`: halves go to the even neighbour.
unfoldable pub round_eighth : ℕ → ℕ
round_eighth n =
    if ltb (n % 8) 4 then n / 8 else if nat_beq (n % 8) 4 then n / 8 + (n / 8) % 2 else n / 8 + 1

unfoldable pub total_score : Components → ℕ
total_score c =
    c.selection.score + c.provider.score + c.negotiation.score + c.dual.score + c.key_rotation.score
    + c.certificate_rotation.score + c.constraints.score + c.policy.score

-- `overall_score` of `evaluate_agility`.
unfoldable pub overall_score : List Finding → List Dependency → List SourceText → ℕ
unfolding round_eighth total_score components_of
overall_score fs dependencies sources =
    round_eighth (total_score (components_of fs dependencies sources))
