-- ===== src/Analyzers/Config/Fresh.antt =====
-- The findings of the configuration analyzer, src/quantumguard/analyzers/config.py, are fresh.
use pqcensus.Base.{
  ◌≡◌, refl, List, [], ◌∷◌, Text, All, Bool-cases, Option-cases, inl, inr, if◌then◌else◌,
}
use pqcensus.Util.Algorithms.{algorithm_display}
use pqcensus.Model.{Finding, Purpose}
use pqcensus.Policy.{Rule}
use pqcensus.Analyzers.Common.{IsFresh}
use pqcensus.Analyzers.Config.Names.{is_interesting, classify}
use pqcensus.Analyzers.Config.Analysis.{Parsers, finding_of, findings_of, analyze}

module _ (p : Parsers) (rules : List Rule) where
  finding_of-IsFresh :
      (rel source key value algorithm : Text) (purpose : Purpose)
      → IsFresh rules (finding_of p rules rel source key value algorithm purpose)
  unfolding finding_of
  finding_of-IsFresh rel source key value algorithm purpose = record {
    risk = refl;
    severity = refl;
    rule = refl;
    targets = refl;
    references = refl;
    environment = refl;
    status = refl;
    suppression = refl;
  }

  -- A fresh finding at a path.
  abbrev pub IsFreshAt : Text → Finding → Type 0
  IsFreshAt rel f = IsFresh rules f × (f.source_path ≡ rel)

  findings_of-IsFresh :
      (rel source : Text) (pairs : List (Text × Text))
      → All (IsFreshAt rel) (findings_of p rules rel source pairs)
  unfolding findings_of
  findings_of-IsFresh rel source [] = tt
  findings_of-IsFresh rel source ((key, value) ∷ pairs) = elim (Bool-cases (is_interesting key)) [
    | inr skipped ↦ rw (skipped, if◌then◌else◌) (findings_of-IsFresh rel source pairs)
    | inl wanted ↦ elim (Option-cases (classify key value)) [
      | inl e ↦ rw (wanted, e, if◌then◌else◌) (findings_of-IsFresh rel source pairs)
      | inr (c, e) ↦
          rw (wanted, e, if◌then◌else◌)
            (
              (finding_of-IsFresh rel source key value (algorithm_display c.0) c.1, refl),
              findings_of-IsFresh rel source pairs,
            )
    ]
  ]

  -- Every finding in a document, however it is parsed, is fresh: its risk, severity, rule, targets and
  -- references are what the policy says of its algorithm and purpose; it is active, not suppressed,
  -- and has the path and the environment of the document.
  pub analyze-IsFresh : (rel source : Text) → All (IsFreshAt rel) (analyze p rules rel source)
  unfolding analyze
  analyze-IsFresh rel source = findings_of-IsFresh rel source _
