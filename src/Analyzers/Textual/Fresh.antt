-- ===== src/Analyzers/Textual/Fresh.antt =====
-- What the findings of src/quantumguard/analyzers/textual.py say.
use pqcensus.Base.{
  ℕ, suc, Bool, true, false, ◌≡◌, refl, Option-cases, inl, inr, List, [], ◌∷◌, Text, contains,
  lower, All, if◌then◌else◌, nat_eq, list_eq,
}
use pqcensus.Model.{Finding, Confidence}
use pqcensus.Policy.{Rule}
use pqcensus.Analyzers.Common.{IsFresh, splitlines}
use pqcensus.Util.Paths.{path_suffix}
use pqcensus.Analyzers.Textual.Patterns.{Pattern}
use pqcensus.Analyzers.Textual.Analysis.{
  line_match, token_finding, analyze_lines, analyze_text, text_extensions,
}

module _ (sha256 : Text → Text) (isalnum : ℕ → Bool) (rules : List Rule) where
  -- A fresh finding at a path, of low confidence.
  abbrev pub IsFreshToken : Text → Finding → Type 0
  IsFreshToken rel f = IsFresh rules f × (f.source_path ≡ rel) × (f.confidence ≡ Confidence.low)

  token_finding-IsFreshToken :
      (rel suffix line : Text) (n : ℕ) (p : Pattern) (found : ℕ × ℕ)
      → IsFreshToken rel (token_finding sha256 isalnum rules rel suffix line n p found)
  unfolding token_finding
  token_finding-IsFreshToken rel suffix line n p found = (
    record {
      risk = refl;
      severity = refl;
      rule = refl;
      targets = refl;
      references = refl;
      environment = refl;
      status = refl;
      suppression = refl;
    },
    refl,
    refl,
  )

  analyze_lines-IsFreshToken :
      (rel suffix : Text) (n : ℕ) (lines : List Text)
      → All (IsFreshToken rel) (analyze_lines sha256 isalnum rules rel suffix n lines)
  unfolding analyze_lines
  analyze_lines-IsFreshToken rel suffix n [] = tt
  analyze_lines-IsFreshToken rel suffix n (line ∷ lines) =
      let rest = analyze_lines-IsFreshToken rel suffix (suc n) lines in
      elim (Option-cases (line_match isalnum suffix line)) [
        | inl e ↦ rw (analyze_lines, e) rest
        | inr ((p, found), e) ↦
            rw (analyze_lines, e) (token_finding-IsFreshToken rel suffix line n p found, rest)
      ]

  -- Every finding of the text analyzer is fresh: its risk, severity, rule, targets and references are
  -- what the policy says of its algorithm and purpose; it is active, not suppressed, has the path and
  -- the environment of the file, and is of low confidence.
  pub analyze_text-IsFreshToken :
      (rel source : Text) → All (IsFreshToken rel) (analyze_text sha256 isalnum rules rel source)
  unfolding analyze_text
  analyze_text-IsFreshToken rel source =
      elim (contains text_extensions (lower (path_suffix rel)))
        as (λ b. All (IsFreshToken rel) (
          if b
          then analyze_lines sha256 isalnum rules rel (lower (path_suffix rel)) 1
              (splitlines source)
          else [])) [
            | true ↦ analyze_lines-IsFreshToken rel (lower (path_suffix rel)) 1 (splitlines source)
            | false ↦ tt
          ]
