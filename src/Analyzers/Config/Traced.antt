-- ===== src/Analyzers/Config/Traced.antt =====
-- Which pairs of a document the findings of src/quantumguard/analyzers/config.py stand for, and where they
-- point.
use pqcensus.Base.{
  ℕ, suc, Bool, false, ◌&&◌, none, Option, length, count, lower, All-map, ◌+◌, ◌-◌, true, ◌≡◌, refl,
  ap, some, List, [], ◌∷◌, Text, get_elem?, any, occurs, arith, subst, All, Bool-cases,
  Option-cases, inl, inr, if◌then◌else◌,
}
use pqcensus.Util.Algorithms.{algorithm_display}
use pqcensus.Model.{Finding, Purpose}
use pqcensus.Policy.{Rule}
use pqcensus.Util.Paths.{path_suffix}
use pqcensus.Analyzers.Common.{splitlines}
use pqcensus.Analyzers.Config.Names.{is_interesting, classify}
use pqcensus.Analyzers.Config.Analysis.{
  Parsers, pairs_of, finding_of, findings_of, analyze, span_of, line_number, line_number_from,
}

-- A line that holds the value, with none before it, at a distance from the first.
line_number_from_lem :
    (n : ℕ) (lines : List Text) (value : Text)
    → any (occurs value) lines ≡ true
    → (i : ℕ) × (line : Text) × (line_number_from n lines value ≡ i + n)
      × (get_elem? lines i ≡ some line)
      × (occurs value line ≡ true)
unfolding line_number_from any
line_number_from_lem n [] value h = absurd cc
line_number_from_lem n (l ∷ lines) value h = elim (Bool-cases (occurs value l)) [
  | inl here ↦ (0, l, rw (here, if◌then◌else◌) (omega arith), refl, here)
  | inr past ↦
      let (i, line, e, found, here) = line_number_from_lem (suc n) lines value (ground arith) in
      (suc i, line, rw (past, if◌then◌else◌) (omega (arith, e)), found, here)
]

-- The line that `_line_number` names holds the value, if any line does.
line_number_lem :
    (source value : Text)
    → any (occurs value) (splitlines source) ≡ true
    → (line : Text) × (get_elem? (splitlines source) (line_number source value - 1) ≡ some line)
      × (occurs value line ≡ true)
unfolding line_number
line_number_lem source value h =
    let (i, line, e, found, here) = line_number_from_lem 1 (splitlines source) value h in
    (line, subst (λ k. get_elem? (splitlines source) k ≡ some line) (omega (arith, e)) found, here)

is_classified : Option (Text × Purpose) → Bool
is_classified none = false
is_classified (some c) = true

-- A pair whose key is of interest and that is classified.
unfoldable pub is_selected : Text × Text → Bool
unfolding is_classified is_interesting classify
is_selected pair = is_interesting pair.0 && is_classified (classify pair.0 pair.1)

-- A finding of a document stands for one of its pairs, whose key is of interest and is the symbol, with the
-- algorithm and the purpose as which the pair is classified; and if the value stands in a line of the
-- document, then it stands in the line that the finding names.
abbrev pub IsOfPair : Text → Text → List (Text × Text) → Finding → Type 0
IsOfPair rel source pairs f =
    (i : ℕ) × (key value algorithm : Text) × (purpose : Purpose) × (get_elem? pairs i
      ≡ some (key, value))
    × (is_interesting key ≡ true)
    × (classify key value ≡ some (algorithm, purpose))
    × (f.symbol ≡ some key)
    × (f.algorithm ≡ algorithm_display algorithm)
    × (f.purpose ≡ purpose)
    × (f.source_path ≡ rel)
    × (any (occurs value) (splitlines source) ≡ true
        → (line : Text) × (get_elem? (splitlines source) (f.span.start_line - 1) ≡ some line)
          × (occurs value line ≡ true))

IsOfPair-later :
    (rel source : Text) (pair : Text × Text) (pairs : List (Text × Text)) (f : Finding)
    → IsOfPair rel source pairs f
    → IsOfPair rel source (pair ∷ pairs) f
IsOfPair-later rel source pair pairs f (i, k, v, a, u, at, b, c, d, e, g, h, l) =
    (suc i, k, v, a, u, at, b, c, d, e, g, h, l)

module _ (p : Parsers) (rules : List Rule) where
  finding_of-line :
      (rel source key value algorithm : Text) (purpose : Purpose)
      → any (occurs value) (splitlines source) ≡ true
      → (line : Text) × (get_elem?
            (splitlines source)
            ((finding_of p rules rel source key value algorithm purpose).span.start_line - 1)
          ≡ some line)
        × (occurs value line ≡ true)
  unfolding finding_of span_of
  finding_of-line rel source key value algorithm purpose h = line_number_lem source value h

  findings_of_lem :
      (rel source : Text) (pairs : List (Text × Text))
      → All (IsOfPair rel source pairs) (findings_of p rules rel source pairs)
        × (length (findings_of p rules rel source pairs) ≡ count is_selected pairs)
  unfolding findings_of finding_of is_selected is_classified count
  findings_of_lem rel source [] = (tt, refl)
  findings_of_lem rel source ((key, value) ∷ pairs) =
      let (rest, counted) = findings_of_lem rel source pairs in
      let later =
        All-map (IsOfPair rel source pairs) (IsOfPair rel source ((key, value) ∷ pairs))
          (findings_of p rules rel source pairs) (IsOfPair-later rel source (key, value) pairs)
          rest in
      elim (Bool-cases (is_interesting key)) [
        | inr skipped ↦ rw (skipped, if◌then◌else◌) (later, counted)
        | inl wanted ↦ elim (Option-cases (classify key value)) [
          | inl e ↦ rw (wanted, e, if◌then◌else◌) (later, counted)
          | inr ((algorithm, purpose), e) ↦
              rw (wanted, e, if◌then◌else◌)
                (
                  (
                    (
                      0,
                      key,
                      value,
                      algorithm,
                      purpose,
                      refl,
                      wanted,
                      e,
                      refl,
                      refl,
                      refl,
                      refl,
                      finding_of-line rel source key value (algorithm_display algorithm) purpose,
                    ),
                    later,
                  ),
                  ap suc counted,
                )
        ]
      ]

  -- Every finding in a document stands for one of its pairs of a key and a value, whose key is of interest
  -- and is the symbol, with the algorithm and purpose as which the pair is classified, the path of the
  -- document, and a line that holds the value if any line does; and there are as many findings as pairs
  -- whose key is of interest and that are classified.
  pub analyze_lem :
      (rel source : Text)
      → let pairs = pairs_of p rules (lower (path_suffix rel)) source in
        All (IsOfPair rel source pairs) (analyze p rules rel source)
        × (length (analyze p rules rel source) ≡ count is_selected pairs)
  unfolding analyze
  analyze_lem rel source =
      findings_of_lem rel source (pairs_of p rules (lower (path_suffix rel)) source)
