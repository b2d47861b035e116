-- ===== src/Analyzers/Textual/Lines.antt =====
-- Where the findings of src/quantumguard/analyzers/textual.py point.
use pqcensus.Base.{
  ℕ, suc, ◌-◌, ◌≤◌, ◌<◌, Bool, true, false, ◌≡◌, refl, subst, inl, inr, some, Option-cases, List,
  [], ◌∷◌, Text, contains, get_elem?, All, All-map, lower, arith, nat_eq, list_eq, if◌then◌else◌,
}
use pqcensus.Model.{Finding}
use pqcensus.Policy.{Rule}
use pqcensus.Analyzers.Common.{splitlines}
use pqcensus.Util.Paths.{path_suffix}
use pqcensus.Util.Algorithms.{algorithm_display}
use pqcensus.Analyzers.Textual.Patterns.{Pattern, patterns}
use pqcensus.Analyzers.Textual.Analysis.{
  token_finding, line_match, analyze_lines, analyze_text, text_extensions,
}
use pqcensus.Analyzers.Textual.Tokens.{HoldsToken, line_match_lem}

-- A finding points at a token of one of the patterns in a line of the source, and is of the algorithm
-- and purpose of that pattern.
pub record PointsAtToken (lines : List Text) (number : ℕ) (f : Finding) : Type 0 where
  pub line : Text
  pub pattern : Pattern
  pub index : ℕ
  pub end : ℕ
  pub in_source : get_elem? lines (f.span.start_line - number) ≡ some line
  pub from_number : number ≤ f.span.start_line
  pub same_line : f.span.end_line ≡ some f.span.start_line
  pub end_column : f.span.end_column ≡ some end
  pub holds : HoldsToken pattern.alternatives line (f.span.start_column, end)
  pub listed : get_elem? patterns index ≡ some pattern
  pub algorithm : f.algorithm ≡ algorithm_display pattern.algorithm
  pub purpose : f.purpose ≡ pattern.purpose

PointsAtToken-later :
    (line : Text) (lines : List Text) (n : ℕ) (f : Finding)
    → PointsAtToken lines (suc n) f
    → PointsAtToken (line ∷ lines) n f
PointsAtToken-later line lines n f p = record {
  line = p.line;
  pattern = p.pattern;
  index = p.index;
  end = p.end;
  in_source =
      let past : f.span.start_line - n ≡ suc (f.span.start_line - suc n) =
        omega (arith, p.from_number) in
      rw past p.in_source;
  from_number = omega (arith, p.from_number);
  same_line = p.same_line;
  end_column = p.end_column;
  holds = p.holds;
  listed = p.listed;
  algorithm = p.algorithm;
  purpose = p.purpose;
}

zero_diff : (n : ℕ) → 0 ≡ suc n - suc n
zero_diff n = omega arith

-- The lines of the findings go up from one finding to the next.
abbrev pub IsAscending : ℕ → List Finding → Type 0
IsAscending n [] = Unit
IsAscending n (f ∷ fs) = (n < f.span.start_line) × IsAscending f.span.start_line fs

IsAscending-weaken : (m n : ℕ) (fs : List Finding) → m ≤ n → IsAscending n fs → IsAscending m fs
IsAscending-weaken m n [] h a = tt
IsAscending-weaken m n (f ∷ fs) h a = (omega (arith, a.0), a.1)

module _ (sha256 : Text → Text) (isalnum : ℕ → Bool) (rules : List Rule) where
  analyze_lines_lem :
      (rel suffix : Text) (n : ℕ) (lines : List Text)
      → let fs = analyze_lines sha256 isalnum rules rel suffix (suc n) lines in
        All (PointsAtToken lines (suc n)) fs × IsAscending n fs
  unfolding analyze_lines token_finding
  analyze_lines_lem rel suffix n [] = (tt, tt)
  analyze_lines_lem rel suffix n (line ∷ lines) =
      let (points, ascending) = analyze_lines_lem rel suffix (suc n) lines in
      let fs = analyze_lines sha256 isalnum rules rel suffix (suc (suc n)) lines in
      let later =
        All-map (PointsAtToken lines (suc (suc n))) (PointsAtToken (line ∷ lines) (suc n)) fs
          (λ f. PointsAtToken-later line lines (suc n) f) points in
      elim (Option-cases (line_match isalnum suffix line)) [
        | inl e ↦
            rw (analyze_lines, e) (later, IsAscending-weaken n (suc n) fs (omega arith) ascending)
        | inr ((p, found), e) ↦
            let ((i, at), holds) = line_match_lem isalnum suffix line p found e in
            rw (analyze_lines, e)
              (
                (
                  record {
                    line = line;
                    pattern = p;
                    index = i;
                    end = found.1;
                    in_source =
                        subst (λ k. get_elem? (line ∷ lines) k ≡ some line) (zero_diff n) refl;
                    from_number = omega arith;
                    same_line = refl;
                    end_column = refl;
                    holds = holds;
                    listed = at;
                    algorithm = refl;
                    purpose = refl;
                  },
                  later,
                ),
                (omega arith, ascending),
              )
      ]

  -- Each finding in a text points at a token of one of the patterns, without regard to case, in the
  -- line that it names, and has the algorithm and purpose of that pattern; and the findings stand in
  -- the order of their lines, no two of them on the same line.
  pub analyze_text_lem :
      (rel source : Text)
      → All (PointsAtToken (splitlines source) 1) (analyze_text sha256 isalnum rules rel source)
        × IsAscending 0 (analyze_text sha256 isalnum rules rel source)
  unfolding analyze_text
  analyze_text_lem rel source =
      elim (contains text_extensions (lower (path_suffix rel)))
        as (λ b.
          let fs =
            if b
            then analyze_lines sha256 isalnum rules rel (lower (path_suffix rel)) 1
                (splitlines source)
            else [] in
          All (PointsAtToken (splitlines source) 1) fs × IsAscending 0 fs) [
            | true ↦ analyze_lines_lem rel (lower (path_suffix rel)) 0 (splitlines source)
            | false ↦ (tt, tt)
          ]
