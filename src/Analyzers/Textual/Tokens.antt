-- ===== src/Analyzers/Textual/Tokens.antt =====
-- What a match of the patterns of src/quantumguard/analyzers/textual.py says of its line.
use mathlib.Core.Option.{some-injective}
use pqcensus.Base.{
  before, ℕ, suc, ◌+◌, Bool, true, false, ◌≡◌, ◌∙◌, refl, ap, subst, inl, inr, Option, none, some,
  Bool-cases, Option-cases, List, [], ◌∷◌, ◌++◌, Text, text, map, length, contains, get_elem?,
  ==_refl, nat_beq_iff, starts_with, strip, non_empty, arith, nat_eq, list_eq, if◌then◌else◌,
}
use pqcensus.Analyzers.Textual.Patterns.{
  Pattern, patterns, fold_char, differ, word_ahead, is_word, match_at, first_alternative, search,
  first_match,
}
use pqcensus.Analyzers.Textual.Analysis.{strip_comments, line_match, slash_languages}

-- A text holds one of the alternatives, without regard to case, between two columns.
pub record HoldsToken (alternatives : List Text) (line : Text) (found : ℕ × ℕ) : Type 0 where
  pub ahead : Text
  pub token : Text
  pub behind : Text
  pub alternative : Text
  pub parts : line ≡ ahead ++ (token ++ behind)
  pub is_start : length ahead ≡ found.0
  pub is_end : found.0 + length token ≡ found.1
  pub known : contains alternatives alternative ≡ true
  pub same : map fold_char token ≡ map fold_char alternative

-- What is left of a line is its beginning.
before_prefix : (separator line : Text) → (rest : Text) × (line ≡ before separator line ++ rest)
unfolding before
before_prefix separator [] = ([], refl)
before_prefix separator (c ∷ t) =
    elim (starts_with separator (c ∷ t))
      as (λ b. (rest : Text) × (c ∷ t ≡ (if b then [] else c ∷ before separator t) ++ rest)) [
        | true ↦ (c ∷ t, refl)
        | false ↦ let (rest, e) = before_prefix separator t in (rest, ap (λ u. c ∷ u) e)
      ]

append_assoc : (a b c : Text) → (a ++ b) ++ c ≡ a ++ (b ++ c)
append_assoc [] b c = refl
append_assoc (x ∷ a) b c = ap (λ u. x ∷ u) (append_assoc a b c)

strip_comments_prefix :
    (line suffix : Text) → (rest : Text) × (line ≡ strip_comments line suffix ++ rest)
unfolding strip_comments
strip_comments_prefix line suffix =
    let (rest, e) = before_prefix (text "//") line in
    let (rest', e') = before_prefix (text "#") (before (text "//") line) in
    elim (contains slash_languages suffix)
      as (λ b.
        (rest : Text) × (line
          ≡ (if b then before (text "//") line else before (text "#") (before (text "//") line))
            ++ rest)) [
              | true ↦ (rest, e)
              | false ↦ (
                rest' ++ rest,
                e
                    ∙ ap (λ u. u ++ rest) e'
                    ∙ append_assoc (before (text "#") (before (text "//") line)) rest' rest,
              )
            ]

kept_lem {ℓ} :
    {A : Type ℓ} (b : Bool) (o : Option A) (a : A) → (if b then o else none) ≡ some a → o ≡ some a
kept_lem true o a h = h
kept_lem false o a h = absurd cc

module _ (isalnum : ℕ → Bool) where
  match_at_lem :
      (after_word : Bool) (a t : Text)
      → match_at isalnum after_word a t ≡ true
      → (token : Text) × (behind : Text) × (t ≡ token ++ behind)
        × (length token ≡ length a)
        × (map fold_char token ≡ map fold_char a)
  unfolding match_at
  match_at_lem after_word [] t h = ([], t, refl, refl, refl)
  match_at_lem after_word (p ∷ ps) [] h = absurd cc
  match_at_lem after_word (p ∷ ps) (c ∷ t) h =
      let (token, behind, e, n, same) = match_at_lem (is_word isalnum c) ps t (ground arith) in
      let head : fold_char c ≡ fold_char p =
        (nat_beq_iff (fold_char c) (fold_char p)).0 (ground arith) in
      (c ∷ token, behind, ap (λ u. c ∷ u) e, ap suc n, cc)

  first_alternative_lem :
      (alternatives : List Text) (t : Text) (n : ℕ)
      → first_alternative isalnum alternatives t ≡ some n
      → (token : Text) × (behind : Text) × (a : Text) × (t ≡ token ++ behind)
        × (length token ≡ n)
        × (contains alternatives a ≡ true)
        × (map fold_char token ≡ map fold_char a)
  unfolding first_alternative contains
  first_alternative_lem [] t n = (λ h. absurd cc)
  first_alternative_lem (a ∷ alternatives) t n = elim (Bool-cases (match_at isalnum false a t)) [
    | inl here ↦
        rw (here, if◌then◌else◌)
          (λ h.
            let (token, behind, e, l, same) = match_at_lem false a t here in
            (token, behind, a, e, ground (arith, l, h), rw (==_refl a) refl, same))
    | inr past ↦
        rw (past, if◌then◌else◌)
          (λ h.
            let (token, behind, b, e, l, known, same) = first_alternative_lem alternatives t n h in
            (token, behind, b, e, l, ground (arith, known), same))
  ]

  search_lem :
      (alternatives : List Text) (i : ℕ) (after_word : Bool) (code : Text) (found : ℕ × ℕ)
      → search isalnum alternatives i after_word code ≡ some found
      → (ahead : Text) × (token : Text) × (behind : Text) × (a : Text) × (code
          ≡ ahead ++ (token ++ behind))
        × (i + length ahead ≡ found.0)
        × (found.0 + length token ≡ found.1)
        × (contains alternatives a ≡ true)
        × (map fold_char token ≡ map fold_char a)
  unfolding search
  search_lem alternatives i after_word [] found = (λ h. absurd cc)
  search_lem alternatives i after_word (c ∷ t) found =
      elim (Option-cases (
        if differ after_word (word_ahead isalnum (c ∷ t))
        then first_alternative isalnum alternatives (c ∷ t)
        else none)) [
          | inl past ↦
              rw (search, past)
                (λ h.
                  let (ahead, token, behind, a, e, start, end, known, same) =
                    search_lem alternatives (suc i) (is_word isalnum c) t found h in
                  (
                    c ∷ ahead,
                    token,
                    behind,
                    a,
                    ap (λ u. c ∷ u) e,
                    omega (arith, start),
                    end,
                    known,
                    same,
                  ))
          | inr (n, here) ↦
              rw (search, here)
                (λ h.
                  let (token, behind, a, e, l, known, same) =
                    first_alternative_lem alternatives (c ∷ t) n
                      (kept_lem (differ after_word (word_ahead isalnum (c ∷ t))) _ n here) in
                  let at : (i, i + n) ≡ found = some-injective _ _ h in
                  (
                    [],
                    token,
                    behind,
                    a,
                    e,
                    omega (arith, ap (λ p. p.0) at),
                    omega (arith, ap (λ p. p.0) at, ap (λ p. p.1) at, l),
                    known,
                    same,
                  ))
        ]

  -- The first pattern that matches is one of the patterns, and the code holds one of its tokens.
  first_match_lem :
      (ps : List Pattern) (code : Text) (p : Pattern) (found : ℕ × ℕ)
      → first_match isalnum ps code ≡ some (p, found)
      → ((i : ℕ) × (get_elem? ps i ≡ some p)) × HoldsToken p.alternatives code found
  unfolding first_match
  first_match_lem [] code p found = (λ h. absurd cc)
  first_match_lem (q ∷ ps) code p found =
      elim (Option-cases (search isalnum q.alternatives 0 false code)) [
        | inl past ↦
            rw (first_match, past)
              (λ h.
                let ((i, at), holds) = first_match_lem ps code p found h in ((suc i, at), holds))
        | inr (at, here) ↦
            rw (first_match, here)
              (λ h.
                let e : (q, at) ≡ (p, found) = some-injective (q, at) (p, found) h in
                let (ahead, token, behind, a, parts, start, end, known, same) =
                  search_lem q.alternatives 0 false code at here in
                (
                  (0, ap some (ap (λ m. m.0) e)),
                  subst (λ m. HoldsToken m.0.alternatives code m.1) e
                      record {
                        ahead = ahead;
                        token = token;
                        behind = behind;
                        alternative = a;
                        parts = parts;
                        is_start = omega (arith, start);
                        is_end = end;
                        known = known;
                        same = same;
                      },
                ))
      ]

  pub line_match_lem :
      (suffix line : Text) (p : Pattern) (found : ℕ × ℕ)
      → line_match isalnum suffix line ≡ some (p, found)
      → ((i : ℕ) × (get_elem? patterns i ≡ some p)) × HoldsToken p.alternatives line found
  unfolding line_match
  line_match_lem suffix line p found h =
      let (rest, e) = strip_comments_prefix line suffix in
      let (listed, t) = first_match_lem patterns (strip_comments line suffix) p found (
        kept_lem (non_empty (strip (strip_comments line suffix)))
          (first_match isalnum patterns (strip_comments line suffix)) (p, found) h) in
      (
        listed,
        record {
          ahead = t.ahead;
          token = t.token;
          behind = t.behind ++ rest;
          alternative = t.alternative;
          parts =
              e
              ∙ ap (λ u. u ++ rest) t.parts
              ∙ append_assoc t.ahead (t.token ++ t.behind) rest
              ∙ ap (λ u. t.ahead ++ u) (append_assoc t.token t.behind rest);
          is_start = t.is_start;
          is_end = t.is_end;
          known = t.known;
          same = t.same;
        },
      )
