-- ===== src/Suppressions/Reasons.antt =====
-- Why a suppression of src/quantumguard/suppression.py silences a finding.
use pqcensus.Base.{
  ℕ, suc, zero, true, ◌≡◌, ◌⊎◌, inl, inr, refl, ◌∙◌, Option, none, some, List, [], ◌∷◌, Text, text,
  upper, first, arith, Option-cases, Bool-cases, ==_iff, nat_eq, list_eq, get_elem?, if◌then◌else◌,
}
use pqcensus.Base.Sort.{nat_ord, list_ord}
use pqcensus.Model.{Finding, Suppression}
use pqcensus.Suppressions.{
  Outside, active, matches, line_at, marked, line_suppression, first_line, inline_suppression,
  matched, candidate_lines, path_fits,
}
use pqcensus.Suppressions.Inline.{InlineMatch, inline_search}

module _ (o : Outside) where
  -- A suppression is the one of the marker in a line of the finding's file, its own line or the one above (line 1
  -- for line 0).
  abbrev pub IsMarked : Finding → Suppression → Type 0
  IsMarked f s =
      (lines : List Text) × (n : ℕ) × (content : Text) × (m : InlineMatch) × (o.lines_of
          f.source_path
        ≡ some lines)
      × ((n ≡ f.span.start_line)
          ⊎ ((suc n ≡ f.span.start_line) ⊎ ((f.span.start_line ≡ 0) × (n ≡ 1))))
      × (line_at o lines n ≡ some content)
      × (inline_search content ≡ some m)
      × (s ≡ marked o f.source_path n m)

  -- A suppression is one of those that the configuration has.
  abbrev pub IsListed : List Suppression → Suppression → Type 0
  IsListed configured s = (i : ℕ) × (get_elem? configured i ≡ some s)

  -- Why a suppression silences a finding: it has not expired, it names the finding's rule or ALL, in
  -- any case of letters, it has no path or one that fits the finding's, and it stands at the finding or in the
  -- configuration.
  pub record Justifies (configured : List Suppression) (s : Suppression) (f : Finding)
      : Type 0 where
    pub unexpired : active o s ≡ true
    pub named : (upper s.rule_id ≡ text "ALL") ⊎ (upper s.rule_id ≡ upper f.rule_id)
    pub scoped :
        (s.path ≡ none)
        ⊎ ((s.path ≡ some [])
            ⊎ ((p : Text) × (s.path ≡ some p) × (o.fnmatch f.source_path p ≡ true)))
    pub origin : IsMarked f s ⊎ IsListed configured s

  -- What `matched` finds, before its reasons.
  abbrev pub Found : List Suppression → Finding → Suppression → Type 0
  Found configured f s = (matches o s f ≡ true) × (IsMarked f s ⊎ IsListed configured s)

  line_suppression-matches :
      (f : Finding) (lines : List Text) (n : ℕ) (s : Suppression)
      → line_suppression o f lines n ≡ some s
      → (matches o s f ≡ true)
        × (content : Text) × (m : InlineMatch) × (line_at o lines n ≡ some content)
        × (inline_search content ≡ some m)
        × (s ≡ marked o f.source_path n m)
  unfolding line_suppression
  line_suppression-matches f lines n s = elim (Option-cases (line_at o lines n)) [
    | inl e ↦ rw (line_suppression, e) (λ h. absurd cc)
    | inr (content, e) ↦ elim (Option-cases (inline_search content)) [
      | inl k ↦ rw (line_suppression, e, k) (λ h. absurd cc)
      | inr (m, k) ↦ elim (Bool-cases (matches o (marked o f.source_path n m) f)) [
        | inl y ↦
            rw (line_suppression, e, k, y, if◌then◌else◌)
              (λ h. (ground (arith, y), content, m, refl, k, cc))
        | inr y ↦ rw (line_suppression, e, k, y, if◌then◌else◌) (λ h. absurd cc)
      ]
    ]
  ]

  first_line_cases :
      (f : Finding) (lines : List Text) (n : ℕ) (ns : List ℕ) (s : Suppression)
      → first_line o f lines (n ∷ ns) ≡ some s
      → (line_suppression o f lines n ≡ some s) ⊎ (first_line o f lines ns ≡ some s)
  unfolding first_line
  first_line_cases f lines n ns s h = ground arith

  first_line-index :
      (f : Finding) (lines : List Text) (ns : List ℕ) (s : Suppression)
      → first_line o f lines ns ≡ some s
      → (i : ℕ) × (n : ℕ) × (get_elem? ns i ≡ some n) × (line_suppression o f lines n ≡ some s)
  unfolding first_line
  first_line-index f lines [] s h = absurd cc
  first_line-index f lines (n ∷ ns) s h = elim (first_line_cases f lines n ns s h) [
    | inl e ↦ (0, n, refl, e)
    | inr e ↦ let (i, m, at, found) = first_line-index f lines ns s e in (suc i, m, at, found)
  ]

  candidate_lines_lem :
      (k i n : ℕ)
      → get_elem? (candidate_lines o k) i ≡ some n
      → (n ≡ k) ⊎ ((suc n ≡ k) ⊎ ((k ≡ 0) × (n ≡ 1)))
  unfolding candidate_lines
  candidate_lines_lem zero zero n h = ground arith
  candidate_lines_lem zero (suc zero) n h = ground arith
  candidate_lines_lem zero (suc (suc i)) n h = absurd cc
  candidate_lines_lem (suc zero) zero n h = ground arith
  candidate_lines_lem (suc zero) (suc i) n h = absurd cc
  candidate_lines_lem (suc (suc k)) zero n h = ground arith
  candidate_lines_lem (suc (suc k)) (suc zero) n h = ground arith
  candidate_lines_lem (suc (suc k)) (suc (suc i)) n h = absurd cc

  inline_suppression-Found :
      (configured : List Suppression) (f : Finding) (s : Suppression)
      → inline_suppression o f ≡ some s
      → Found configured f s
  unfolding inline_suppression
  inline_suppression-Found configured f s = elim (Option-cases (o.lines_of f.source_path)) [
    | inl e ↦ rw (inline_suppression, e) (λ h. absurd cc)
    | inr (lines, e) ↦
        rw (inline_suppression, e)
          (λ h.
            let (i, n, at, found) =
              first_line-index f lines (candidate_lines o f.span.start_line) s h in
            let (fits, content, m, line, marker, made) =
              line_suppression-matches f lines n s found in
            (
              fits,
              inl (
                lines,
                n,
                content,
                m,
                refl,
                candidate_lines_lem f.span.start_line i n at,
                line,
                marker,
                made,
              ),
            ))
  ]

  first-Found :
      (f : Finding) (configured : List Suppression) (s : Suppression)
      → first (λ r. matches o r f) configured ≡ some s
      → (matches o s f ≡ true) × IsListed configured s
  unfolding first
  first-Found f [] s = λ h. absurd cc
  first-Found f (r ∷ rs) s = elim (Bool-cases (matches o r f)) [
    | inl e ↦ rw (first, e, if◌then◌else◌) (λ h. (ground (arith, e), (0, h)))
    | inr e ↦
        rw (first, e, if◌then◌else◌)
          (λ h. let (fits, (i, at)) = first-Found f rs s h in (fits, (suc i, at)))
  ]

  pub matched-Found :
      (configured : List Suppression) (f : Finding) (s : Suppression)
      → matched o configured f ≡ some s
      → Found configured f s
  unfolding matched
  matched-Found configured f s = elim (Option-cases (inline_suppression o f)) [
    | inl e ↦
        rw (matched, e)
          (λ h. let (fits, listed) = first-Found f configured s h in (fits, inr listed))
    | inr (r, e) ↦ rw (matched, e) (λ h. inline_suppression-Found configured f s (e ∙ h))
  ]

  path_fits_lem :
      (path : Option Text) (source_path : Text)
      → path_fits o path source_path ≡ true
      → (path ≡ none)
        ⊎ ((path ≡ some []) ⊎ ((p : Text) × (path ≡ some p) × (o.fnmatch source_path p ≡ true)))
  unfolding path_fits
  path_fits_lem none source_path h = inl refl
  path_fits_lem (some []) source_path h = inr (inl refl)
  path_fits_lem (some (c ∷ t)) source_path h = inr (inr (c ∷ t, refl, h))

  fitting :
      (s : Suppression) (f : Finding)
      → matches o s f ≡ true
      → path_fits o s.path f.source_path ≡ true
  unfolding matches
  fitting s f h = ground arith

  pub Found-Justifies :
      (configured : List Suppression) (s : Suppression) (f : Finding)
      → Found configured f s
      → Justifies configured s f
  unfolding matches
  Found-Justifies configured s f (h, origin) = record {
    unexpired = ground arith;
    named =
        ground (
          arith,
          ==_iff (upper s.rule_id) (text "ALL"),
          ==_iff (upper s.rule_id) (upper f.rule_id),
        );
    scoped = path_fits_lem s.path f.source_path (fitting s f h);
    origin = origin;
  }
