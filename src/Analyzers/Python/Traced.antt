-- ===== src/Analyzers/Python/Traced.antt =====
-- What the findings of the analyzer of Python, src/quantumguard/analyzers/python.py, stand for.
use mathlib.Core.Option.{some-injective}
use pqcensus.Base.{
  ◌≤◌, ◌≡◌, any, Bool-cases, if◌then◌else◌, refl, sym, subst, inl, inr, Option, none, some,
  Option-cases, List, [], ◌∷◌, Text, map, count, All, arith, nat_eq, list_eq, ◌==◌,
}
use pqcensus.Base.Dict.{last_with}
use pqcensus.Base.Dict.Indexed.{as_count, index_by, All-index_by}
use pqcensus.Base.Sort.{IsSorted, nat_ord, list_ord, pair_ord}
use pqcensus.Base.Sort.Laws.{All-sorted}
use pqcensus.Model.{Finding}
use pqcensus.Policy.{Rule}
use pqcensus.Audit.{deduplicate, unique_findings, finding_key}
use pqcensus.Audit.Unique.{unique_findings_lem}
use pqcensus.Analyzers.Common.{IsFresh, splitlines}
use pqcensus.Util.Algorithms.{algorithm_display}
use pqcensus.Analyzers.Python.Tree.{Node}
use pqcensus.Analyzers.Python.Analysis.{
  Seen, observations, symbol_context, scope_of, seen_finding, seen_raises, named_findings,
  analyze_nodes,
}
use pqcensus.Analyzers.Python.Seen.{SeenIn, observations_lem}

-- A finding that is traced to a node of a file: fresh at its path, with the span and the symbol of the
-- node, and with the algorithm, purpose and confidence of what is seen there.
abbrev pub IsTraced : List Rule → Text → List Node → Finding → Type 0
IsTraced rules rel nodes f =
    IsFresh rules f
    × (f.source_path ≡ rel)
    × ((seen : Seen) × SeenIn (scope_of nodes) nodes seen
        × (f.span ≡ seen.node.span)
        × (f.symbol ≡ symbol_context seen.node nodes)
        × (f.algorithm ≡ algorithm_display seen.observation.algorithm)
        × (f.purpose ≡ seen.observation.purpose)
        × (f.confidence ≡ seen.observation.confidence))

deduplicate-All {κ} : (P : Finding → Type κ) (fs : List Finding) → All P fs → All P (deduplicate fs)
unfolding deduplicate
deduplicate-All P fs h =
    All-sorted finding_key P (index_by (λ f. f.finding_id) fs)
      (All-index_by (λ f. f.finding_id) P fs h)

deduplicate_unique : (fs : List Finding) → deduplicate fs ≡ unique_findings fs
unfolding deduplicate unique_findings
deduplicate_unique fs = refl

as_count_le : (o : Option Finding) → as_count o ≤ 1
unfolding as_count
as_count_le none = omega arith
as_count_le (some f) = omega arith

module _ (sha256 : Text → Text) (rules : List Rule) where
  seen_finding-IsTraced :
      (rel : Text) (lines : List Text) (nodes : List Node) (seen : Seen)
      → SeenIn (scope_of nodes) nodes seen
      → IsTraced rules rel nodes (seen_finding sha256 rules rel lines nodes seen)
  unfolding seen_finding
  seen_finding-IsTraced rel lines nodes seen h = (
    record {
      risk = refl;
      severity = refl;
      rule = refl;
      targets = refl;
      references = refl;
      environment = refl;
      status = refl;
      suppression = refl;
    },
    refl,
    (seen, h, refl, refl, refl, refl, refl),
  )

  seen_findings-IsTraced :
      (rel : Text) (lines : List Text) (nodes : List Node) (seens : List Seen)
      → All (SeenIn (scope_of nodes) nodes) seens
      → All (IsTraced rules rel nodes) (map (seen_finding sha256 rules rel lines nodes) seens)
  seen_findings-IsTraced rel lines nodes [] h = tt
  seen_findings-IsTraced rel lines nodes (seen ∷ seens) h = (
    seen_finding-IsTraced rel lines nodes seen h.0,
    seen_findings-IsTraced rel lines nodes seens h.1,
  )

  named_findings-some :
      (rel source : Text) (nodes : List Node) (seens : List Seen) (fs : List Finding)
      → named_findings sha256 rules rel source nodes seens ≡ some fs
      → some (deduplicate (map (seen_finding sha256 rules rel (splitlines source) nodes) seens))
        ≡ some fs
  unfolding named_findings
  named_findings-some rel source nodes seens fs =
      elim (Bool-cases (any (seen_raises sha256 rules rel) seens)) [
        | inl e ↦ rw (named_findings, e, if◌then◌else◌) (λ h. absurd cc)
        | inr e ↦ rw (named_findings, e, if◌then◌else◌) (λ h. h)
      ]

  -- Every finding in a Python file is traced: it is fresh at the path of the file, and it has the span
  -- and the enclosing symbol of a node that is reachable and that is a call of a name that is not
  -- shadowed, classified by its qualified name as the finding's algorithm, purpose and confidence, or an
  -- assignment with a target that is so classified; no two findings have the same identifier; and they are ordered by
  -- path, line, column and identifier.
  pub analyze_nodes_lem :
      (rel source : Text) (nodes : List Node) (fs : List Finding)
      → analyze_nodes sha256 rules rel source nodes ≡ some fs
      → All (IsTraced rules rel nodes) fs
        × ((id : Text) → count (λ f. id == f.finding_id) fs ≤ 1)
        × IsSorted finding_key fs
  unfolding analyze_nodes
  analyze_nodes_lem rel source nodes fs =
      elim (Option-cases (observations (scope_of nodes) nodes)) [
        | inl e ↦ rw (analyze_nodes, e) (λ h. absurd cc)
        | inr (seens, e) ↦
            rw (analyze_nodes, e)
              (λ k.
                let h = named_findings-some rel source nodes seens fs k in
                let raw = map (seen_finding sha256 rules rel (splitlines source) nodes) seens in
                let (counted, _, in_order) = unique_findings_lem raw in
                subst
                  (λ gs.
                    All (IsTraced rules rel nodes) gs
                    × ((id : Text) → count (λ f. id == f.finding_id) gs ≤ 1)
                    × IsSorted finding_key gs)
                  (some-injective (deduplicate raw) fs h)
                  (
                    deduplicate-All (IsTraced rules rel nodes) raw (
                        seen_findings-IsTraced rel (splitlines source) nodes seens
                          (observations_lem (scope_of nodes) nodes seens e)),
                    rw (deduplicate_unique raw) (λ id.
                        subst (λ n. n ≤ 1) (sym (counted id))
                          (as_count_le (last_with (λ f. f.finding_id) id none raw))),
                    rw (deduplicate_unique raw) in_order,
                  ))
      ]
