-- ===== src/Dependencies/Found.antt =====
-- What `discover_dependencies` of src/quantumguard/dependencies.py returns.
use pqcensus.Base.{
  Bool, ◌&&◌, ◌≡◌, ◌∙◌, none, List, Text, lower, any, count, ◌==◌, nat_eq, list_eq, pair_eq,
}
use pqcensus.Base.Dict.{last_with}
use pqcensus.Base.Dict.Indexed.{index_by, as_count, passes, any-index_by, count-index_by}
use pqcensus.Base.Sort.{IsSorted, nat_ord, list_ord, pair_ord}
use pqcensus.Base.Sort.Laws.{sorted-IsSorted, any-sorted, count-sorted}
use pqcensus.Model.Result.{Dependency}
use pqcensus.Dependencies.{dependency_key, found_dependencies}

-- Of the dependencies in the manifests, exactly one is returned for each ecosystem, name in lower case
-- and manifest among them, the last; and they are in the order of these three.
pub found_dependencies_lem :
    (items : List Dependency)
    → ((k : Text × (Text × Text))
        → count (λ d. k == (d.ecosystem, (lower d.name, d.manifest))) (found_dependencies items)
          ≡ as_count (last_with (λ d. (d.ecosystem, (lower d.name, d.manifest))) k none items))
      × ((k : Text × (Text × Text)) (p : Dependency → Bool)
          → any
              (λ d. (k == (d.ecosystem, (lower d.name, d.manifest))) && p d)
              (found_dependencies items)
            ≡ passes p (last_with (λ d. (d.ecosystem, (lower d.name, d.manifest))) k none items))
      × IsSorted {K = Text × (Text × Text)}
          (λ d. (d.ecosystem, (lower d.name, d.manifest)))
          (found_dependencies items)
unfolding found_dependencies dependency_key
found_dependencies_lem items =
    let kept = index_by dependency_key items in
    (
      (λ k.
          count-sorted dependency_key (λ d. k == dependency_key d) kept
          ∙ count-index_by dependency_key k items),
      (λ k p.
          any-sorted dependency_key (λ d. (k == dependency_key d) && p d) kept
          ∙ any-index_by dependency_key k p items),
      sorted-IsSorted dependency_key kept,
    )
