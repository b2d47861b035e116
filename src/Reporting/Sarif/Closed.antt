-- ===== src/Reporting/Sarif/Closed.antt =====
-- What the SARIF log of src/quantumguard/reporting.py holds of the findings.
use pqcensus.Base.{
  Option, none, some, not, true, ◌≡◌, refl, ◌∙◌, List, [], ◌∷◌, Text, map, keep, contains, All,
  arith, nat_eq, list_eq, ◌==◌, ==_iff, ==_refl, if◌then◌else◌, count,
}
use pqcensus.Base.Sort.{nat_ord, list_ord, IsSorted}
use pqcensus.Base.Sort.Laws.{contains-sorted, count-sorted, sorted-IsSorted}
use pqcensus.Model.{Finding}
use pqcensus.Model.Values.{is_active}
use pqcensus.Base.Dict.{lookup}
use pqcensus.Policy.{Rule, rule_index}
use pqcensus.Cli.{distinct, active_ids}
use pqcensus.Cli.Baselines.{contains-distinct}
use pqcensus.Reporting.Sarif.{
  RuleBook, sarif_rule_of, sarif_rules, sarif_result, sarif_results, used_rules,
}

id-sarif_rule_of :
    (book : RuleBook) (id : Text) (r : Option Rule) → (sarif_rule_of book.authorities id r).id ≡ id
unfolding sarif_rule_of
id-sarif_rule_of book id none = refl
id-sarif_rule_of book id (some r) = refl

map_ids :
    (book : RuleBook) (ids : List Text)
    → map
        (λ r. r.id)
        (map (λ id. sarif_rule_of book.authorities id (lookup id (rule_index book.rules))) ids)
      ≡ ids
map_ids book [] = refl
map_ids book (id ∷ ids) =
    rw (id-sarif_rule_of book id (lookup id (rule_index book.rules)), map_ids book ids) refl

map-sarif_rules :
    (book : RuleBook) (fs : List Finding) → map (λ r. r.id) (sarif_rules book fs) ≡ used_rules fs
unfolding sarif_rules
map-sarif_rules book fs = map_ids book (used_rules fs)

contains-used_rules :
    (fs : List Finding) (t : Text)
    → contains (used_rules fs) t
      ≡ contains (map (λ f. f.rule_id) (keep (λ f. is_active f.status) fs)) t
unfolding used_rules
contains-used_rules fs t =
    contains-sorted (distinct (map (λ f. f.rule_id) (keep (λ f. is_active f.status) fs))) t
    ∙ contains-distinct _ t

used_rules-IsSorted : (fs : List Finding) → IsSorted (λ id. id) (used_rules fs)
unfolding used_rules
used_rules-IsSorted fs =
    sorted-IsSorted (λ id. id) (distinct (map (λ f. f.rule_id) (keep (λ f. is_active f.status) fs)))

count-keep :
    (s t : Text) (ts : List Text)
    → count (λ r. t == r) (keep (λ r. not (r == s)) ts)
      ≡ (if t == s then 0 else count (λ r. t == r) ts)
unfolding count keep
count-keep s t [] = ground arith
count-keep s t (r ∷ ts) = ground (arith, count-keep s t ts, ==_iff t s, ==_iff r s, ==_iff t r)

count-distinct :
    (t : Text) (ts : List Text)
    → count (λ r. t == r) (distinct ts) ≡ (if contains ts t then 1 else 0)
unfolding count distinct contains
count-distinct t [] = refl
count-distinct t (s ∷ ts) = ground (arith, count-keep s t (distinct ts), count-distinct t ts)

count-used_rules :
    (t : Text) (fs : List Finding)
    → count (λ r. t == r) (used_rules fs)
      ≡ (if contains (map (λ f. f.rule_id) (keep (λ f. is_active f.status) fs)) t then 1 else 0)
unfolding used_rules
count-used_rules t fs =
    let ids = map (λ f. f.rule_id) (keep (λ f. is_active f.status) fs) in
    count-sorted (λ r. r) (λ r. t == r) (distinct ids) ∙ count-distinct t ids

results-listed :
    (ids : List Text) (fs : List Finding)
    → ((f : Finding)
        → contains (map (λ g. g.rule_id) fs) f.rule_id ≡ true
        → contains ids f.rule_id ≡ true)
    → All (λ r. contains ids r.rule_id ≡ true) (map sarif_result fs)
unfolding sarif_result contains
results-listed ids [] h = tt
results-listed ids (f ∷ fs) h =
    (h f (rw (==_refl f.rule_id) refl), results-listed ids fs (λ g k. h g (ground arith)))

map-sarif_result :
    (fs : List Finding) → map (λ r. r.finding_id) (map sarif_result fs) ≡ map (λ f. f.finding_id) fs
unfolding sarif_result
map-sarif_result [] = refl
map-sarif_result (f ∷ fs) = rw (map-sarif_result fs) refl

-- The results of a SARIF log are the active findings, in their order; every result names a rule that
-- the log lists; and the log lists each rule of an active finding once and no other, in the order of
-- the identifiers.
pub sarif_results_lem :
    (book : RuleBook) (fs : List Finding)
    → (map (λ r. r.finding_id) (sarif_results fs) ≡ active_ids fs)
      × All
          (λ r. contains (map (λ s. s.id) (sarif_rules book fs)) r.rule_id ≡ true)
          (sarif_results fs)
      × ((id : Text)
          → count (λ s. id == s) (map (λ s. s.id) (sarif_rules book fs)) ≡ (
              if contains (map (λ f. f.rule_id) (keep (λ f. is_active f.status) fs)) id
              then 1
              else 0))
      × IsSorted (λ id. id) (map (λ s. s.id) (sarif_rules book fs))
unfolding sarif_results active_ids
sarif_results_lem book fs = rw (map-sarif_rules book fs) (
  map-sarif_result (keep (λ f. is_active f.status) fs),
  results-listed (used_rules fs) (keep (λ f. is_active f.status) fs)
      (λ f h. contains-used_rules fs f.rule_id ∙ h),
  (λ id. count-used_rules id fs),
  used_rules-IsSorted fs,
)
