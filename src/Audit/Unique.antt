-- ===== src/Audit/Unique.antt =====
-- The findings of an audit, src/quantumguard/api.py: one for each identifier.
use pqcensus.Base.{Bool, ◌&&◌, ◌≡◌, ◌∙◌, none, List, Text, any, count, nat_eq, list_eq, ◌==◌}
use pqcensus.Base.Dict.{last_with}
use pqcensus.Base.Dict.Indexed.{index_by, passes, as_count, any-index_by, count-index_by}
use pqcensus.Base.Sort.{IsSorted, nat_ord, list_ord, pair_ord}
use pqcensus.Base.Sort.Laws.{sorted-IsSorted, any-sorted, count-sorted}
use pqcensus.Model.{Finding}
use pqcensus.Audit.{finding_key, unique_findings}

-- Of the findings of the analyzers, the audit keeps exactly one for each identifier that occurs, the
-- last that an analyzer made; and what it keeps is ordered by path, line, column and identifier.
pub unique_findings_lem :
    (fs : List Finding)
    → ((id : Text)
        → count (λ f. id == f.finding_id) (unique_findings fs)
          ≡ as_count (last_with (λ f. f.finding_id) id none fs))
      × ((id : Text) (p : Finding → Bool)
          → any (λ f. (id == f.finding_id) && p f) (unique_findings fs)
            ≡ passes p (last_with (λ f. f.finding_id) id none fs))
      × IsSorted finding_key (unique_findings fs)
unfolding unique_findings
unique_findings_lem fs = (
  (λ id.
      count-sorted finding_key (λ f. id == f.finding_id) (index_by (λ f. f.finding_id) fs)
      ∙ count-index_by (λ f. f.finding_id) id fs),
  (λ id p.
      any-sorted finding_key (λ f. (id == f.finding_id) && p f) (index_by (λ f. f.finding_id) fs)
      ∙ any-index_by (λ f. f.finding_id) id p fs),
  sorted-IsSorted finding_key (index_by (λ f. f.finding_id) fs),
)
