-- ===== src/Tests/Inventories.antt =====
-- The theorems about whole audits, at concrete inputs.
use pqcensus.Base.{
  ◌≡◌, refl, ◌==◌, ◌&&◌, none, some, false, Bool, [], ◌∷◌, List, Text, text, map, any, count, All,
  nat_eq, list_eq,
}
use pqcensus.Base.Dict.{last_with}
use pqcensus.Base.Dict.Indexed.{as_count, passes}
use pqcensus.Base.Sort.{IsSorted, nat_ord, list_ord, pair_ord}
use pqcensus.Model.{Finding}
use pqcensus.Model.Values.{is_active}
use pqcensus.Risk.{assess_finding}
use pqcensus.Suppressions.{LogEntry}
use pqcensus.Suppressions.Applied.{IsApplied}
use pqcensus.Model.Result.{CryptoAsset}
use pqcensus.Audit.{
  Analyzer, AnalyzerKind, analyze_files, finding_key, unique_findings, context_of, audit_findings,
}
use pqcensus.Audit.Unique.{unique_findings_lem}
use pqcensus.Audit.Findings.{audit_findings_lem}
use pqcensus.Audit.Assets.{written_assets, assets}
use pqcensus.Audit.Assets.Kept.{IsTraced, assets_lem}
use pqcensus.Tests.Samples.{
  findings, dependencies, outside, configured, outside_loads, stand_in_hash,
}

unique_findings_example :
    ((id : Text)
      → count (λ f. id == f.finding_id) (unique_findings findings)
        ≡ as_count (last_with (λ f. f.finding_id) id none findings))
    × ((id : Text) (p : Finding → Bool)
        → any (λ f. (id == f.finding_id) && p f) (unique_findings findings)
          ≡ passes p (last_with (λ f. f.finding_id) id none findings))
    × IsSorted finding_key (unique_findings findings)
unique_findings_example = unique_findings_lem findings

abbrev analyzers : List Analyzer
analyzers =
    record {
      kind = AnalyzerKind.other;
      analyze = λ path source. findings;
      errors = λ path source. [];
      raises = λ path source. false;
    }
    ∷ []

abbrev files : List (Text × Text)
files = (text "a.py", text "import rsa") ∷ []

audit_findings_example :
    (gs : List Finding) × (log : List LogEntry) × (audit_findings outside analyzers none none files
      ≡ some (gs, log, []))
    × (map finding_key gs ≡ map finding_key (unique_findings (analyze_files analyzers files)))
    × IsApplied outside configured
        (map
          (λ f. assess_finding f (some (context_of none none f)))
          (unique_findings (analyze_files analyzers files)))
        gs
        log
unfolding analyze_files is_active
audit_findings_example =
    audit_findings_lem outside none none analyzers files configured [] outside_loads
      (refl, (refl, tt))

assets_example :
    ((id : Text)
      → count (λ a. id == a.asset_id) (assets stand_in_hash findings dependencies)
        ≡ as_count (
            last_with
              (λ a. a.asset_id)
              id
              none
              (written_assets stand_in_hash findings dependencies)))
    × ((id : Text) (p : CryptoAsset → Bool)
        → any (λ a. (id == a.asset_id) && p a) (assets stand_in_hash findings dependencies)
          ≡ passes p (
              last_with
                (λ a. a.asset_id)
                id
                none
                (written_assets stand_in_hash findings dependencies)))
    × All
        (IsTraced stand_in_hash findings dependencies)
        (assets stand_in_hash findings dependencies)
    × IsSorted {K = Text × (Text × Text)}
        (λ a. (a.asset_type, (a.name, a.asset_id)))
        (assets stand_in_hash findings dependencies)
assets_example = assets_lem stand_in_hash findings dependencies
