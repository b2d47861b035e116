-- ===== src/Tests/Audits.antt =====
-- The theorems about lists of findings, at concrete inputs.
use mathlib.Core.List.{Mem}
use pqcensus.Base.{
  ◌≡◌, ◌≢◌, refl, ◌↔◌, not, ◌&&◌, none, some, List, [], ◌∷◌, Text, text, arith, upper, length,
  count, contains, All, is_lower, list_beq, nat_eq, list_eq,
}
use pqcensus.Base.Int.{pos}
use pqcensus.Base.Sort.{list_le, IsSorted, nat_ord, list_ord, pair_ord}
use pqcensus.Base.Json.{Json}
use pqcensus.Model.{Finding}
use pqcensus.Model.Values.{is_active}
use pqcensus.Util.Severities.{severity_rank}
use pqcensus.Migration.{build_migration_plans, plan_key}
use pqcensus.Migration.Plans.{is_planned, IsSound, build_migration_plans_lem}
use pqcensus.Hndl.{HndlStatus, HndlInputs, assess_hndl}
use pqcensus.Hndl.Statuses.{IsSupplied, Affected, IsTenYears, IsExposed, assess_hndl_status}
use pqcensus.Cli.{
  active_ids, baseline_diff, baseline_document, baseline_dict, load_baseline, audit_exit, reaches,
  distinct,
}
use pqcensus.Cli.Baselines.{baseline_diff_lem, baseline_diff_self}
use pqcensus.Cli.ExitStatus.{Reaching, audit_exit_lem, audit_exit_mono, audit_exit_self}
use pqcensus.Suppressions.{LogEntry, apply_suppressions}
use pqcensus.Suppressions.Applied.{IsApplied, apply_suppressions_lem}
use pqcensus.Tests.Samples.{findings, outside, configured, outside_loads, stand_in_hash}

build_migration_plans_example :
    (length (build_migration_plans stand_in_hash findings) ≡ count is_planned findings)
    × All
        (λ p. ∥ ((f : Finding) × Mem f findings × IsSound f p) ∥₁)
        (build_migration_plans stand_in_hash findings)
    × IsSorted plan_key (build_migration_plans stand_in_hash findings)
build_migration_plans_example = build_migration_plans_lem stand_in_hash findings

abbrev inputs : HndlInputs
inputs = record {
  data_sensitivity = some (text "confidential");
  confidentiality_lifetime_years = some (pos 15);
  system_context = none;
  exposure = some (text "internet");
}

assess_hndl_example :
    (((assess_hndl findings inputs).status ≡ HndlStatus.no_signal) ↔ (¬ Affected findings))
    × (((assess_hndl findings inputs).status ≡ HndlStatus.unknown)
        ↔ (Affected findings × (¬ IsSupplied inputs)))
    × (((assess_hndl findings inputs).status ≡ HndlStatus.high)
        ↔ (Affected findings × IsSupplied inputs × IsTenYears inputs × IsExposed inputs))
assess_hndl_example = assess_hndl_status findings inputs

abbrev old_ids : List Text
old_ids = text "QG-1" ∷ text "QG-9" ∷ []

baseline_diff_example :
    let d = baseline_diff findings old_ids in
    (contains d.new_ids (text "QG-2")
      ≡ (contains (active_ids findings) (text "QG-2") && not (contains old_ids (text "QG-2"))))
    × (contains d.fixed (text "QG-2")
        ≡ (contains old_ids (text "QG-2") && not (contains (active_ids findings) (text "QG-2"))))
    × (contains d.unchanged (text "QG-2")
        ≡ (contains (active_ids findings) (text "QG-2") && contains old_ids (text "QG-2")))
    × IsSorted (λ s. s) d.new_ids
    × IsSorted (λ s. s) d.fixed
    × IsSorted (λ s. s) d.unchanged
baseline_diff_example = baseline_diff_lem findings old_ids (text "QG-2")

abbrev no_text : Json → Text
no_text v = []

baseline_diff_self_example :
    (b : List Text) × (load_baseline no_text
        (baseline_dict (baseline_document findings (text "0.1.0") (text "app")))
      ≡ some b)
    × ((baseline_diff findings b).new_ids ≡ [])
    × ((baseline_diff findings b).fixed ≡ [])
baseline_diff_self_example = baseline_diff_self no_text findings (text "0.1.0") (text "app")

audit_exit_example :
    ((audit_exit findings none (text "high") ≡ 1)
      ↔ ((upper (text "high") ≢ text "NONE") × Reaching findings none (upper (text "high"))))
    × (audit_exit findings none (text "high") ≢ 1 → audit_exit findings none (text "high") ≡ 0)
audit_exit_example = audit_exit_lem findings none (text "high")

fails_at_high : audit_exit findings none (text "high") ≡ 1
unfolding audit_exit reaches is_lower list_beq
fails_at_high = refl

audit_exit_mono_example : audit_exit findings none (text "low") ≡ 1
unfolding severity_rank list_beq upper is_lower
audit_exit_mono_example =
    audit_exit_mono findings none (text "low") (text "high") (λ e. cc) (omega arith) fails_at_high

read_back :
    load_baseline no_text (baseline_dict (baseline_document findings (text "0.1.0") (text "app")))
    ≡ some (distinct (text "QG-1" ∷ text "QG-2" ∷ []))
unfolding load_baseline baseline_dict baseline_document list_le list_beq
read_back = refl

audit_exit_self_example :
    audit_exit findings
      (some (baseline_diff findings (distinct (text "QG-1" ∷ text "QG-2" ∷ []))))
      (text "info")
    ≡ 0
audit_exit_self_example =
    audit_exit_self no_text findings (text "0.1.0") (text "app") (text "info") _ read_back

apply_suppressions_example :
    (gs : List Finding) × (log : List LogEntry) × (apply_suppressions outside findings
      ≡ some (gs, log, []))
    × IsApplied outside configured findings gs log
unfolding is_active
apply_suppressions_example =
    apply_suppressions_lem outside findings configured [] outside_loads (refl, (refl, tt))
