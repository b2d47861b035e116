-- ===== src/Migration/Plans.antt =====
-- Which findings get a plan, and what a plan may recommend.
use mathlib.Core.Logic.{∥∥₁_map}
use mathlib.Core.List.{Mem, mem-cons_of_mem, mem-cons_self}
use pqcensus.Base.{
  suc, ap, inl, inr, Bool-cases, All-map, Bool, true, false, ◌&&◌, ◌≡◌, refl, ◌∙◌, ◌↔◌, Option,
  none, some, List, [], ◌∷◌, Text, list_eq, nat_eq, count, length, All, arith,
}
use pqcensus.Base.Sort.{IsSorted, nat_ord, list_ord, pair_ord}
use pqcensus.Base.Sort.Laws.{length-sorted, All-sorted, sorted-IsSorted}
use pqcensus.Model.{Finding, Purpose, Confidence}
use pqcensus.Model.Result.{MigrationPlan}
use pqcensus.Model.Values.{is_active, is_shor_vulnerable}
use pqcensus.Migration.{
  selection, plan_confidence, plan_of, build_migration_plan, plans_of, plan_key,
  build_migration_plans,
}
use pqcensus.Policy.{algorithm_status}
use pqcensus.Policy.Matching.{candidates}

-- A finding that is active and whose algorithm is Shor-vulnerable.
unfoldable pub is_planned : Finding → Bool
is_planned f = is_active f.status && is_shor_vulnerable (algorithm_status f.algorithm)

selection-candidates :
    (purpose : Purpose) (protocol : Option Text)
    → (selection purpose protocol).targets ≡ candidates purpose
unfolding selection candidates
selection-candidates Purpose.signature protocol = refl
selection-candidates _ protocol = refl

-- What a plan says to a finding's owner.
pub record IsSound (f : Finding) (p : MigrationPlan) : Type 0 where
  pub of_finding : p.finding_id ≡ f.finding_id
  pub planned : is_planned f ≡ true
  -- ML-KEM for key establishment and encryption, ML-DSA and SLH-DSA for signatures and
  -- certificates, nothing otherwise.
  pub targets : p.recommended_targets ≡ candidates f.purpose
  -- Without a target the plan is of unknown confidence.
  pub abstains : (p.recommended_targets ≡ []) ↔ (p.confidence ≡ Confidence.unknown)
  -- A plan of high confidence rests on evidence of high confidence.
  pub confident : p.confidence ≡ Confidence.high → f.confidence ≡ Confidence.high

module _ (sha256 : Text → Text) where
  abstention :
      (targets : List Text) (c : Confidence)
      → ((targets ≡ []) ↔ (plan_confidence targets c ≡ Confidence.unknown))
        × (plan_confidence targets c ≡ Confidence.high → c ≡ Confidence.high)
  unfolding plan_confidence
  abstention [] c = ground arith
  abstention (t ∷ ts) c = ground arith

  plan_of-IsSound :
      (f : Finding) (protocol : Option Text)
      → is_planned f ≡ true
      → IsSound f (plan_of sha256 f protocol)
  unfolding plan_of
  plan_of-IsSound f protocol h =
      let targets = (selection f.purpose protocol).targets in
      record {
        of_finding = refl;
        planned = h;
        targets = selection-candidates f.purpose protocol;
        abstains = (abstention targets f.confidence).0;
        confident = (abstention targets f.confidence).1;
      }

  -- Exactly the active Shor-vulnerable findings get a plan; the plan bears the finding's identifier,
  -- recommends the candidates of the finding's purpose, is of unknown confidence exactly if it
  -- recommends nothing, and of high confidence only if the finding is.
  pub build_migration_plan-IsSound :
      (f : Finding) (protocol : Option Text)
      → (is_planned f ≡ false → build_migration_plan sha256 f protocol ≡ none)
        × (is_planned f ≡ true
            → (p : MigrationPlan) × (build_migration_plan sha256 f protocol ≡ some p) × IsSound f p)
  unfolding build_migration_plan is_planned is_active
  build_migration_plan-IsSound f protocol = (
    λ h. ground arith,
    λ h. (plan_of sha256 f protocol, ground arith, plan_of-IsSound f protocol h),
  )

  length-plans_of : (fs : List Finding) → length (plans_of sha256 fs) ≡ count is_planned fs
  unfolding plans_of count
  length-plans_of [] = refl
  length-plans_of (f ∷ fs) = elim (Bool-cases (is_planned f)) [
    | inl e ↦
        let (p, made, _) = (build_migration_plan-IsSound f none).1 e in
        rw (made, e, plans_of) (ap suc (length-plans_of fs))
    | inr e ↦ rw ((build_migration_plan-IsSound f none).0 e, e, plans_of) (length-plans_of fs)
  ]

  -- What a list of plans comes from.
  abbrev Origin : List Finding → MigrationPlan → Type 0
  Origin fs p = ∥ ((f : Finding) × Mem f fs × IsSound f p) ∥₁

  later : (f : Finding) (fs : List Finding) (p : MigrationPlan) → Origin fs p → Origin (f ∷ fs) p
  later f fs p o = ∥∥₁_map o (λ (g, m, s). (g, mem-cons_of_mem f m, s))

  plans_of-Origin : (fs : List Finding) → All (Origin fs) (plans_of sha256 fs)
  unfolding plans_of
  plans_of-Origin [] = tt
  plans_of-Origin (f ∷ fs) = elim (Bool-cases (is_planned f)) [
    | inl e ↦
        let (p, made, s) = (build_migration_plan-IsSound f none).1 e in
        rw (made, plans_of)
          (
            ∣ (f, mem-cons_self, s) ∣₁,
            All-map (Origin fs) (Origin (f ∷ fs)) (plans_of sha256 fs) (later f fs)
                (plans_of-Origin fs),
          )
    | inr e ↦
        rw ((build_migration_plan-IsSound f none).0 e, plans_of)
          (All-map (Origin fs) (Origin (f ∷ fs)) (plans_of sha256 fs) (later f fs)
            (plans_of-Origin fs))
  ]

  -- An audit's plans are as many as its active Shor-vulnerable findings, each is a sound plan of one
  -- of the findings, and they are in the order of path, finding and plan.
  pub build_migration_plans_lem :
      (fs : List Finding)
      → (length (build_migration_plans sha256 fs) ≡ count is_planned fs)
        × All (λ p. ∥ ((f : Finding) × Mem f fs × IsSound f p) ∥₁) (build_migration_plans sha256 fs)
        × IsSorted plan_key (build_migration_plans sha256 fs)
  unfolding build_migration_plans
  build_migration_plans_lem fs = (
    length-sorted plan_key (plans_of sha256 fs) ∙ length-plans_of fs,
    All-sorted plan_key (Origin fs) (plans_of sha256 fs) (plans_of-Origin fs),
    sorted-IsSorted plan_key (plans_of sha256 fs),
  )
