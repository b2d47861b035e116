-- ===== src/Cli/ExitStatus.antt =====
-- When `pqcensus audit` exits with status 1.
use mathlib.Core.Option.{some-injective}
use pqcensus.Base.{
  ℕ, ◌&&◌, none, get_elem?, any-get_elem?, sym, ◌≤◌, Bool, true, ◌≡◌, ◌≢◌, refl, ◌∙◌, ◌↔◌, Option,
  some, List, [], ◌∷◌, Text, text, keep, any, upper, contains, ==_iff, list_eq, nat_eq, arith,
}
use pqcensus.Base.Json.{Json}
use pqcensus.Base.Sort.{nat_ord, list_ord}
use pqcensus.Model.{Finding, Status}
use pqcensus.Model.Values.{is_active, severity_value}
use pqcensus.Util.Severities.{severity_rank}
use pqcensus.Cli.{
  BaselineDiff, baseline_diff, baseline_document, baseline_dict, load_baseline, candidates_of,
  reaches, audit_exit,
}
use pqcensus.Cli.Baselines.{baseline_diff_self}

any_mono :
    (p q : Finding → Bool) (fs : List Finding)
    → ((f : Finding) → p f ≡ true → q f ≡ true)
    → any p fs ≡ true
    → any q fs ≡ true
unfolding any
any_mono p q [] h m = m
any_mono p q (f ∷ fs) h m = ground (arith, h f, any_mono p q fs h)

reaches_mono :
    (a b : Text) (f : Finding)
    → severity_rank a ≤ severity_rank b
    → reaches b f ≡ true
    → reaches a f ≡ true
unfolding reaches
reaches_mono a b f h r = ground arith

audit_exit-reaches :
    (fs : List Finding) (d : Option BaselineDiff) (fail_on : Text)
    → ((audit_exit fs d fail_on ≡ 1) ↔ (
        (upper fail_on ≢ text "NONE")
        × (any (reaches (upper fail_on)) (candidates_of fs d) ≡ true)))
      × (audit_exit fs d fail_on ≢ 1 → audit_exit fs d fail_on ≡ 0)
unfolding audit_exit
audit_exit-reaches fs d fail_on = ground (arith, ==_iff (upper fail_on) (text "NONE"))

-- Without a baseline every finding counts, with one only those that are new.
abbrev pub Counts : Option BaselineDiff → Finding → Type 0
Counts none f = Unit
Counts (some d) f = contains d.new_ids f.finding_id ≡ true

-- An active finding that counts, with a severity that reaches the threshold.
abbrev pub Reaching : List Finding → Option BaselineDiff → Text → Type 0
Reaching fs d threshold =
    (i : ℕ) × (f : Finding) × (get_elem? fs i ≡ some f)
    × Counts d f
    × (f.status ≡ Status.active)
    × (severity_rank threshold ≤ severity_rank (severity_value f.severity))

reaches_iff :
    (threshold : Text) (f : Finding)
    → (reaches threshold f ≡ true) ↔ (
        (f.status ≡ Status.active)
        × (severity_rank threshold ≤ severity_rank (severity_value f.severity)))
unfolding reaches is_active
reaches_iff threshold f = ground arith

any-keep : (p q : Finding → Bool) (fs : List Finding) → any p (keep q fs) ≡ any (λ f. q f && p f) fs
unfolding any keep
any-keep p q [] = refl
any-keep p q (f ∷ fs) = ground (arith, any-keep p q fs)

and_iff : (a b : Bool) → (a && b) ≡ true → (a ≡ true) × (b ≡ true)
and_iff a b h = ground arith

any-Reaching :
    (fs : List Finding) (d : Option BaselineDiff) (threshold : Text)
    → (any (reaches threshold) (candidates_of fs d) ≡ true) ↔ Reaching fs d threshold
unfolding candidates_of
any-Reaching fs none threshold = (
  λ h.
      let (i, f, at, r) = (any-get_elem? (reaches threshold) fs).0 h in
      let (active, rank) = (reaches_iff threshold f).0 r in (i, f, at, tt, active, rank),
  λ (i, f, at, _, active, rank).
      (any-get_elem? (reaches threshold) fs).1
        (i, f, at, (reaches_iff threshold f).1 (active, rank)),
)
any-Reaching fs (some d) threshold =
    let p : Finding → Bool = λ f. contains d.new_ids f.finding_id && reaches threshold f in
    let same = any-keep (reaches threshold) (λ f. contains d.new_ids f.finding_id) fs in
    (
      λ h.
          let (i, f, at, r) = (any-get_elem? p fs).0 (sym same ∙ h) in
          let (c, reached) = and_iff (contains d.new_ids f.finding_id) (reaches threshold f) r in
          let (active, rank) = (reaches_iff threshold f).0 reached in (i, f, at, c, active, rank),
      λ (i, f, at, c, active, rank).
          same
          ∙ (any-get_elem? p fs).1
              (i, f, at, rw (c, (reaches_iff threshold f).1 (active, rank)) refl),
    )

-- The audit fails exactly if the threshold is not "none", in any case, and there is an active finding,
-- which is new if there is a baseline, whose severity is at least the threshold. Otherwise it exits
-- with 0.
pub audit_exit_lem :
    (fs : List Finding) (d : Option BaselineDiff) (fail_on : Text)
    → ((audit_exit fs d fail_on ≡ 1)
        ↔ ((upper fail_on ≢ text "NONE") × Reaching fs d (upper fail_on)))
      × (audit_exit fs d fail_on ≢ 1 → audit_exit fs d fail_on ≡ 0)
audit_exit_lem fs d fail_on =
    let (fails, passes) = audit_exit-reaches fs d fail_on in
    let (is_reached, reached) = any-Reaching fs d (upper fail_on) in
    (
      (
        λ h. let (named, r) = fails.0 h in (named, is_reached r),
        λ (named, r). fails.1 (named, reached r),
      ),
      passes,
    )

-- An audit that fails at a threshold fails at every lower one that is not "none".
pub audit_exit_mono :
    (fs : List Finding) (d : Option BaselineDiff) (lower higher : Text)
    → upper lower ≢ text "NONE"
    → severity_rank (upper lower) ≤ severity_rank (upper higher)
    → audit_exit fs d higher ≡ 1
    → audit_exit fs d lower ≡ 1
audit_exit_mono fs d lower higher named h failed = (audit_exit-reaches fs d lower).0.1 (
  named,
  any_mono (reaches (upper higher)) (reaches (upper lower)) (candidates_of fs d)
      (λ f. reaches_mono (upper lower) (upper higher) f h)
      ((audit_exit-reaches fs d higher).0.0 failed).1,
)

no_candidates :
    (fs : List Finding) (d : BaselineDiff) → d.new_ids ≡ [] → candidates_of fs (some d) ≡ []
unfolding candidates_of
no_candidates fs d h = rw h (none_kept fs)
  where
    none_kept : (fs : List Finding) → keep (λ f. contains [] f.finding_id) fs ≡ []
    none_kept [] = refl
    none_kept (f ∷ fs) = none_kept fs

-- Against its own baseline, its document read back, an audit exits with 0 at every threshold.
pub audit_exit_self :
    (to_text : Json → Text) (fs : List Finding) (version repository fail_on : Text) (b : List Text)
    → load_baseline to_text (baseline_dict (baseline_document fs version repository)) ≡ some b
    → audit_exit fs (some (baseline_diff fs b)) fail_on ≡ 0
unfolding audit_exit any
audit_exit_self to_text fs version repository fail_on b h =
    let (b', read, new_nil, _) = baseline_diff_self to_text fs version repository in
    let same : b' ≡ b = some-injective b' b (sym read ∙ h) in
    let gone : (baseline_diff fs b).new_ids ≡ [] = rw (← same) new_nil in
    rw (no_candidates fs (baseline_diff fs b) gone) (ground arith)
