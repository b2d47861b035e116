-- ===== src/Suppressions/Applied.antt =====
-- What `apply_suppressions` of src/quantumguard/suppression.py does to the findings, and what its log
-- says.
use pqcensus.Base.{
  true, false, ◌≡◌, ◌⊎◌, inl, inr, refl, ◌∙◌, ap, Option, none, some, List, [], ◌∷◌, ◌++◌, Text,
  length, count, All, arith, Option-cases, nat_eq, list_eq, if◌then◌else◌,
}
use pqcensus.Base.Sort.{IsSorted, sorted, nat_ord, list_ord}
use pqcensus.Base.Sort.Laws.{sorted-IsSorted, length-sorted}
use pqcensus.Model.{Finding, Suppression, Status}
use pqcensus.Model.Values.{is_active, is_suppressed}
use pqcensus.Suppressions.{
  Outside, LogEntry, ParserError, matched, apply_loop, apply_configured, apply_suppressions,
  load_config_suppressions,
}
use pqcensus.Suppressions.Reasons.{Justifies, matched-Found, Found-Justifies}

module _ (o : Outside) where
  -- What becomes of a finding: nothing, or it is suppressed by what justifies it.
  abbrev pub Becomes : List Suppression → Finding → Finding → Type 0
  Becomes configured f g =
      (g ≡ f)
      ⊎ ((s : Suppression) × (g ≡ record f { status = Status.suppressed; suppression = some s })
          × Justifies o configured s f)

  -- Item by item.
  abbrev pub AllBecome : List Suppression → List Finding → List Finding → Type 0
  AllBecome configured [] [] = Unit
  AllBecome configured (f ∷ fs) (g ∷ gs) = Becomes configured f g × AllBecome configured fs gs
  AllBecome configured _ _ = ⊥

  apply_loop-AllBecome :
      (configured : List Suppression) (fs : List Finding)
      → AllBecome configured fs (apply_loop o configured fs).0
  unfolding apply_loop
  apply_loop-AllBecome configured [] = tt
  apply_loop-AllBecome configured (f ∷ fs) = elim (Option-cases (matched o configured f)) [
    | inl e ↦ rw (e, apply_loop) (inl refl, apply_loop-AllBecome configured fs)
    | inr e ↦
        rw (e.1, apply_loop)
          (
            inr (
              e.0,
              refl,
              Found-Justifies o configured e.0 f (matched-Found o configured f e.0 e.1),
            ),
            apply_loop-AllBecome configured fs,
          )
  ]

  apply_loop-log :
      (configured : List Suppression) (fs : List Finding)
      → All (λ f. is_active f.status ≡ true) fs
      → length (apply_loop o configured fs).1
        ≡ count (λ f. is_suppressed f.status) (apply_loop o configured fs).0
  unfolding apply_loop count is_active is_suppressed
  apply_loop-log configured [] all = refl
  apply_loop-log configured (f ∷ fs) all = ground (arith, apply_loop-log configured fs all.1)

  entry_of : Option Suppression → Text → List LogEntry
  entry_of none id = []
  entry_of (some s) id = record { finding_id = id; suppression = s } ∷ []

  -- What suppressed findings have to say in the log: for each its identifier and its suppression.
  unfoldable pub entries_of : List Finding → List LogEntry
  unfolding is_suppressed entry_of
  entries_of [] = []
  entries_of (f ∷ fs) =
      let rest = entries_of fs in
      if is_suppressed f.status then entry_of f.suppression f.finding_id ++ rest else rest

  active-suppressed : (f : Finding) → is_active f.status ≡ true → is_suppressed f.status ≡ false
  unfolding is_active is_suppressed
  active-suppressed f h = ground arith

  apply_loop-entries_of :
      (configured : List Suppression) (fs : List Finding)
      → All (λ f. is_active f.status ≡ true) fs
      → (apply_loop o configured fs).1 ≡ entries_of (apply_loop o configured fs).0
  unfolding apply_loop entries_of is_suppressed entry_of
  apply_loop-entries_of configured [] all = refl
  apply_loop-entries_of configured (f ∷ fs) all =
      let rest = apply_loop-entries_of configured fs all.1 in
      elim (Option-cases (matched o configured f)) [
        | inl e ↦ rw (e, apply_loop, entries_of, active-suppressed f all.0, if◌then◌else◌) rest
        | inr (s, e) ↦
            rw (e, apply_loop)
              (ap (λ log. record { finding_id = f.finding_id; suppression = s } ∷ log) rest)
      ]

  -- What holds of the findings `gs` and the log that are made of the findings `fs`: every finding stays
  -- in its place, unchanged or suppressed by what justifies it; the log has an entry for each suppressed
  -- finding and no other, with its identifier and its suppression, in the order of the identifiers.
  pub record IsApplied (configured : List Suppression) (fs gs : List Finding) (log : List LogEntry)
      : Type 0 where
    pub become : AllBecome configured fs gs
    pub counted : length log ≡ count (λ f. is_suppressed f.status) gs
    pub logged : log ≡ sorted (λ e. e.finding_id) (entries_of gs)
    pub ordered : IsSorted (λ e. e.finding_id) log

  -- From findings that are all active, if the configuration loads: every finding stays in its place,
  -- unchanged or suppressed by a suppression that has not expired, names its rule or ALL, has no path or one
  -- that fits the finding's, and is that of a marker in the finding's line or the line above, or one of the
  -- configuration; and the log has exactly one entry for each suppressed finding, with its identifier and
  -- suppression, in the order of the identifiers.
  pub apply_suppressions_lem :
      (fs : List Finding) (configured : List Suppression) (errors : List ParserError)
      → load_config_suppressions o ≡ some (configured, errors)
      → All (λ f. is_active f.status ≡ true) fs
      → (gs : List Finding) × (log : List LogEntry) × (apply_suppressions o fs
          ≡ some (gs, log, errors))
        × IsApplied configured fs gs log
  unfolding apply_suppressions apply_configured
  apply_suppressions_lem fs configured errors e all =
      let log = (apply_loop o configured fs).1 in
      (
        (apply_loop o configured fs).0,
        sorted (λ e. e.finding_id) log,
        rw (apply_suppressions, e) refl,
        record {
          become = apply_loop-AllBecome configured fs;
          counted = length-sorted (λ e. e.finding_id) log ∙ apply_loop-log configured fs all;
          logged = ap (sorted (λ e. e.finding_id)) (apply_loop-entries_of configured fs all);
          ordered = sorted-IsSorted (λ e. e.finding_id) log;
        },
      )
