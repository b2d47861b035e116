-- ===== src/Audit/Findings.antt =====
-- The findings that `audit` of src/quantumguard/api.py returns: which they are, and its guards.
use pqcensus.Base.{
  Bool, true, false, ◌≡◌, ◌↔◌, refl, ◌∙◌, inl, inr, nat_eq, list_eq, Option, none, some, List, [],
  ◌∷◌, Text, map, All, arith,
}
use pqcensus.Base.Int.{ℤ}
use pqcensus.Model.{Finding, Suppression}
use pqcensus.Model.Values.{is_active}
use pqcensus.Base.Sort.{nat_ord, list_ord, pair_ord}
use pqcensus.Base.Sort.Laws.{All-sorted}
use pqcensus.Base.Dict.Indexed.{All-index_by}
use pqcensus.Risk.{RiskContext, assess_finding}
use pqcensus.Suppressions.{Outside, LogEntry, ParserError, load_config_suppressions}
use pqcensus.Suppressions.Applied.{AllBecome, IsApplied, apply_suppressions_lem}
use pqcensus.Audit.{
  Limits, Analyzer, ArgumentError, argument_error, is_limit_exhausted, is_negative_lifetime,
  analyze_files, finding_key, unique_findings, context_of, audit_findings,
}

-- The guards of `audit` let exactly those arguments pass that name a directory, not by a link, with
-- limits that are positive and no negative lifetime; a later guard reports only what passes those
-- before it.
argument_error_lem :
    (symlink directory : Bool) (l : Limits) (lifetime : Option ℤ)
    → ((argument_error symlink directory l lifetime ≡ none) ↔ (
        (symlink ≡ false)
        × (directory ≡ true)
        × (is_limit_exhausted l ≡ false)
        × (is_negative_lifetime lifetime ≡ false)))
      × ((argument_error symlink directory l lifetime ≡ some ArgumentError.lifetime_negative) ↔ (
          (symlink ≡ false)
          × (directory ≡ true)
          × (is_limit_exhausted l ≡ false)
          × (is_negative_lifetime lifetime ≡ true)))
unfolding argument_error
argument_error_lem symlink directory l lifetime = ground arith

-- An assessment keeps a finding's key and status.
assess-key :
    (f : Finding) (c : Option RiskContext) → finding_key (assess_finding f c) ≡ finding_key f
unfolding finding_key assess_finding
assess-key f c = ground arith

assess-active :
    (f : Finding) (c : Option RiskContext)
    → is_active f.status ≡ true
    → is_active (assess_finding f c).status ≡ true
unfolding assess_finding
assess-active f c h = ground arith

module _ (o : Outside) (exposure : Option Text) (lifetime : Option ℤ) where
  assessed : List Finding → List Finding
  assessed = map (λ f. assess_finding f (some (context_of exposure lifetime f)))

  assessed-keys : (fs : List Finding) → map finding_key (assessed fs) ≡ map finding_key fs
  unfolding assessed
  assessed-keys [] = refl
  assessed-keys (f ∷ fs) =
      rw (assess-key f (some (context_of exposure lifetime f)), assessed-keys fs) refl

  assessed-active :
      (fs : List Finding)
      → All (λ f. is_active f.status ≡ true) fs
      → All (λ f. is_active f.status ≡ true) (assessed fs)
  unfolding assessed
  assessed-active [] h = tt
  assessed-active (f ∷ fs) h = (assess-active f _ h.0, assessed-active fs h.1)

  becomes-keys :
      (configured : List Suppression) (fs gs : List Finding)
      → AllBecome o configured fs gs
      → map finding_key gs ≡ map finding_key fs
  unfolding finding_key
  becomes-keys configured [] [] h = refl
  becomes-keys configured [] (g ∷ gs) h = absurd h
  becomes-keys configured (f ∷ fs) [] h = absurd h
  becomes-keys configured (f ∷ fs) (g ∷ gs) (inl e, h) =
      rw (e, becomes-keys configured fs gs h) refl
  becomes-keys configured (f ∷ fs) (g ∷ gs) (inr (s, e, j), h) =
      rw (e, becomes-keys configured fs gs h) refl

  unique-active :
      (fs : List Finding)
      → All (λ f. is_active f.status ≡ true) fs
      → All (λ f. is_active f.status ≡ true) (unique_findings fs)
  unfolding unique_findings
  unique-active fs h =
      All-sorted finding_key (λ f. is_active f.status ≡ true) _
        (All-index_by (λ f. f.finding_id) (λ f. is_active f.status ≡ true) fs h)

  -- Of analyzers that return active findings, if the configuration loads: the audit returns the unique
  -- findings in their order, each with its place and identifier, and each either as it was assessed or
  -- suppressed by a suppression that justifies it (unexpired, for its rule and its path, and of a marker at the
  -- finding or of the configuration); and the log has exactly one entry for each suppressed finding, with
  -- its identifier and its suppression.
  pub audit_findings_lem :
      (analyzers : List Analyzer) (files : List (Text × Text)) (configured : List Suppression)
      (errors : List ParserError)
      → load_config_suppressions o ≡ some (configured, errors)
      → All (λ f. is_active f.status ≡ true) (analyze_files analyzers files)
      → (gs : List Finding) × (log : List LogEntry) × (audit_findings o analyzers exposure lifetime
            files
          ≡ some (gs, log, errors))
        × (map finding_key gs ≡ map finding_key (unique_findings (analyze_files analyzers files)))
        × IsApplied o configured
            (map
              (λ f. assess_finding f (some (context_of exposure lifetime f)))
              (unique_findings (analyze_files analyzers files)))
            gs
            log
  unfolding audit_findings assessed
  audit_findings_lem analyzers files configured errors e h =
      let unique = unique_findings (analyze_files analyzers files) in
      let (gs, log, made, applied) =
        apply_suppressions_lem o (assessed unique) configured errors e
          (assessed-active unique (unique-active (analyze_files analyzers files) h)) in
      (
        gs,
        log,
        made,
        becomes-keys configured (assessed unique) gs applied.become ∙ assessed-keys unique,
        applied,
      )
