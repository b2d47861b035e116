-- ===== src/Cli/Commands.antt =====
-- `main`, `_dispatch` and `_audit_command` of src/quantumguard/cli.py, behind the parser of arguments.
pub mod Failing
use pqcensus.Base.{
  ℕ, Bool, true, false, Option, none, some, List, [], ◌∷◌, ◌++◌, Text, text, map, ◌==◌, nat_eq,
  list_eq, if◌then◌else◌,
}
use pqcensus.Base.Json.{Json, boolean, string, document, number, strings}
use pqcensus.Model.{Finding}
use pqcensus.Policy.{Rule}
use pqcensus.Audit.Complete.{AuditResult}
use pqcensus.Serialized.Outcome.{result_dict, agility_dict}
use pqcensus.Reporting.Inventory.{
  inventory_document, migration_document, cbom_document, markdown_report,
}
use pqcensus.Reporting.Cyclonedx.{cyclonedx_document}
use pqcensus.Reporting.Sarif.{RuleBook}
use pqcensus.Reporting.Sarif.Document.{sarif_document}
use pqcensus.Cli.{
  BaselineDiff, baseline_document, baseline_dict, baseline_diff, load_baseline, audit_exit, exit_ok,
  exit_error,
}
use pqcensus.Cli.Explain.{Explained, rule, finding, unknown_identifier, malformed, explain}

-- What ends a command before it returns: Ctrl-C, or any other exception.
pub data Failure : Type 0 where
  interrupted failed : Failure

pub data Result {ℓ} (A : Type ℓ) : Type ℓ where
  raised : Failure → Result A
  returned : A → Result A

abbrev pub then_do {ℓ κ} : {A : Type ℓ} {B : Type κ} → Result A → (A → Result B) → Result B
then_do (raised e) f = raised e
then_do (returned a) f = f a

-- The choices of `--format`.
pub data AuditFormat : Type 0 where
  console json markdown sarif : AuditFormat

pub data CbomFormat : Type 0 where
  cyclonedx native : CbomFormat

-- The arguments of the command `audit`: those of the audit itself have been applied. A baseline is
-- the document as it is read; `--json` counts as the format `json`.
pub record AuditArguments : Type 0 where
  pub baseline : Option (Result Json)
  pub output : Bool
  pub format : AuditFormat
  pub quiet : Bool
  pub fail_on : Text

pub data Command : Type 0 where
  doctor rules tls : Command
  -- The identifier, and the document that is read if there is an input.
  explain_identifier : Text → Option (Result Json) → Command
  verify inventory plan agility baseline : Command
  cbom : CbomFormat → Command
  audit_command : AuditArguments → Command

-- What a command writes: a JSON document to a file or the output, or text that is printed.
pub data Output : Type 0 where
  write_json : Text → Json → Output
  emit_json : Json → Output
  print_text : Text → Output
  print_console : Output

-- What the commands call: the checks of the runtime (`payload["ok"]`), the handshake, the first and the
-- second audit, the rules, the writing of outputs, and the functions that documents are made with.
pub record Surroundings : Type 0 where
  pub run_doctor : Result Bool
  pub inspect_tls : Result (Unit {0})
  pub first_audit : Result AuditResult
  pub second_audit : Result AuditResult
  pub book : RuleBook
  pub put : List Output → Result (Unit {0})
  pub sha256 : Text → Text
  pub canonical_json : Json → Text
  pub show : Json → Text
  pub to_text : Json → Text
  pub uuid5 : Text → Text

-- The dict of `_baseline_diff`.
unfoldable pub diff_dict : BaselineDiff → Json
unfolding document number strings
diff_dict d = document (
    (text "schema_version", number 1)
    ∷ (text "new", strings d.new_ids)
    ∷ (text "fixed", strings d.fixed)
    ∷ (text "unchanged", strings d.unchanged)
    ∷ [])

-- The variables `baseline` and `diff` of `_audit_command`, of `str` for what is no string.
unfoldable pub diff_of :
    (Json → Text) → List Finding → Option (Result Json) → Result (Option BaselineDiff)
unfolding load_baseline baseline_diff
diff_of to_text fs none = returned none
diff_of to_text fs (some file) = then_do file (λ payload. elim (load_baseline to_text payload) [
  | none ↦ raised failed
  | some ids ↦ returned (some (baseline_diff fs ids))
])

-- The file of the difference, if there is one.
unfoldable pub diff_output : Option BaselineDiff → List Output
unfolding diff_dict
diff_output none = []
diff_output (some d) = write_json (text "quantumguard-baseline-diff.json") (diff_dict d) ∷ []

module _ (s : Surroundings) where
  -- The files that `_audit_command` writes.
  unfoldable pub audit_files : AuditResult → Option BaselineDiff → List Output
  unfolding result_dict inventory_document cbom_document cyclonedx_document migration_document
      sarif_document diff_output
  audit_files r diff =
      write_json (text "quantumguard-audit.json") (result_dict r)
      ∷ write_json (text "quantumguard-inventory.json")
          (inventory_document s.sha256 s.canonical_json r)
      ∷ write_json (text "quantumguard-cbom.json")
          (cbom_document s.sha256 s.canonical_json s.show r)
      ∷ write_json (text "quantumguard-cbom.cdx.json")
          (cyclonedx_document s.sha256 s.canonical_json s.uuid5 r)
      ∷ write_json (text "quantumguard-migration-plan.json")
          (migration_document s.sha256 s.canonical_json r)
      ∷ write_json (text "quantumguard.sarif") (sarif_document s.book r)
      ∷ diff_output diff

  -- What `_audit_command` prints if it is not quiet.
  unfoldable pub audit_printed : AuditResult → AuditFormat → Output
  unfolding result_dict sarif_document markdown_report
  audit_printed r json = emit_json (result_dict r)
  audit_printed r sarif = emit_json (sarif_document s.book r)
  audit_printed r markdown = print_text (markdown_report r)
  audit_printed r console = print_console

  unfoldable pub audit_outputs : AuditArguments → AuditResult → Option BaselineDiff → List Output
  unfolding audit_files audit_printed
  audit_outputs a r diff =
      (if a.output then audit_files r diff else [])
      ++ (if a.quiet then [] else audit_printed r a.format ∷ [])

  -- `_audit_command`
  unfoldable pub run_audit_command : AuditArguments → AuditResult → Result ℕ
  unfolding diff_of audit_outputs audit_exit
  run_audit_command a r = then_do (diff_of s.to_text r.findings a.baseline) (λ diff.
      then_do (s.put (audit_outputs a r diff))
        (λ done. returned (audit_exit r.findings diff a.fail_on)))

  -- A command that writes one document of an audit, to the file that is named or to the output.
  unfoldable pub write_document : (AuditResult → Json) → Result ℕ
  write_document make =
      then_do s.first_audit
        (λ r. then_do (s.put (emit_json (make r) ∷ [])) (λ done. returned exit_ok))

  -- The variable `payload` of the command `verify`, of the two texts.
  unfoldable pub verify_dict : Text → Text → Json
  unfolding document number
  verify_dict one two = document (
      (text "schema_version", number 1)
      ∷ (text "deterministic", boolean (one == two))
      ∷ (text "first_sha256", string (s.sha256 one))
      ∷ (text "second_sha256", string (s.sha256 two))
      ∷ [])

  unfoldable pub run_verify : AuditResult → AuditResult → Result ℕ
  unfolding result_dict verify_dict
  run_verify first second =
      let one = s.canonical_json (result_dict first) in
      let two = s.canonical_json (result_dict second) in
      then_do (s.put (emit_json (verify_dict one two) ∷ []))
        (λ done. returned (if one == two then exit_ok else exit_error))

  -- The commands `explain`: an unknown identifier and a document without the shape of an audit raise.
  unfoldable pub run_explain : Explained → Result ℕ
  run_explain (rule r) = returned exit_ok
  run_explain (finding f) = returned exit_ok
  run_explain unknown_identifier = raised failed
  run_explain malformed = raised failed

  unfoldable pub cbom_of : CbomFormat → AuditResult → Json
  unfolding cyclonedx_document cbom_document
  cbom_of cyclonedx r = cyclonedx_document s.sha256 s.canonical_json s.uuid5 r
  cbom_of native r = cbom_document s.sha256 s.canonical_json s.show r

  -- `_dispatch`. A file that `explain` reads is read only if the identifier is not that of a rule.
  unfoldable pub dispatch : Command → Result ℕ
  unfolding run_explain explain run_verify write_document inventory_document cbom_of
      migration_document agility_dict baseline_dict baseline_document run_audit_command
  dispatch doctor = then_do s.run_doctor (λ ok. returned (if ok then exit_ok else exit_error))
  dispatch rules = returned exit_ok
  dispatch tls = then_do s.inspect_tls (λ done. returned exit_ok)
  dispatch (explain_identifier id none) = run_explain (explain s.book.rules id none)
  dispatch (explain_identifier id (some input)) = elim (explain s.book.rules id none) [
    | rule r ↦ returned exit_ok
    | _ ↦ then_do input (λ payload. run_explain (explain s.book.rules id (some payload)))
  ]
  dispatch verify =
      then_do s.first_audit (λ first. then_do s.second_audit (λ second. run_verify first second))
  dispatch inventory = write_document (inventory_document s.sha256 s.canonical_json)
  dispatch (cbom format) = write_document (cbom_of format)
  dispatch plan = write_document (migration_document s.sha256 s.canonical_json)
  dispatch agility = write_document (λ r. agility_dict r.agility_components r.agility_score)
  dispatch baseline =
      write_document (λ r. baseline_dict (baseline_document r.findings r.generated_by r.repository))
  dispatch (audit_command a) = then_do s.first_audit (run_audit_command a)

-- What the parser of arguments comes to: an exit with a status, if it is a number, or a command.
pub data Invocation : Type 0 where
  exits : Option ℕ → Invocation
  invoked : Command → Invocation

abbrev pub exit_interrupted : ℕ
exit_interrupted = 130

unfoldable pub status_of : Result ℕ → ℕ
status_of (returned n) = n
status_of (raised interrupted) = exit_interrupted
status_of (raised failed) = exit_error

-- `main`; `none` is an exit that is raised again.
unfoldable pub main : Surroundings → Invocation → Option ℕ
unfolding status_of dispatch
main s (exits status) = status
main s (invoked c) = some (status_of (dispatch s c))
