-- ===== src/Cli/Commands/Failing.antt =====
-- When the command line of src/quantumguard/cli.py exits with status 1.
use mathlib.Core.Option.{some-injective}
use pqcensus.Base.{
  ℕ, Bool, true, false, ◌≡◌, ◌≢◌, ◌↔◌, refl, ap, Option, none, some, Text, nat_eq, list_eq,
  if◌then◌else◌,
}
use pqcensus.Base.Json.{Json}
use pqcensus.Audit.Complete.{AuditResult}
use pqcensus.Cli.{BaselineDiff, audit_exit, exit_ok, exit_error}
use pqcensus.Cli.Explain.{Explained, rule, finding, unknown_identifier, malformed, explain}
use pqcensus.Cli.Commands.{
  Failure, interrupted, failed, Result, raised, returned, then_do, AuditArguments, Command,
  Surroundings, doctor, rules, tls, explain_identifier, verify, inventory, plan, agility, baseline,
  cbom, audit_command, diff_of, audit_outputs, run_audit_command, write_document, run_verify,
  run_explain, dispatch, invoked, status_of, main,
}

-- A result without status 1.
abbrev NotOne : Result ℕ → Type 0
NotOne r = status_of r ≢ 1

raised-NotOne : (e : Failure) → NotOne (raised e)
unfolding status_of
raised-NotOne interrupted = λ h. cc
raised-NotOne failed = λ h. cc

then_do-NotOne {ℓ} :
    {A : Type ℓ} (r : Result A) (f : A → Result ℕ) → ((a : A) → NotOne (f a)) → NotOne (then_do r f)
then_do-NotOne (raised e) f h = raised-NotOne e
then_do-NotOne (returned a) f h = h a

flag-NotOne : (b : Bool) → NotOne (returned (if b then exit_ok else exit_error))
unfolding status_of
flag-NotOne true = λ h. cc
flag-NotOne false = λ h. cc

ok-NotOne : NotOne (returned exit_ok)
unfolding status_of
ok-NotOne = λ h. cc

run_explain-NotOne : (e : Explained) (s : Surroundings) → NotOne (run_explain s e)
unfolding run_explain
run_explain-NotOne (rule r) s = ok-NotOne
run_explain-NotOne (finding f) s = ok-NotOne
run_explain-NotOne unknown_identifier s = raised-NotOne failed
run_explain-NotOne malformed s = raised-NotOne failed

module _ (s : Surroundings) where
  write_document-NotOne : (make : AuditResult → Json) → NotOne (write_document s make)
  unfolding write_document
  write_document-NotOne make =
      then_do-NotOne s.first_audit _ (λ r. then_do-NotOne (s.put _) _ (λ done. ok-NotOne))

  run_verify-NotOne : (first second : AuditResult) → NotOne (run_verify s first second)
  unfolding run_verify
  run_verify-NotOne first second = then_do-NotOne (s.put _) _ (λ done. flag-NotOne _)

  explain_input-NotOne :
      (id : Text) (input : Result Json) (e : Explained)
      → NotOne (elim e [
        | rule r ↦ returned exit_ok
        | _ ↦ then_do input (λ payload. run_explain s (explain s.book.rules id (some payload)))
      ])
  explain_input-NotOne id input (rule r) = ok-NotOne
  explain_input-NotOne id input (finding f) =
      then_do-NotOne input _ (λ payload. run_explain-NotOne _ s)
  explain_input-NotOne id input unknown_identifier =
      then_do-NotOne input _ (λ payload. run_explain-NotOne _ s)
  explain_input-NotOne id input malformed =
      then_do-NotOne input _ (λ payload. run_explain-NotOne _ s)

-- The command is the audit, it has a result, its baseline is read, its outputs are written, and a
-- finding reaches the threshold.
abbrev pub IsFailedAudit : Surroundings → Command → Type 0
IsFailedAudit s c =
    (a : AuditArguments) × (r : AuditResult) × (diff : Option BaselineDiff) × (c ≡ audit_command a)
    × (s.first_audit ≡ returned r)
    × (diff_of s.to_text r.findings a.baseline ≡ returned diff)
    × (s.put (audit_outputs s a r diff) ≡ returned tt)
    × (audit_exit r.findings diff a.fail_on ≡ 1)

then_do_one {ℓ} :
    {A : Type ℓ} (r : Result A) (f : A → Result ℕ)
    → status_of (then_do r f) ≡ 1
    → (a : A) × (r ≡ returned a) × (status_of (f a) ≡ 1)
then_do_one (raised e) f h = absurd (raised-NotOne e h)
then_do_one (returned a) f h = (a, refl, h)

audit_command_one :
    (s : Surroundings) (a : AuditArguments)
    → status_of (dispatch s (audit_command a)) ≡ 1
    → IsFailedAudit s (audit_command a)
unfolding dispatch run_audit_command status_of
audit_command_one s a h =
    let (r, audited, h1) = then_do_one s.first_audit (run_audit_command s a) h in
    let (diff, compared, h2) = then_do_one (diff_of s.to_text r.findings a.baseline) _ h1 in
    let (done, written, h3) = then_do_one (s.put (audit_outputs s a r diff)) _ h2 in
    (a, r, diff, refl, audited, compared, written, h3)

one_is_failed : (s : Surroundings) (c : Command) → status_of (dispatch s c) ≡ 1 → IsFailedAudit s c
unfolding dispatch
one_is_failed s doctor h = absurd (then_do-NotOne s.run_doctor _ flag-NotOne h)
one_is_failed s rules h = absurd (ok-NotOne h)
one_is_failed s tls h = absurd (then_do-NotOne s.inspect_tls _ (λ done. ok-NotOne) h)
one_is_failed s (explain_identifier id none) h = absurd (run_explain-NotOne _ s h)
one_is_failed s (explain_identifier id (some input)) h =
    absurd (explain_input-NotOne s id input (explain s.book.rules id none) h)
one_is_failed s verify h = absurd (
    then_do-NotOne s.first_audit _
      (λ first. then_do-NotOne s.second_audit _ (λ second. run_verify-NotOne s first second)) h)
one_is_failed s inventory h = absurd (write_document-NotOne s _ h)
one_is_failed s (cbom format) h = absurd (write_document-NotOne s _ h)
one_is_failed s plan h = absurd (write_document-NotOne s _ h)
one_is_failed s agility h = absurd (write_document-NotOne s _ h)
one_is_failed s baseline h = absurd (write_document-NotOne s _ h)
one_is_failed s (audit_command a) h = audit_command_one s a h

failed_is_one : (s : Surroundings) (c : Command) → IsFailedAudit s c → status_of (dispatch s c) ≡ 1
unfolding dispatch run_audit_command status_of
failed_is_one s c (a, r, diff, e, audited, compared, written, h) =
    rw (e, audited, compared, written) h

-- The command line exits with status 1 exactly if the command is `audit`, the audit has a result, its
-- baseline, if one is given, is read, the outputs are written, and the exit status of the audit, of its
-- findings, the difference to the baseline and the threshold, is 1.
pub main_one : (s : Surroundings) (c : Command) → (main s (invoked c) ≡ some 1) ↔ IsFailedAudit s c
unfolding main
main_one s c = (
  (λ h. one_is_failed s c (some-injective (status_of (dispatch s c)) 1 h)),
  (λ h. ap some (failed_is_one s c h)),
)
