-- ===== src/Tests/Commands.antt =====
-- The theorem about the exit status of the command line, at a concrete input.
use pqcensus.Base.{◌≡◌, ◌↔◌, refl, true, false, none, some, [], text, list_beq, is_lower}
use pqcensus.Cli.{reaches}
use pqcensus.Cli.Commands.{
  AuditArguments, console, Surroundings, returned, audit_command, invoked, main,
}
use pqcensus.Cli.Commands.Failing.{IsFailedAudit, main_one}
use pqcensus.Tests.Samples.{findings, stand_in_hash}
use pqcensus.Tests.Documents.{book, sample_result}

abbrev arguments : AuditArguments
arguments = record {
  baseline = none;
  output = true;
  format = console;
  quiet = false;
  fail_on = text "high";
}

abbrev surroundings : Surroundings
surroundings = record {
  run_doctor = returned true;
  inspect_tls = returned tt;
  first_audit = returned (record sample_result { findings = findings });
  second_audit = returned sample_result;
  book = book;
  put = λ outputs. returned tt;
  sha256 = stand_in_hash;
  canonical_json = λ j. [];
  show = λ j. [];
  to_text = λ j. [];
  uuid5 = stand_in_hash;
}

-- An active critical finding fails the audit.
main_test : main surroundings (invoked (audit_command arguments)) ≡ some 1
unfolding main list_beq is_lower reaches
main_test = refl

main_one_example :
    (main surroundings (invoked (audit_command arguments)) ≡ some 1)
    ↔ IsFailedAudit surroundings (audit_command arguments)
main_one_example = main_one surroundings (audit_command arguments)
