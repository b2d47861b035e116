-- ===== src/Tests/Benchmarks.antt =====
-- The theorems about the benchmark, at concrete inputs.
use pqcensus.Base.{◌≡◌, ◌+◌, refl, some, true, [], ◌∷◌, List, text, length, list_beq, option_beq}
use pqcensus.Scripts.Benchmark.{
  valid_sarif_contract, Label, call_site, expected_keys, observed_keys, case_counts, metrics,
}
use pqcensus.Scripts.Benchmark.Totals.{IsShare, case_counts_lem}
use pqcensus.Reporting.Sarif.Document.{sarif_document}
use pqcensus.Tests.Samples.{findings}
use pqcensus.Tests.Documents.{book, sample_result}

contract_test : valid_sarif_contract (sarif_document book sample_result) ≡ some true
unfolding valid_sarif_contract sarif_document list_beq
contract_test = refl

abbrev labels : List Label
labels =
    record {
      file = text "src/app.py";
      algorithm = text "RSA";
      purpose = text "ENCRYPTION";
      line = 3;
    }
    ∷ []

-- One label is found, and one finding has no label.
case_counts_test :
    case_counts (expected_keys call_site labels) (observed_keys call_site findings)
    ≡ record { true_positive = 1; false_positive = 1; false_negative = 0 }
unfolding case_counts expected_keys observed_keys list_beq option_beq
case_counts_test = refl

case_counts_example :
    let c = case_counts (expected_keys call_site labels) (observed_keys call_site findings) in
    (c.true_positive + c.false_negative ≡ length (expected_keys call_site labels))
    × (c.true_positive + c.false_positive ≡ length (observed_keys call_site findings))
    × IsShare (metrics c).precision
    × IsShare (metrics c).recall
case_counts_example = case_counts_lem call_site labels findings
