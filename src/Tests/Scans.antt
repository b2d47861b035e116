-- ===== src/Tests/Scans.antt =====
-- The theorems about the analyzers of lines and of Python and about whole audits, at concrete inputs.
use pqcensus.Base.{
  ℕ, ◌≡◌, ◌≤◌, refl, true, false, Bool, none, some, Option, [], ◌∷◌, List, Text, text, count, All,
  map, ◌==◌, nat_eq, list_eq, list_beq, is_upper, is_lower, is_digit, is_space,
}
use pqcensus.Base.Int.{pos}
use pqcensus.Base.Sort.{IsSorted, nat_ord, list_ord, pair_ord}
use pqcensus.Model.{Finding}
use pqcensus.Policy.{matching_rule}
use pqcensus.Hndl.{HndlInputs}
use pqcensus.Util.Walk.{Directory, listed, no_directories, answer}
use pqcensus.Audit.{Limits, finding_key, audit_findings}
use pqcensus.Audit.Complete.{Repository, scan}
use pqcensus.Audit.Default.{Tools, selected_analyzers}
use pqcensus.Audit.Assets.{assets_raise}
use pqcensus.Suppressions.{LogEntry, ParserError}
use pqcensus.Analyzers.Common.{splitlines}
use pqcensus.Analyzers.Textual.Analysis.{analyze_text}
use pqcensus.Analyzers.Textual.Lines.{PointsAtToken, IsAscending, analyze_text_lem}
use pqcensus.Analyzers.Python.Syntax.{name, attribute}
use pqcensus.Analyzers.Python.Tree.{Node, call, import_names, definition, if_body, elsewhere}
use pqcensus.Analyzers.Python.Syntax.{constant, boolean}
use pqcensus.Analyzers.Python.Analysis.{walked, analyze_nodes}
use pqcensus.Analyzers.Python.Traced.{IsTraced, analyze_nodes_lem}
use pqcensus.Tests.Samples.{outside, dependencies, stand_in_hash}

abbrev no_letters : ℕ → Bool
no_letters c = false

abbrev go_source : Text
go_source = text "k := MLKEM // x25519"

analyze_text_example :
    All
      (PointsAtToken (splitlines go_source) 1)
      (analyze_text stand_in_hash no_letters [] (text "a.go") go_source)
    × IsAscending 0 (analyze_text stand_in_hash no_letters [] (text "a.go") go_source)
analyze_text_example = analyze_text_lem stand_in_hash no_letters [] (text "a.go") go_source

-- The token before the comment is found, with its columns.
analyze_text_test :
    map {B = Text × ℕ}
      (λ f. (f.algorithm, f.span.start_column))
      (analyze_text stand_in_hash no_letters [] (text "a.go") go_source)
    ≡ (text "ML-KEM", 5) ∷ []
unfolding analyze_text list_beq is_upper is_lower is_digit is_space
analyze_text_test = refl

abbrev import_node : Node
import_node = record {
  identity = 1;
  kind = import_names (record { name = text "rsa"; asname = none } ∷ []);
  span = record { start_line = 1; start_column = 0; end_line = some 1; end_column = some 10 };
  links = record { place = elsewhere; parent = 0 } ∷ [];
}

-- `rsa.encrypt()` in a function.
abbrev call_node : Node
call_node = record {
  identity = 3;
  kind = call (attribute (name (text "rsa")) (text "encrypt")) [] [];
  span = record { start_line = 3; start_column = 4; end_line = some 3; end_column = some 17 };
  links = record { place = elsewhere; parent = 2 } ∷ record { place = elsewhere; parent = 0 } ∷ [];
}

abbrev function_node : Node
function_node = record {
  identity = 2;
  kind = definition (text "seal");
  span = record { start_line = 2; start_column = 0; end_line = some 3; end_column = some 17 };
  links = record { place = elsewhere; parent = 0 } ∷ [];
}

-- The same call under `if False:`.
abbrev dead_node : Node
dead_node = record call_node {
  identity = 4;
  links =
      record { place = if_body (constant (boolean false)); parent = 5 }
      ∷ record { place = elsewhere; parent = 0 }
      ∷ [];
}

abbrev nodes : List Node
nodes = import_node ∷ function_node ∷ call_node ∷ dead_node ∷ []

abbrev python_findings : List Finding
python_findings = elim (analyze_nodes stand_in_hash [] (text "a.py") [] nodes) [
  | none ↦ []
  | some fs ↦ fs
]

analyze_nodes_test :
    map {B = Text × (Option Text × ℕ)}
      (λ f. (f.algorithm, (f.symbol, f.span.start_line)))
      python_findings
    ≡ (text "RSA", (some (text "seal"), 3)) ∷ []
unfolding analyze_nodes matching_rule list_beq is_upper is_lower is_space
analyze_nodes_test = refl

analyze_nodes_example :
    All (IsTraced [] (text "a.py") nodes) python_findings
    × ((id : Text) → count (λ f. id == f.finding_id) python_findings ≤ 1)
    × IsSorted finding_key python_findings
unfolding analyze_nodes matching_rule list_beq is_upper is_lower is_space
analyze_nodes_example =
    analyze_nodes_lem stand_in_hash [] (text "a.py") [] nodes python_findings refl

abbrev tools : Tools
tools = record {
  parsers = record {
    json_loads = λ t. none;
    toml_loads = λ t. none;
    raises = λ suffix t. false;
    repr = λ t. t;
    sha256 = stand_in_hash;
  };
  parse_python = λ path source. walked nodes;
  isalnum = no_letters;
}

abbrev python_tree : Directory
python_tree = listed no_directories (
    record {
      name = text "a.py";
      link = some false;
      size = answer 9;
      content = some (some (text "import rsa"));
    }
    ∷ [])

abbrev pub sample_repository : Repository
sample_repository = record {
  name = text "sample";
  symlink = false;
  is_directory = true;
  tree = python_tree;
  outside = outside;
  dependencies = some dependencies;
}

abbrev pub sample_limits : Limits
sample_limits = record { max_files = pos 10; max_file_bytes = pos 100; max_total_bytes = pos 1000 }

abbrev pub no_inputs : HndlInputs
no_inputs = record {
  data_sensitivity = none;
  confidentiality_lifetime_years = none;
  system_context = none;
  exposure = none;
}

abbrev pub version : Text
version = text "0.1.0"

abbrev found : Option (List Finding × List LogEntry × List ParserError)
found =
    audit_findings outside (selected_analyzers tools [] []) none none
      (scan sample_limits sample_repository).selected

raising : Option (List Finding × List LogEntry × List ParserError) → Bool
unfolding assets_raise
raising none = false
raising (some kept) = assets_raise kept.0 dependencies
