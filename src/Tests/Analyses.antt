-- ===== src/Tests/Analyses.antt =====
-- The theorems about the analyzers, at concrete inputs.
use pqcensus.Base.{
  All, lower, length, count, false, list_beq, map, [], ◌∷◌, ◌≡◌, ◌≢◌, refl, true, none, some, Text,
  text, is_lower, is_upper, is_digit,
}
use pqcensus.Base.Json.{object, field, string, no_fields}
use pqcensus.Model.{Purpose}
use pqcensus.Policy.Shipped.{shipped_rules}
use pqcensus.Analyzers.Config.Names.{classify, spelling, is_rsa_token}
use pqcensus.Analyzers.Config.Pairs.{line_pair, child_pairs}
use pqcensus.Analyzers.Config.Analysis.{Parsers, pairs_of, analyze}
use pqcensus.Analyzers.Config.Traced.{IsOfPair, is_selected, analyze_lem}
use pqcensus.Util.Paths.{path_suffix}
use pqcensus.Analyzers.Config.Classified.{names_rsa, rsa_purpose, classify_lem}
use pqcensus.Tests.Samples.{stand_in_hash}

classify_example :
    (classify (text "key_exchange") (text "RSA-2048")
      ≡ classify (text "signature") (text "RSA-2048"))
    × (classify (text "key_exchange") (text "RSA-2048")
        ≢ some (text "RSA", Purpose.key_establishment))
    × (names_rsa (text "RSA-2048") ≡ true
        → classify (text "key_exchange") (text "RSA-2048")
          ≡ some (text "RSA", rsa_purpose (is_rsa_token (spelling (text "RSA-2048")))))
classify_example = classify_lem (text "key_exchange") (text "signature") (text "RSA-2048")

abbrev parsers : Parsers
parsers = record {
  json_loads = λ t. some (object (field (text "algorithm") (string (text "ES256")) no_fields));
  toml_loads = λ t. none;
  raises = λ suffix t. false;
  repr = λ t. t;
  sha256 = stand_in_hash;
}

abbrev document : Text
document = text "algorithm: ES256"

analyze_example :
    let pairs = pairs_of parsers shipped_rules (lower (path_suffix (text "a.json"))) document in
    All
      (IsOfPair (text "a.json") document pairs)
      (analyze parsers shipped_rules (text "a.json") document)
    × (length (analyze parsers shipped_rules (text "a.json") document) ≡ count is_selected pairs)
analyze_example = analyze_lem parsers shipped_rules (text "a.json") document

-- The value of a key that is of interest is found, with its algorithm.
analyze_test :
    map (λ f. f.algorithm) (analyze parsers shipped_rules (text "a.json") document)
    ≡ text "ECDSA" ∷ []
unfolding analyze child_pairs spelling list_beq is_upper is_lower
analyze_test = refl

yaml_test : line_pair document ≡ some (text "algorithm", text "ES256")
unfolding line_pair is_lower is_upper is_digit
yaml_test = refl
