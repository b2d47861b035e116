-- ===== src/Tests/Calls.antt =====
-- The theorems about the calls that the analyzer of Python classifies, at concrete inputs.
use pqcensus.Base.{
  ◌≡◌, ◌⊎◌, refl, true, false, none, some, [], ◌∷◌, text, list_beq, is_upper, is_lower, is_space,
  ends_with,
}
use pqcensus.Util.Algorithms.{normalize_algorithm}
use pqcensus.Model.{Purpose, Confidence}
use pqcensus.Analyzers.Python.Assignments.{
  classify_assignment, classify_assignment_lem, is_attribute, is_ssl_context, last_part,
}
use pqcensus.Analyzers.Python.Syntax.{
  Expr, constant, boolean, name, Keyword, qualified_name, attribute,
}
use pqcensus.Analyzers.Python.Calls.{Observation, sure}
use pqcensus.Analyzers.Python.Protocols.{index_error, classify_values, classify_call}
use pqcensus.Analyzers.Python.Outcomes.{is_kdf, classify_values-kdf}

classify_values-kdf_example : is_kdf (classify_values (text "KDF.PBKDF2HMAC") [] []) ≡ false
unfolding ends_with
classify_values-kdf_example = classify_values-kdf (text "KDF.PBKDF2HMAC") [] [] refl

abbrev flag : Keyword
flag = record { arg = some (text "check_hostname"); value = name (text "verify") }

-- `connect(check_hostname=verify)`
index_error_test : classify_call (text "connect") [] (flag ∷ []) ≡ index_error
unfolding classify_call list_beq is_upper is_lower is_space
index_error_test = refl

qualified_name_test :
    qualified_name
      ((text "r", record { module_name = text "rsa"; imported = none }) ∷ [])
      []
      (attribute (name (text "r")) (text "encrypt"))
    ≡ text "rsa.encrypt"
unfolding qualified_name list_beq
qualified_name_test = refl

abbrev disabled : Observation
disabled =
    sure (text "TLS-insecure") Purpose.unknown
      (text "TLS context assignment disables hostname verification")

abbrev hostname_target : Expr
hostname_target = attribute (name (text "ctx")) (text "check_hostname")

-- `ctx.check_hostname = False`
disabled_hostname :
    classify_assignment [] [] hostname_target
      (some (constant (boolean false)))
      (text "ssl.create_default_context.check_hostname")
    ≡ some (
        sure
          (text "TLS-insecure")
          Purpose.unknown
          (text "TLS context assignment disables hostname verification"))
unfolding classify_assignment list_beq is_upper is_lower is_space
disabled_hostname = refl

classify_assignment_example :
    let o = disabled in
    (is_attribute hostname_target ≡ true)
    × (is_ssl_context (last_part (text "ssl.create_default_context.check_hostname")).0 ≡ true)
    × (o.algorithm ≡ text "TLS-insecure")
    × (o.purpose ≡ Purpose.unknown)
    × (o.confidence ≡ Confidence.high)
    × (((last_part (text "ssl.create_default_context.check_hostname")).1 ≡ text "check_hostname")
          × (some (constant (boolean false)) ≡ some (constant (boolean false)))
        ⊎ ((last_part (text "ssl.create_default_context.check_hostname")).1 ≡ text "verify_mode")
          × ((v : Expr) × (some (constant (boolean false)) ≡ some v)
              × (normalize_algorithm (qualified_name [] [] v) ≡ text "SSL.CERTNONE")))
classify_assignment_example =
    classify_assignment_lem [] [] hostname_target (some (constant (boolean false)))
      (text "ssl.create_default_context.check_hostname") disabled disabled_hostname
