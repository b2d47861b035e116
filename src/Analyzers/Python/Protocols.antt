-- ===== src/Analyzers/Python/Protocols.antt =====
-- `_classify_call` of src/quantumguard/analyzers/python.py: the protocols, and the whole.
use pqcensus.Base.{
  Bool, ◌||◌, Option, none, some, List, [], ◌∷◌, ◌++◌, Text, text, lower, any, occurs, contains,
  ends_with, map, keep, join, split_words, non_empty, nat_eq, list_eq, ◌==◌, if◌then◌else◌,
}
use pqcensus.Base.Dict.{Dict, lookup, values}
use pqcensus.Model.{Purpose}
use pqcensus.Util.Algorithms.{normalize_algorithm}
use pqcensus.Analyzers.Python.Syntax.{
  Expr, Keyword, string_literals, kwargs_onto, concat, jwt_algorithm,
}
use pqcensus.Analyzers.Python.Calls.{
  Observation, sure, fair, weak, ends_in, holds_any, first_branch, encoded_token, decoded_token,
  rsa_call, curve_call, other_call,
}

-- What a call of `_classify_call` comes to: an `IndexError`, no algorithm, or an observation.
pub data Outcome : Type 0 where
  index_error : Outcome
  silent : Outcome
  observed : Observation → Outcome

-- `kwargs.get(key, [""])[0]`; `none` is an `IndexError`.
unfoldable pub first_value : Option (List Text) → Option Text
first_value none = some []
first_value (some []) = none
first_value (some (t ∷ ts)) = some t

-- The last branches, of the variable `algorithm_hint`.
unfoldable pub pqc_call : Text → Outcome
unfolding holds_any
pqc_call hint =
    if holds_any hint (text "ML-KEM" ∷ text "MLKEM" ∷ [])
    then observed (
        sure (text "ML-KEM") Purpose.key_establishment (text "PQC key-establishment configuration"))
    else if holds_any hint (text "ML-DSA" ∷ text "MLDSA" ∷ [])
    then observed (sure (text "ML-DSA") Purpose.signature (text "PQC signature configuration"))
    else silent

-- The branch for a setting of ciphers, and the last ones.
unfoldable pub cipher_call : Text → Text → Outcome
unfolding ends_in holds_any pqc_call occurs
cipher_call n hint =
    if ends_in n (text "SETCIPHERS" ∷ text "SETCIPHERSUITES" ∷ [])
    then (if occurs (text "ECDHE") hint
        then observed (
            fair (text "ECDH") Purpose.key_establishment (
              text
                "TLS cipher configuration indicates ephemeral ECDH; the concrete curve/group is not proven by the cipher suite name"))
        else if holds_any hint (text "TLS_RSA" ∷ text "RSA" ∷ [])
        then observed (
            sure (text "RSA") Purpose.key_establishment
              (text "TLS cipher configuration contains RSA key transport"))
        else if occurs (text "X25519") hint
        then observed (
            fair (text "X25519") Purpose.key_establishment
              (text "TLS cipher configuration contains classical key agreement"))
        else pqc_call hint)
    else pqc_call hint

is_modern : Text → Bool
unfolding contains normalize_algorithm
is_modern version = contains (text "TLSV12" ∷ text "TLSV13" ∷ []) (normalize_algorithm version)

-- The variable `negotiated`, of the two versions.
unfoldable pub context_call : Option Text → Option Text → Outcome
unfolding is_modern
context_call (some minimum) (some maximum) =
    if is_modern minimum || is_modern maximum
    then observed (
        fair (text "TLS") Purpose.unknown
          (text "TLS context with explicit modern version negotiation"))
    else observed (
        weak (text "TLS") Purpose.unknown
          (text "TLS context creation; certificate and key-establishment details may be external"))
context_call _ _ = index_error

-- The branches behind the test of `check_hostname`.
unfoldable pub after_hostname : Text → Dict Text (List Text) → Text → Outcome
unfolding ends_in context_call first_value cipher_call lookup
after_hostname n kwargs hint =
    if ends_in n (text "SSL.CREATEDEFAULTCONTEXT" ∷ text "SSL.CONTEXT" ∷ [])
    then context_call (first_value (lookup (text "minimum_version") kwargs))
        (first_value (lookup (text "maximum_version") kwargs))
    else cipher_call n hint

-- The test of `check_hostname`, of its first value.
unfoldable pub hostname_call :
    Text → Dict Text (List Text) → Text → List Text → Option Text → Outcome
unfolding after_hostname contains lower
hostname_call n kwargs hint tokens none = index_error
hostname_call n kwargs hint tokens (some value) =
    if (lower value == text "false") || contains tokens (text "CERTNONE")
    then observed (
        sure (text "TLS-insecure") Purpose.unknown
          (text "TLS context explicitly disables certificate validation"))
    else after_hostname n kwargs hint

-- The variable `tokens`.
unfoldable pub tokens_of : Text → List Text
unfolding split_words normalize_algorithm
tokens_of hint = map normalize_algorithm (split_words hint)

abbrev legacy_protocols : List Text
legacy_protocols =
    text "PROTOCOLSSLV2" ∷ text "PROTOCOLSSLV3" ∷ text "PROTOCOLTLSV1" ∷ text "PROTOCOLTLSV11" ∷ []

-- The first observation, or what comes behind.
unfoldable pub or_else : Option Observation → Outcome → Outcome
or_else none after = after
or_else (some o) after = observed o

-- The branches from `tokens` on that stand before the test of `check_hostname`.
unfoldable pub protocol_branches : Text → Text → List (Bool × Observation)
unfolding tokens_of any contains ends_with
protocol_branches n hint =
    (
      ends_with (text "SSL.WRAPSOCKET") n,
      sure (text "TLS-legacy") Purpose.unknown
          (text "deprecated ssl.wrap_socket; predates modern TLS 1.3 negotiation"),
    )
    ∷ (
      ends_with (text "SSL.CREATEUNVERIFIEDCONTEXT") n,
      sure (text "TLS-insecure") Purpose.unknown
          (text "ssl._create_unverified_context disables certificate validation"),
    )
    ∷ (
      any (contains legacy_protocols) (tokens_of hint),
      sure (text "TLS-legacy") Purpose.unknown (text "legacy TLS protocol constant selected"),
    )
    ∷ []

-- The branches from `tokens` on.
unfoldable pub protocol_call : Text → Dict Text (List Text) → Text → Outcome
unfolding or_else first_branch protocol_branches tokens_of hostname_call first_value lookup
protocol_call n kwargs hint = or_else (first_branch (protocol_branches n hint)) (
    hostname_call n kwargs hint (tokens_of hint)
      (first_value (lookup (text "check_hostname") kwargs)))

-- `kwargs.get(key, [])`
unfoldable pub list_or_empty : Option (List Text) → List Text
list_or_empty none = []
list_or_empty (some ts) = ts

-- `if test:` before a part that may return.
unfoldable pub only_if : Bool → Option Observation → Option Observation
only_if test o = if test then o else none

-- What the first part returns, or else the second.
unfoldable pub or_then : Option Observation → Option Observation → Option Observation
or_then none after = after
or_then (some o) after = some o

-- The algorithm of a token that is encoded.
unfoldable pub encoding_algorithm : List Text → Dict Text (List Text) → Text
unfolding jwt_algorithm concat values lookup list_or_empty
encoding_algorithm literals kwargs = jwt_algorithm (
    list_or_empty (lookup (text "algorithm") kwargs)
    ++ list_or_empty (lookup (text "headers") kwargs)
    ++ literals
    ++ concat (values kwargs))

abbrev pub encoders : List Text
encoders = text "JWT.ENCODE" ∷ text "JWS.ENCODE" ∷ text "PYJWS.ENCODE" ∷ []

abbrev pub decoders : List Text
decoders = text "JWT.DECODE" ∷ text "JWS.DECODE" ∷ text "PYJWS.DECODE" ∷ []

-- The branches for tokens, of the values of the call.
unfoldable pub token_call : Text → List Text → Dict Text (List Text) → Option Observation
unfolding only_if or_then ends_in encoded_token decoded_token encoding_algorithm concat values
token_call n literals kwargs =
    or_then (only_if (ends_in n encoders) (encoded_token (encoding_algorithm literals kwargs)))
      (only_if (ends_in n decoders) (decoded_token (literals ++ concat (values kwargs))))

-- The variable `algorithm_hint`.
unfoldable pub hint_of : List Text → Dict Text (List Text) → Text
unfolding keep join values concat
hint_of literals kwargs = join (text " ") (keep non_empty (literals ++ concat (values kwargs)))

-- `_classify_call`, of the normalized name, the literals and the keyword arguments.
unfoldable pub classify_values : Text → List Text → Dict Text (List Text) → Outcome
unfolding or_else token_call rsa_call curve_call other_call protocol_call hint_of
classify_values n literals kwargs = or_else (token_call n literals kwargs) (
    or_else (rsa_call n) (
      or_else (curve_call n)
        (or_else (other_call n) (protocol_call n kwargs (hint_of literals kwargs)))))

-- `_classify_call`
unfoldable pub classify_call : Text → List Expr → List Keyword → Outcome
unfolding classify_values normalize_algorithm string_literals kwargs_onto
classify_call qname args keywords =
    classify_values (normalize_algorithm qname) (string_literals args) (kwargs_onto [] keywords)
