-- ===== src/Hndl.antt =====
-- src/quantumguard/hndl.py: whether captured ciphertext could be decrypted later.
pub mod Statuses
use pqcensus.Base.{
  ℕ, zero, suc, Bool, true, false, ◌&&◌, ◌||◌, Option, none, some, List, [], ◌∷◌, Text, text, map,
  keep, contains, nat_eq, list_eq, if◌then◌else◌,
}
use pqcensus.Base.Int.{ℤ, pos, negsuc, leb_ℤ}
use pqcensus.Model.{Finding}
use pqcensus.Model.Values.{is_active, is_confidentiality, is_shor_vulnerable}

pub data HndlStatus : Type 0 where
  no_signal unknown high review : HndlStatus

unfoldable pub hndl_status_value : HndlStatus → Text
hndl_status_value HndlStatus.no_signal = text "NO_STATIC_CONFIDENTIALITY_SIGNAL"
hndl_status_value HndlStatus.unknown = text "UNKNOWN"
hndl_status_value HndlStatus.high = text "HIGH"
hndl_status_value HndlStatus.review = text "REVIEW"

-- The keyword arguments, which are the value of "inputs" too.
pub record HndlInputs : Type 0 where
  pub data_sensitivity : Option Text
  pub confidentiality_lifetime_years : Option ℤ
  pub system_context : Option Text
  pub exposure : Option Text

-- The returned dictionary, without its fixed entries `schema_version` and `default_policy`.
pub record HndlResult : Type 0 where
  pub status : HndlStatus
  pub rationale : Text
  pub affected_finding_ids : List Text
  pub inputs : HndlInputs
  pub unknown_inputs : List Text

-- The test of the comprehension `confidentiality_findings`.
unfoldable pub is_affected : Finding → Bool
unfolding is_active is_confidentiality is_shor_vulnerable
is_affected f =
    is_active f.status && is_confidentiality f.purpose && is_shor_vulnerable f.quantum_risk

missing_name {ℓ} : {A : Type ℓ} → Text → Option A → List Text → List Text
missing_name name none names = name ∷ names
missing_name name (some a) names = names

unfoldable pub missing_inputs : HndlInputs → List Text
unfolding missing_name
missing_inputs i = missing_name (text "data_sensitivity") i.data_sensitivity (
    missing_name (text "confidentiality_lifetime_years") i.confidentiality_lifetime_years (
      missing_name (text "system_context") i.system_context
        (missing_name (text "exposure") i.exposure [])))

-- `bool(years) and years >= 10`
unfoldable pub is_ten_years : Option ℤ → Bool
is_ten_years none = false
is_ten_years (some (pos zero)) = false
is_ten_years (some (pos (suc n))) = leb_ℤ (pos 10) (pos (suc n))
is_ten_years (some (negsuc n)) = leb_ℤ (pos 10) (negsuc n)

-- `exposure in {"public", "internet", "external"}`
unfoldable pub is_outside : Option Text → Bool
unfolding contains
is_outside none = false
is_outside (some e) = contains (text "public" ∷ text "internet" ∷ text "external" ∷ []) e

unfoldable pub hndl_status : List Finding → List Text → HndlInputs → HndlStatus
hndl_status [] missing i = HndlStatus.no_signal
hndl_status (f ∷ fs) (m ∷ ms) i = HndlStatus.unknown
hndl_status (f ∷ fs) [] i =
    if is_ten_years i.confidentiality_lifetime_years && is_outside i.exposure
    then HndlStatus.high
    else HndlStatus.review

hndl_rationale : List Finding → Text
hndl_rationale [] =
    text
      "No Shor-vulnerable confidentiality or key-establishment call site was verified by the current static scan."
hndl_rationale (f ∷ fs) =
    text
      "Captured ciphertext protected by Shor-vulnerable key establishment could be retained and decrypted after a future cryptographically relevant quantum computer exists."

unfoldable pub assess_hndl : List Finding → HndlInputs → HndlResult
unfolding hndl_status missing_inputs hndl_rationale keep
assess_hndl findings i =
    let affected = keep is_affected findings in
    let missing = missing_inputs i in
    record {
      status = hndl_status affected missing i;
      rationale = hndl_rationale affected;
      affected_finding_ids = map (λ f. f.finding_id) affected;
      inputs = i;
      unknown_inputs = missing;
    }
