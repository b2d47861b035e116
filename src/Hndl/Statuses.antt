-- ===== src/Hndl/Statuses.antt =====
-- When `assess_hndl` concludes what.
use pqcensus.Base.{
  ℕ, zero, suc, ◌≤◌, ◌⊎◌, Option, some, text, contains, get_elem?, any-get_elem?, ==_iff, nat_eq,
  list_eq, true, ◌≡◌, ◌≢◌, ◌↔◌, refl, none, List, [], ◌∷◌, Text, any, keep, arith,
}
use pqcensus.Base.Int.{ℤ, pos, negsuc}
use pqcensus.Model.{Finding, Status, Purpose, QuantumStatus}
use pqcensus.Model.Values.{is_active, is_confidentiality, is_shor_vulnerable}
use pqcensus.Hndl.{
  HndlStatus, HndlInputs, is_affected, missing_inputs, is_ten_years, is_outside, hndl_status,
  assess_hndl,
}

-- All inputs are supplied.
pub record IsSupplied (i : HndlInputs) : Type 0 where
  pub sensitivity : i.data_sensitivity ≢ none
  pub lifetime : i.confidentiality_lifetime_years ≢ none
  pub system : i.system_context ≢ none
  pub exposed : i.exposure ≢ none

missing_inputs-nil_iff : (i : HndlInputs) → (missing_inputs i ≡ []) ↔ IsSupplied i
unfolding missing_inputs
missing_inputs-nil_iff i = (λ h. ground arith, λ s. ground arith)

keep-any : (fs : List Finding) → (keep is_affected fs ≢ []) ↔ (any is_affected fs ≡ true)
unfolding keep any
keep-any [] = ground arith
keep-any (f ∷ fs) = ground (arith, keep-any fs)

nil_of_not-ne-nil : (fs : List Finding) → ¬ (fs ≢ []) → fs ≡ []
nil_of_not-ne-nil [] h = refl
nil_of_not-ne-nil (f ∷ fs) h = absurd (h (λ e. cc))

hndl_status-lem :
    (affected : List Finding) (missing : List Text) (i : HndlInputs)
    → ((hndl_status affected missing i ≡ HndlStatus.no_signal) ↔ (affected ≡ []))
      × ((hndl_status affected missing i ≡ HndlStatus.unknown) ↔ ((affected ≢ []) × (missing ≢ [])))
      × ((hndl_status affected missing i ≡ HndlStatus.high) ↔ (
          (affected ≢ [])
          × (missing ≡ [])
          × (is_ten_years i.confidentiality_lifetime_years ≡ true)
          × (is_outside i.exposure ≡ true)))
unfolding hndl_status
hndl_status-lem [] missing i = ground arith
hndl_status-lem (f ∷ fs) [] i = ground arith
hndl_status-lem (f ∷ fs) (m ∷ ms) i = ground arith

-- An active finding of a confidentiality purpose that is Shor-vulnerable.
abbrev pub Affected : List Finding → Type 0
Affected fs =
    (i : ℕ) × (f : Finding) × (get_elem? fs i ≡ some f)
    × (f.status ≡ Status.active)
    × ((f.purpose ≡ Purpose.key_establishment) ⊎ (f.purpose ≡ Purpose.encryption))
    × (f.quantum_risk ≡ QuantumStatus.shor_vulnerable)

abbrev pub IsTenYears : HndlInputs → Type 0
IsTenYears i = (n : ℕ) × (i.confidentiality_lifetime_years ≡ some (pos n)) × (10 ≤ n)

abbrev pub IsExposed : HndlInputs → Type 0
IsExposed i =
    (i.exposure ≡ some (text "public"))
    ⊎ ((i.exposure ≡ some (text "internet")) ⊎ (i.exposure ≡ some (text "external")))

is_affected_iff :
    (f : Finding)
    → (is_affected f ≡ true) ↔ (
        (f.status ≡ Status.active)
        × ((f.purpose ≡ Purpose.key_establishment) ⊎ (f.purpose ≡ Purpose.encryption))
        × (f.quantum_risk ≡ QuantumStatus.shor_vulnerable))
unfolding is_affected is_active is_confidentiality is_shor_vulnerable
is_affected_iff f = ground arith

any-Affected : (fs : List Finding) → (any is_affected fs ≡ true) ↔ Affected fs
any-Affected fs = (
  λ h.
      let (i, f, at, k) = (any-get_elem? is_affected fs).0 h in
      let (active, purpose, risk) = (is_affected_iff f).0 k in (i, f, at, active, purpose, risk),
  λ (i, f, at, active, purpose, risk).
      (any-get_elem? is_affected fs).1 (i, f, at, (is_affected_iff f).1 (active, purpose, risk)),
)

is_ten_years_iff :
    (o : Option ℤ) → (is_ten_years o ≡ true) ↔ ((n : ℕ) × (o ≡ some (pos n)) × (10 ≤ n))
unfolding is_ten_years
is_ten_years_iff none = (λ h. absurd cc, λ (n, e, h). absurd cc)
is_ten_years_iff (some (pos zero)) = (λ h. absurd cc, λ (n, e, h). ground arith)
is_ten_years_iff (some (pos (suc n))) =
    (λ h. (suc n, refl, ground arith), λ (m, e, h). ground arith)
is_ten_years_iff (some (negsuc n)) = (λ h. absurd ground arith, λ (m, e, h). absurd cc)

is_outside_iff :
    (o : Option Text)
    → (is_outside o ≡ true)
      ↔ ((o ≡ some (text "public")) ⊎ ((o ≡ some (text "internet")) ⊎ (o ≡ some (text "external"))))
unfolding is_outside contains
is_outside_iff none = ground arith
is_outside_iff (some t) =
    ground (arith, ==_iff t (text "public"), ==_iff t (text "internet"), ==_iff t (text "external"))

-- The assessment of any findings and inputs: there is no signal exactly if no active finding for key
-- establishment or encryption is Shor-vulnerable; the status is UNKNOWN exactly if one is and an input
-- is missing; and it is HIGH exactly if one is, no input is missing, the lifetime is ten years or
-- more and the exposure is public, internet or external.
pub assess_hndl_status :
    (fs : List Finding) (i : HndlInputs)
    → (((assess_hndl fs i).status ≡ HndlStatus.no_signal) ↔ (¬ Affected fs))
      × (((assess_hndl fs i).status ≡ HndlStatus.unknown) ↔ (Affected fs × (¬ IsSupplied i)))
      × (((assess_hndl fs i).status ≡ HndlStatus.high)
          ↔ (Affected fs × IsSupplied i × IsTenYears i × IsExposed i))
unfolding assess_hndl
assess_hndl_status fs i =
    let (no_signal, unknown, high) = hndl_status-lem (keep is_affected fs) (missing_inputs i) i in
    let (found, any_found) = keep-any fs in
    let (affected, is_any) = any-Affected fs in
    let (supplied, none_missing) = missing_inputs-nil_iff i in
    let (ten, is_ten) = is_ten_years_iff i.confidentiality_lifetime_years in
    let (exposed, is_out) = is_outside_iff i.exposure in
    (
      (
        λ h a. any_found (is_any a) (no_signal.0 h),
        λ h. no_signal.1 (nil_of_not-ne-nil _ (λ n. h (affected (found n)))),
      ),
      (
        λ h. let (n, m) = unknown.0 h in (affected (found n), λ s. m (none_missing s)),
        λ (a, s). unknown.1 (any_found (is_any a), λ m. s (supplied m)),
      ),
      (
        λ h. let (n, m, t, o) = high.0 h in (affected (found n), supplied m, ten t, exposed o),
        λ (a, s, t, o). high.1 (any_found (is_any a), none_missing s, is_ten t, is_out o),
      ),
    )
