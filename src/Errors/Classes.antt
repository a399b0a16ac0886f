-- ===== src/Errors/Classes.antt =====
-- analyze_provider_error: which answers block a key, cool it down, or go back to the client.
use thebalance.Prelude.{
  ℕ, String, ◌≡◌, ◌≢◌, ◌↔◌, ◌⊎◌, inl, inr, Bool, true, false, ◌&&◌, some, List, [], ◌∷◌, arith,
  str_eq, Option-cases,
}
use thebalance.Errors.{
  GoogleErrorDetail, GoogleErrorResponse, GoogleQuotaViolation, ErrorAnalysis, key_is_invalid,
  key_on_cooldown, user_error, transient_server_error, request_timeout, unknown, retry_info,
  error_info, quota_failure, analyze_detail, analyze_details, analyze_google_error, any_invalid,
  is_invalid_detail, key_is_invalid_from_error, GoogleJson, array_first, object_first,
  analyze_provider_error,
}

-- `matches!(analysis, KeyOnCooldown { .. } | KeyIsInvalid)`: the fault is the key's.
abbrev pub is_key_fault : ErrorAnalysis → Bool
is_key_fault key_is_invalid = true
is_key_fault (key_on_cooldown n) = true
is_key_fault user_error = false
is_key_fault transient_server_error = false
is_key_fault request_timeout = false
is_key_fault unknown = false

quota_failure-key_fault :
    (vs : List GoogleQuotaViolation) (a : ErrorAnalysis)
    → quota_failure vs ≡ some a
    → is_key_fault a ≡ true
unfolding quota_failure
quota_failure-key_fault [] a e = cc
quota_failure-key_fault (v ∷ vs) a e = ground (arith, quota_failure-key_fault vs a)

analyze_detail-key_fault :
    (d : GoogleErrorDetail) (a : ErrorAnalysis) → analyze_detail d ≡ some a → is_key_fault a ≡ true
unfolding analyze_detail retry_info error_info
analyze_detail-key_fault d a e = ground (arith, quota_failure-key_fault d.violations a)

analyze_details-key_fault :
    (ds : List GoogleErrorDetail) (message : String)
    → is_key_fault (analyze_details ds message) ≡ true
unfolding analyze_details
analyze_details-key_fault [] message = ground arith
analyze_details-key_fault (d ∷ ds) message = elim (Option-cases (analyze_detail d)) [
  | inl e ↦ ground (arith, analyze_details-key_fault ds message)
  | inr (a, e) ↦ ground (arith, analyze_detail-key_fault d a e)
]

quota_failure-ne-invalid : (vs : List GoogleQuotaViolation) → quota_failure vs ≢ some key_is_invalid
unfolding quota_failure
quota_failure-ne-invalid [] = ground arith
quota_failure-ne-invalid (v ∷ vs) = ground (arith, quota_failure-ne-invalid vs)

analyze_detail-invalid :
    (d : GoogleErrorDetail) → analyze_detail d ≡ some key_is_invalid → is_invalid_detail d ≡ true
unfolding analyze_detail retry_info error_info
analyze_detail-invalid d e = ground (arith, quota_failure-ne-invalid d.violations)

analyze_details-invalid :
    (ds : List GoogleErrorDetail) (message : String)
    → analyze_details ds message ≡ key_is_invalid
    → any_invalid ds ≡ true
unfolding analyze_details any_invalid
analyze_details-invalid [] message e = ground arith
analyze_details-invalid (d ∷ ds) message e =
    ground (arith, analyze_detail-invalid d, analyze_details-invalid ds message)

-- When the analysis of a Google error blocks the key, `key_is_invalid_from_error`, which is asked on
-- a 400, finds the key invalid in the same error.
pub analyze_google_error-invalid :
    (r : GoogleErrorResponse)
    → analyze_google_error r ≡ key_is_invalid
    → key_is_invalid_from_error r ≡ true
unfolding analyze_google_error key_is_invalid_from_error
analyze_google_error-invalid r e = analyze_details-invalid r.error.details r.error.message e

-- The statuses on which the key is at fault; `reported` is asked on a 400 alone.
abbrev pub KeyFaultStatus : ℕ → Bool → Type 0
KeyFaultStatus status named =
    (status ≡ 401)
    ⊎ (status ≡ 403)
    ⊎ (status ≡ 429)
    ⊎ (status ≡ 503)
    ⊎ ((status ≡ 400) × (named ≡ true))

abbrev pub TransientStatus : ℕ → Type 0
TransientStatus status = (status ≡ 500) ⊎ (status ≡ 502) ⊎ (status ≡ 504)

module _ (json : GoogleJson) (provider : String) (status : ℕ) (body : String) where
  abbrev pub outcome : ErrorAnalysis
  outcome = analyze_provider_error json provider status body

  -- The body is Google's, and names an invalid key.
  abbrev pub reported : Bool
  reported = str_eq provider "google-ai-studio" && key_is_invalid_from_error (array_first json body)

  abbrev pub google_outcome : ErrorAnalysis
  google_outcome = analyze_google_error (object_first json body)

  google-key_fault : is_key_fault google_outcome ≡ true
  unfolding analyze_google_error
  google-key_fault =
      let r : GoogleErrorResponse = object_first json body in
      analyze_details-key_fault r.error.details r.error.message

  key_fault_iff : (is_key_fault outcome ≡ true) ↔ KeyFaultStatus status reported
  unfolding analyze_provider_error
  key_fault_iff = (λ h. ground (arith, google-key_fault), λ h. ground (arith, google-key_fault))

  user_error_iff : (outcome ≡ user_error) ↔ ((status ≡ 400) × (reported ≡ false))
  unfolding analyze_provider_error
  user_error_iff = (λ h. ground (arith, google-key_fault), λ h. ground (arith, google-key_fault))

  pub transient_iff : (outcome ≡ transient_server_error) ↔ TransientStatus status
  unfolding analyze_provider_error
  transient_iff = (λ h. ground (arith, google-key_fault), λ h. ground (arith, google-key_fault))

  -- How an error of the provider is classed. The key is at fault exactly on the statuses 401, 403, 429
  -- and 503, and on a 400 from Google that names an invalid key; the answer goes back to the client at
  -- once exactly on a 400 that names none; the same key is asked again exactly on 500, 502 and 504.
  pub analyze_provider_error-classes :
      ((is_key_fault outcome ≡ true) ↔ KeyFaultStatus status reported)
      × ((outcome ≡ user_error) ↔ ((status ≡ 400) × (reported ≡ false)))
      × ((outcome ≡ transient_server_error) ↔ TransientStatus status)
  analyze_provider_error-classes = (key_fault_iff, user_error_iff, transient_iff)
