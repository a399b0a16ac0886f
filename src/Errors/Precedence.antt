-- ===== src/Errors/Precedence.antt =====
-- analyze_google_error: which detail of an error decides.
use thebalance.Prelude.{
  ℕ, ◌+◌, ◌-◌, ◌^◌, ◌<◌, String, true, ◌&&◌, ◌≡◌, refl, ap, ◌∙◌, none, some, List, [], ◌∷◌, ◌++◌,
  arith, All, if◌then◌else◌,
}
use thebalance.Prelude.Int.{add_u64}
use thebalance.Prelude.Text.{contains, lower_contains, trim_end_matches, parse_u64}
use thebalance.Errors.{
  GoogleErrorResponse, GoogleErrorDetail, GoogleQuotaViolation, ErrorAnalysis, key_is_invalid,
  key_on_cooldown, is_per_day, quota_failure, retry_info, error_info, analyze_detail,
  analyze_message, analyze_details, analyze_google_error,
}

-- The first detail that says something decides, whatever follows it.
analyze_details-first :
    (before after : List GoogleErrorDetail) (d : GoogleErrorDetail) (message : String)
    (a : ErrorAnalysis)
    → All (λ x. analyze_detail x ≡ none) before
    → analyze_detail d ≡ some a
    → analyze_details (before ++ d ∷ after) message ≡ a
unfolding analyze_details
analyze_details-first [] after d message a h e = ground arith
analyze_details-first (x ∷ before) after d message a h e =
    ground (arith, analyze_details-first before after d message a h.1 e)

-- If no detail says anything, the message decides between the daily and the short cooldown.
analyze_details-silent :
    (ds : List GoogleErrorDetail) (message : String)
    → All (λ x. analyze_detail x ≡ none) ds
    → analyze_details ds message ≡ analyze_message message
unfolding analyze_details
analyze_details-silent [] message h = ground arith
analyze_details-silent (x ∷ ds) message h = ground (arith, analyze_details-silent ds message h.1)

-- What a detail says, by its type.
pub data Says : GoogleErrorDetail → ErrorAnalysis → Type 0 where
  says_retry :
      (d : GoogleErrorDetail) (delay : String) (seconds : ℕ)
      → d.type_url ≡ "type.googleapis.com/google.rpc.RetryInfo"
      → d.retry_delay ≡ some delay
      → parse_u64 (trim_end_matches delay b's') ≡ some seconds
      → seconds < 2 ^ 64 - 5
      → Says d (key_on_cooldown (seconds + 5))
  says_invalid :
      (d : GoogleErrorDetail)
      → d.type_url ≡ "type.googleapis.com/google.rpc.ErrorInfo"
      → d.reason ≡ some "API_KEY_INVALID"
      → Says d key_is_invalid
  says_limit :
      (d : GoogleErrorDetail)
      → d.type_url ≡ "type.googleapis.com/google.rpc.ErrorInfo"
      → d.reason ≡ some "RATE_LIMIT_EXCEEDED"
      → Says d (key_on_cooldown 65)
  says_daily :
      (d : GoogleErrorDetail) (vs vs' : List GoogleQuotaViolation) (v : GoogleQuotaViolation)
      (quota_id : String)
      → d.type_url ≡ "type.googleapis.com/google.rpc.QuotaFailure"
      → d.violations ≡ vs ++ v ∷ vs'
      → v.quota_id ≡ some quota_id
      → contains quota_id "PerDay" ≡ true
      → Says d (key_on_cooldown 86400)

quota_failure-found :
    (vs vs' : List GoogleQuotaViolation) (v : GoogleQuotaViolation) (quota_id : String)
    → v.quota_id ≡ some quota_id
    → contains quota_id "PerDay" ≡ true
    → quota_failure (vs ++ v ∷ vs') ≡ some (key_on_cooldown 86400)
unfolding quota_failure is_per_day
quota_failure-found [] vs' v quota_id e per_day = rw (e, per_day) refl
quota_failure-found (x ∷ vs) vs' v quota_id e per_day =
    rw (quota_failure-found vs vs' v quota_id e per_day) (ground arith)

analyze_detail-Says :
    (d : GoogleErrorDetail) (a : ErrorAnalysis) → Says d a → analyze_detail d ≡ some a
unfolding analyze_detail retry_info error_info add_u64
analyze_detail-Says _ _ (says_retry d delay seconds t e p small) =
    rw (t, e, p) (ap (λ n. some (key_on_cooldown n)) (omega (arith, small)))
analyze_detail-Says _ _ (says_invalid d t e) = rw (t, e) refl
analyze_detail-Says _ _ (says_limit d t e) = rw (t, e) refl
analyze_detail-Says _ _ (says_daily d vs vs' v quota_id t e q per_day) =
    rw (t, e) (quota_failure-found vs vs' v quota_id q per_day)

pub analyze_google_error-first :
    (r : GoogleErrorResponse) (before after : List GoogleErrorDetail) (d : GoogleErrorDetail)
    (a : ErrorAnalysis)
    → All (λ x. analyze_detail x ≡ none) before
    → (r.error.details ≡ before ++ d ∷ after → Says d a → analyze_google_error r ≡ a)
      × (r.error.details ≡ before
          → analyze_google_error r ≡ (
              if lower_contains r.error.message "quota" && lower_contains r.error.message "day"
              then key_on_cooldown 86400
              else key_on_cooldown 65))
unfolding analyze_google_error
analyze_google_error-first r before after d a silent = (
  λ e says.
      ap (λ ds. analyze_details ds r.error.message) e
      ∙ analyze_details-first before after d r.error.message a silent
          (analyze_detail-Says d a says),
  λ e.
      ap (λ ds. analyze_details ds r.error.message) e
      ∙ analyze_details-silent before r.error.message silent,
)
