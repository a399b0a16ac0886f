-- ===== src/Errors.antt =====
-- error_handling.rs of crates/theone-balance/src, with the error types of models.rs: what a failed
-- provider answer means for the key that was used. `serde_json` is the parameter `GoogleJson`.
pub mod Precedence
pub mod Classes
mod Tests
use thebalance.Prelude.{
  ℕ, String, Bool, true, false, ◌&&◌, ◌||◌, Option, none, some, List, [], ◌∷◌, ◌==◌, str_eq,
  if◌then◌else◌, last,
}
use thebalance.Prelude.Int.{add_u64}
use thebalance.Prelude.Text.{contains, lower_contains, trim_end_matches, parse_u64}

pub record GoogleQuotaViolation : Type 0 where
  pub subject : String
  pub description : String
  pub quota_id : Option String

pub record GoogleErrorDetail : Type 0 where
  pub type_url : String
  pub violations : List GoogleQuotaViolation
  pub retry_delay : Option String
  pub reason : Option String

pub record GoogleErrorBody : Type 0 where
  pub code : ℕ
  pub message : String
  pub status : String
  pub details : List GoogleErrorDetail

pub record GoogleErrorResponse : Type 0 where
  pub error : GoogleErrorBody

-- `#[derive(Default)]`.
abbrev pub default_response : GoogleErrorResponse
default_response = record { error = record { code = 0; message = ""; status = ""; details = [] } }

abbrev pub default_cooldown_seconds : ℕ
default_cooldown_seconds = 65

abbrev pub daily_cooldown_seconds : ℕ
daily_cooldown_seconds = 86400

pub data ErrorAnalysis : Type 0 where
  key_is_invalid : ErrorAnalysis
  key_on_cooldown : ℕ → ErrorAnalysis
  user_error : ErrorAnalysis
  transient_server_error : ErrorAnalysis
  request_timeout : ErrorAnalysis
  unknown : ErrorAnalysis

abbrev or_default : Option ℕ → ℕ
or_default none = default_cooldown_seconds
or_default (some n) = n

-- The arm for `RetryInfo`: the delay that Google suggests, and five seconds on top.
pub retry_info : Option String → Option ErrorAnalysis
retry_info none = none
retry_info (some delay) =
    some (key_on_cooldown (add_u64 (or_default (parse_u64 (trim_end_matches delay b's'))) 5))

-- The arm for `ErrorInfo`.
pub error_info : Option String → Option ErrorAnalysis
error_info none = none
error_info (some reason) =
    if str_eq reason "API_KEY_INVALID"
    then some key_is_invalid
    else if str_eq reason "RATE_LIMIT_EXCEEDED"
    then some (key_on_cooldown default_cooldown_seconds)
    else none

is_per_day : Option String → Bool
is_per_day none = false
is_per_day (some quota_id) = contains quota_id "PerDay"

-- The arm for `QuotaFailure`: the loop over the violations.
pub quota_failure : List GoogleQuotaViolation → Option ErrorAnalysis
unfolding is_per_day
quota_failure [] = none
quota_failure (v ∷ vs) =
    let rest = quota_failure vs in
    if is_per_day v.quota_id then some (key_on_cooldown daily_cooldown_seconds) else rest

-- One round of the loop over the details: `none` is `continue`.
pub analyze_detail : GoogleErrorDetail → Option ErrorAnalysis
unfolding retry_info error_info quota_failure
analyze_detail d =
    if str_eq d.type_url "type.googleapis.com/google.rpc.RetryInfo"
    then retry_info d.retry_delay
    else if str_eq d.type_url "type.googleapis.com/google.rpc.ErrorInfo"
    then error_info d.reason
    else if str_eq d.type_url "type.googleapis.com/google.rpc.QuotaFailure"
    then quota_failure d.violations
    else none

-- What stands behind the loop.
abbrev pub analyze_message : String → ErrorAnalysis
analyze_message message =
    if lower_contains message "quota" && lower_contains message "day"
    then key_on_cooldown daily_cooldown_seconds
    else key_on_cooldown default_cooldown_seconds

pub analyze_details : List GoogleErrorDetail → String → ErrorAnalysis
analyze_details [] message = analyze_message message
analyze_details (d ∷ ds) message =
    let rest = analyze_details ds message in
    elim (analyze_detail d) [ none ↦ rest | some analysis ↦ analysis ]

unfoldable pub analyze_google_error : GoogleErrorResponse → ErrorAnalysis
unfolding analyze_details analyze_detail
analyze_google_error body = analyze_details body.error.details body.error.message

abbrev is_invalid_reason : Option String → Bool
is_invalid_reason none = false
is_invalid_reason (some reason) = str_eq reason "API_KEY_INVALID"

abbrev is_invalid_detail : GoogleErrorDetail → Bool
is_invalid_detail d =
    str_eq d.type_url "type.googleapis.com/google.rpc.ErrorInfo" && is_invalid_reason d.reason

pub any_invalid : List GoogleErrorDetail → Bool
any_invalid [] = false
any_invalid (d ∷ ds) = is_invalid_detail d || any_invalid ds

unfoldable pub key_is_invalid_from_error : GoogleErrorResponse → Bool
unfolding any_invalid
key_is_invalid_from_error body = any_invalid body.error.details

-- `serde_json::from_str` at the two types that the source asks for: `none` is an error.
pub record GoogleJson : Type 0 where
  pub parse_one : String → Option GoogleErrorResponse
  pub parse_many : String → Option (List GoogleErrorResponse)

abbrev pop : Option (List GoogleErrorResponse) → Option GoogleErrorResponse
pop none = none
pop (some rs) = last rs

abbrev or_else : Option GoogleErrorResponse → Option GoogleErrorResponse → GoogleErrorResponse
or_else (some r) o = r
or_else none (some r) = r
or_else none none = default_response

-- On 400 the array is tried first, on 429 and 503 the single object.
abbrev pub array_first : GoogleJson → String → GoogleErrorResponse
array_first json text = or_else (pop (json.parse_many text)) (json.parse_one text)

abbrev pub object_first : GoogleJson → String → GoogleErrorResponse
object_first json text = or_else (json.parse_one text) (pop (json.parse_many text))

unfoldable pub analyze_provider_error : GoogleJson → String → ℕ → String → ErrorAnalysis
unfolding analyze_google_error key_is_invalid_from_error
analyze_provider_error json provider status body_text =
    if status == 401 || status == 403
    then key_is_invalid
    else if status == 400
    then (if str_eq provider "google-ai-studio"
          && key_is_invalid_from_error (array_first json body_text)
        then key_is_invalid
        else user_error)
    else if status == 429 || status == 503
    then (if str_eq provider "google-ai-studio"
        then analyze_google_error (object_first json body_text)
        else key_on_cooldown default_cooldown_seconds)
    else if status == 500 || status == 502 || status == 504
    then transient_server_error
    else unknown
