-- ===== src/Errors/Tests.antt =====
-- Runs and instances for error_handling.rs.
use thebalance.Prelude.{ℕ, ◌≡◌, ◌↔◌, refl, true, false, none, some, [], ◌∷◌, arith}
use thebalance.Prelude.Text.{parse_u64, trim_end_matches}
use thebalance.Errors.{
  GoogleErrorDetail, GoogleErrorResponse, GoogleJson, key_on_cooldown, user_error,
  transient_server_error, analyze_detail, analyze_google_error,
}
use thebalance.Errors.Precedence.{Says, says_retry, analyze_google_error-first}
use thebalance.Errors.Classes.{
  is_key_fault, outcome, reported, analyze_provider_error-classes, KeyFaultStatus, TransientStatus,
}

abbrev retry_after : GoogleErrorDetail
retry_after = record {
  type_url = "type.googleapis.com/google.rpc.RetryInfo";
  violations = [];
  retry_delay = some "34s";
  reason = none;
}

abbrev invalid_key : GoogleErrorDetail
invalid_key = record {
  type_url = "type.googleapis.com/google.rpc.ErrorInfo";
  violations = [];
  retry_delay = none;
  reason = some "API_KEY_INVALID";
}

abbrev help_links : GoogleErrorDetail
help_links = record {
  type_url = "type.googleapis.com/google.rpc.Help";
  violations = [];
  retry_delay = none;
  reason = none;
}

abbrev invalid_response : GoogleErrorResponse
invalid_response = record {
  error = record {
    code = 400;
    message = "API key not valid";
    status = "INVALID_ARGUMENT";
    details = help_links ∷ invalid_key ∷ [];
  };
}

-- A parser that knows one text.
abbrev one_text : GoogleJson
one_text = record { parse_one = λ text. none; parse_many = λ text. some (invalid_response ∷ []) }

abbrev limited : GoogleErrorResponse
limited = record {
  error = record {
    code = 429;
    message = "quota of the day";
    status = "RESOURCE_EXHAUSTED";
    details = help_links ∷ retry_after ∷ invalid_key ∷ [];
  };
}

retry_after-Says : Says retry_after (key_on_cooldown 39)
unfolding parse_u64 trim_end_matches
retry_after-Says = says_retry retry_after "34s" 34 refl refl refl (omega arith)

limited_39 : analyze_google_error limited ≡ key_on_cooldown 39
unfolding analyze_detail
limited_39 =
    (analyze_google_error-first limited (help_links ∷ []) (invalid_key ∷ []) retry_after
        (key_on_cooldown 39) (refl, tt)).0
      refl retry_after-Says

analyze_provider_error-classes_example :
    ((is_key_fault (outcome one_text "google-ai-studio" 400 "[]") ≡ true)
      ↔ KeyFaultStatus 400 (reported one_text "google-ai-studio" 400 "[]"))
    × ((outcome one_text "google-ai-studio" 400 "[]" ≡ user_error)
        ↔ (◌≡◌ {A = ℕ} 400 400 × (reported one_text "google-ai-studio" 400 "[]" ≡ false)))
    × ((outcome one_text "google-ai-studio" 400 "[]" ≡ transient_server_error)
        ↔ TransientStatus 400)
analyze_provider_error-classes_example =
    analyze_provider_error-classes one_text "google-ai-studio" 400 "[]"
