-- ===== src/Gateway/Retry/Rounds.antt =====
-- One round of execute_request_with_retry: when it goes on, and what it comes to if it does not.
use thebalance.Prelude.{
  ℕ, ◌≡◌, refl, String, Bool, true, false, ◌&&◌, ◌||◌, Option, some, [], ◌==◌, if◌then◌else◌, arith,
}
use thebalance.Prelude.Result.{Result, ok, err}
use thebalance.Errors.{transient_server_error, request_timeout, GoogleJson, analyze_provider_error}
use thebalance.Errors.Classes.{transient_iff}
use thebalance.Gateway.Retry.{
  RequestResult, success, failure, FetchOutcome, not_made, answered, network_error, timed_out,
  Executed, timeout_message, is_transient, judge_answer, round,
}

abbrev is_ok : {E A : Type 0} → Result E A → Bool
is_ok (ok a) = true
is_ok (err e) = false

-- The requests that the same key may repeat: an error of the network, or a readable 500, 502 or 504.
abbrev pub is_retryable : FetchOutcome → Bool
is_retryable (not_made e) = false
is_retryable timed_out = false
is_retryable (network_error e) = true
is_retryable (answered r) = is_ok r.body && (r.status == 500 || r.status == 502 || r.status == 504)

module _ (google : GoogleJson) (provider : String) (timeout_ms : ℕ) where
  abbrev failed_answer : ℕ → Result String String → Result String RequestResult
  failed_answer status (err e) = err e
  failed_answer status (ok body) =
      ok (failure (analyze_provider_error google provider status body) body status)

  -- What a request comes to if it is the last one.
  abbrev pub conclusion : FetchOutcome → Result String RequestResult
  conclusion (not_made e) = err e
  conclusion timed_out = ok (failure request_timeout (timeout_message timeout_ms) 504)
  conclusion (network_error e) = ok (failure transient_server_error e 504)
  conclusion (answered r) =
      if r.status == 200 then ok (success r) else failed_answer r.status r.body

  transient_test :
      (status : ℕ) (body : String)
      → is_transient (analyze_provider_error google provider status body)
        ≡ (status == 500 || status == 502 || status == 504)
  transient_test status body = ground (
    arith,
    (transient_iff google provider status body).0,
    (transient_iff google provider status body).1,
  )

  judge_retry :
      (status : ℕ) (body : Result String String) (next : Option Executed)
      → (is_ok body && (status == 500 || status == 502 || status == 504)) ≡ true
      → judge_answer google provider true status body next ≡ next
  judge_retry status (ok body) next h = ground (arith, transient_test status body)
  judge_retry status (err e) next h = cc

  pub round_retry :
      (o : FetchOutcome) (next : Option Executed)
      → is_retryable o ≡ true
      → round google provider timeout_ms true o next ≡ next
  unfolding round
  round_retry (not_made e) next h = cc
  round_retry timed_out next h = cc
  round_retry (network_error e) next h = refl
  round_retry (answered r) next h = ground (arith, judge_retry r.status r.body next)

  judge_done :
      (status : ℕ) (body : Result String String) (may_retry : Bool) (next : Option Executed)
      → (is_ok body && (status == 500 || status == 502 || status == 504) && may_retry) ≡ false
      → judge_answer google provider may_retry status body next
        ≡ some (record { result = failed_answer status body; delays = [] })
  judge_done status (ok body) may_retry next h = ground (arith, transient_test status body)
  judge_done status (err e) may_retry next h = refl

  pub round_done :
      (o : FetchOutcome) (may_retry : Bool) (next : Option Executed)
      → (is_retryable o && may_retry) ≡ false
      → round google provider timeout_ms may_retry o next
        ≡ some (record { result = conclusion o; delays = [] })
  unfolding round
  round_done (not_made e) may_retry next h = refl
  round_done timed_out may_retry next h = refl
  round_done (network_error e) may_retry next h = ground arith
  round_done (answered r) may_retry next h =
      ground (arith, judge_done r.status r.body may_retry next)
