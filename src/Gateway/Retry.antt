-- ===== src/Gateway/Retry.antt =====
-- execute_request_with_retry of handlers.rs: one key, up to `max_attempts` requests.
pub mod Rounds
pub mod Outcome
use Prim.Native.String
use thebalance.Prelude.{
  ℕ, zero, suc, ◌+◌, ◌*◌, ◌^◌, ◌%◌, String, Bool, true, false, ◌&&◌, Option, none, some, List, [],
  ◌∷◌, ◌==◌, ltb, if◌then◌else◌,
}
use thebalance.Prelude.Result.{Result, ok, err}
use thebalance.Prelude.Text.{decimal}
use thebalance.Errors.{
  ErrorAnalysis, key_is_invalid, key_on_cooldown, user_error, transient_server_error,
  request_timeout, unknown, GoogleJson, analyze_provider_error,
}

-- Reading the body may fail, with an error of the worker.
pub record Response : Type 0 where
  pub status : ℕ
  pub body : Result String String

pub data RequestResult : Type 0 where
  success : Response → RequestResult
  failure : ErrorAnalysis → String → ℕ → RequestResult

-- How one attempt ends: an answer, an error of the network, the timeout, which won the race against
-- the fetch, or an error of `req.clone()?` or `url()?`, with which no request is made.
pub data FetchOutcome : Type 0 where
  not_made : String → FetchOutcome
  answered : Response → FetchOutcome
  network_error : String → FetchOutcome
  timed_out : FetchOutcome

-- What a call returns, and the pauses that it made in between, in milliseconds.
pub record Executed : Type 0 where
  pub result : Result String RequestResult
  pub delays : List ℕ

unfoldable pub timeout_message : ℕ → String
unfolding decimal
timeout_message timeout_ms =
    String.◌++◌ "Provider request timed out after " (String.◌++◌ (decimal timeout_ms) "ms")

abbrev is_transient : ErrorAnalysis → Bool
is_transient transient_server_error = true
is_transient _ = false

-- `100 * 2_u64.pow(retry_attempt + 1)` and a jitter below 100, behind the increment; each step wraps.
unfoldable pub delay_millis : ℕ → ℕ → ℕ
delay_millis retry_attempt random =
    let delay = (100 * (2 ^ (retry_attempt + 1) % 2 ^ 64)) % 2 ^ 64 in
    (delay + random % 100) % 2 ^ 64

abbrev finished : RequestResult → Option Executed
finished r = some (record { result = ok r; delays = [] })

abbrev add_delay : ℕ → Option Executed → Option Executed
add_delay d none = none
add_delay d (some e) = some (record e { delays = d ∷ e.delays })

-- What an error answer comes to, once its body is read.
abbrev judge_answer :
    GoogleJson → String → Bool → ℕ → Result String String → Option Executed → Option Executed
judge_answer google provider may_retry status (err e) next =
    some (record { result = err e; delays = [] })
judge_answer google provider may_retry status (ok body) next =
    let analysis = analyze_provider_error google provider status body in
    if is_transient analysis && may_retry then next else finished (failure analysis body status)

-- One round: either the loop returns, or it pauses and goes on with `next`.
unfoldable pub round :
    GoogleJson → String → ℕ → Bool → FetchOutcome → Option Executed → Option Executed
round google provider timeout_ms may_retry (not_made e) next =
    some (record { result = err e; delays = [] })
round google provider timeout_ms may_retry timed_out next =
    finished (failure request_timeout (timeout_message timeout_ms) 504)
round google provider timeout_ms may_retry (network_error e) next =
    if may_retry then next else finished (failure transient_server_error e 504)
round google provider timeout_ms may_retry (answered resp) next =
    if resp.status == 200
    then finished (success resp)
    else judge_answer google provider may_retry resp.status resp.body next

-- `fetch n` is how the n-th attempt ends, `random n` the n-th random number.
module _ (google : GoogleJson) (provider : String) (max_attempts timeout_ms : ℕ)
    (fetch : ℕ → FetchOutcome) (random : ℕ → ℕ) where
  -- `none`: out of fuel.
  unfoldable pub retry_loop : ℕ → ℕ → Option Executed
  unfolding round delay_millis
  retry_loop zero retry_attempt = none
  retry_loop (suc fuel) retry_attempt =
      let next =
        add_delay (delay_millis (suc retry_attempt) (random retry_attempt))
          (retry_loop fuel (suc retry_attempt)) in
      round google provider timeout_ms (ltb (retry_attempt + 1) max_attempts) (fetch retry_attempt)
        next

  unfoldable pub execute_request_with_retry : Option Executed
  unfolding retry_loop
  execute_request_with_retry = retry_loop (suc max_attempts) 0
