-- ===== src/Gateway/Tests.antt =====
-- Runs and instances for the request path.
use thebalance.Storage.Samples.{no_parser}
use thebalance.Prelude.{
  ℕ, ◌+◌, ◌*◌, ◌≤◌, ◌<◌, ◌≡◌, refl, inr, max, String, true, false, none, List, [], ◌∷◌, All, arith,
  ◌==◌, str_eq, if◌then◌else◌,
}
use thebalance.Prelude.Int.{pos}
use thebalance.Prelude.Assoc.{lookup}
use thebalance.Prelude.Result.{Result, ok}
use thebalance.Errors.{key_is_invalid, user_error, analyze_provider_error}
use thebalance.Storage.Model.{ApiKey, active, get_cooldown_end}
use thebalance.Gateway.Retry.{
  RequestResult, success, failure, FetchOutcome, answered, execute_request_with_retry,
}
use thebalance.Gateway.Retry.Rounds.{is_retryable}
use thebalance.Gateway.Retry.Outcome.{
  Returns, Settles, execute_request_with_retry-first, execute_request_with_retry-Returns,
}
use thebalance.Gateway.Target.{Outgoing, Translation, passthrough}
use thebalance.Gateway.Failover.{
  Reply, raw, openai_error, upstream, Effect, metrics, flag, block, AnswerJson, Turn, LastError,
  no_error, attempt_timeout, is_skipped, failover, translate_reply, failure_effects,
}
use thebalance.Gateway.Failover.Winner.{
  Attempted, Passes, start, fail, failover-success, failover-user_error, failover-exhausted,
}
use thebalance.Gateway.Failover.Justified.{Cause, failover-Cause}
use thebalance.Gateway.Failover.Timeouts.{attempt_timeout_bounds}

abbrev no_answers : AnswerJson ℕ
no_answers = record { parse_embeddings = λ text. none; parse_chat = λ text. none }

abbrev key_of : String → String → ApiKey
key_of id secret = record {
  id = id;
  key = secret;
  provider = "openai";
  status = active;
  model_coolings = [];
  total_cooling_seconds = 0;
  created_at = 1700000000;
  updated_at = 1700000000;
  latency_ms = pos 120;
  success_rate = pos 1000;
  consecutive_failures = pos 0;
  last_checked_at = 0;
  last_succeeded_at = 0;
}

abbrev answer_of : ℕ → String → FetchOutcome
answer_of status text = answered (record { status = status; body = ok text })

-- The key `revoked` is refused, the key `picky` finds the request malformed, and all others work.
abbrev reaction : Outgoing → ℕ → FetchOutcome
reaction out n =
    if str_eq out.body "revoked"
    then answer_of 401 "no"
    else if str_eq out.body "picky"
    then answer_of 400 "what"
    else answer_of 200 "hello"

abbrev turns : ℕ → Turn
turns n = record {
  elapsed_ms = n * 1000;
  now = 1700000100 + n;
  latency = pos 80;
  fetch = reaction;
  random = λ i. 7;
  request_id = "r";
  chat_id = "c";
}

abbrev out_for : String → Outgoing
out_for secret = record { url = "u"; method = "POST"; headers = []; body = secret }

abbrev builds : String → String → Result String (Outgoing × Translation)
builds secret request_id = ok (out_for secret, passthrough)

abbrev IsAttempted : ApiKey → ℕ → Translation → RequestResult → Type 0
IsAttempted = Attempted no_parser no_answers builds "openai" "gpt" 25000 10000 turns

revoked-IsAttempted :
    IsAttempted (key_of "k1" "revoked") 0 passthrough (failure key_is_invalid "no" 401)
unfolding attempt_timeout is_skipped execute_request_with_retry analyze_provider_error
    get_cooldown_end lookup
revoked-IsAttempted = record {
  timeout = 10000;
  out = out_for "revoked";
  executed = record { result = ok (failure key_is_invalid "no" 401); delays = [] };
  in_time = refl;
  not_skipped = refl;
  built = refl;
  ran = refl;
  came_to = refl;
}

works-IsAttempted :
    IsAttempted
      (key_of "k2" "works")
      1
      passthrough
      (success (record { status = 200; body = ok "hello" }))
unfolding attempt_timeout is_skipped execute_request_with_retry get_cooldown_end lookup
works-IsAttempted = record {
  timeout = 10000;
  out = out_for "works";
  executed = record {
    result = ok (success (record { status = 200; body = ok "hello" }));
    delays = [];
  };
  in_time = refl;
  not_skipped = refl;
  built = refl;
  ran = refl;
  came_to = refl;
}

picky-IsAttempted : IsAttempted (key_of "k3" "picky") 1 passthrough (failure user_error "what" 400)
unfolding attempt_timeout is_skipped execute_request_with_retry analyze_provider_error
    get_cooldown_end lookup
picky-IsAttempted = record {
  timeout = 10000;
  out = out_for "picky";
  executed = record { result = ok (failure user_error "what" 400); delays = [] };
  in_time = refl;
  not_skipped = refl;
  built = refl;
  ran = refl;
  came_to = refl;
}

abbrev after_revoked : LastError
after_revoked = record { body = "no"; status = 401; was_cooldown = false }

abbrev revoked_effects : List Effect
revoked_effects = metrics "k1" false (pos 80) ∷ flag "k1" 300 ∷ block "k1" ∷ []

Passes-revoked :
    Passes no_parser no_answers builds "openai" "gpt" 25000 10000 turns
      (key_of "k1" "revoked" ∷ [])
      0
      no_error
      1
      after_revoked
      revoked_effects
unfolding failure_effects
Passes-revoked =
    fail (key_of "k1" "revoked") [] 0 1 no_error after_revoked [] passthrough key_is_invalid "no"
      401 revoked-IsAttempted (λ e. cc) (start 1 after_revoked)

abbrev run : List ApiKey → Reply ℕ × List Effect
run keys = failover no_parser no_answers builds "openai" "gpt" 25000 10000 turns keys 0 no_error

failover-success_example :
    run (key_of "k1" "revoked" ∷ key_of "k2" "works" ∷ key_of "k3" "picky" ∷ []) ≡ (
      upstream (record { status = 200; body = ok "hello" }),
      metrics "k1" false (pos 80) ∷ flag "k1" 300 ∷ block "k1" ∷ metrics "k2" true (pos 80) ∷ [],
    )
unfolding translate_reply
failover-success_example =
    failover-success no_parser no_answers builds "openai" "gpt" 25000 10000 turns
      (key_of "k1" "revoked" ∷ []) (key_of "k3" "picky" ∷ []) (key_of "k2" "works") 0 1 no_error
      after_revoked revoked_effects passthrough (record { status = 200; body = ok "hello" })
      Passes-revoked works-IsAttempted

failover-user_error_example :
    run (key_of "k1" "revoked" ∷ key_of "k3" "picky" ∷ key_of "k2" "works" ∷ []) ≡ (
      raw "what" 400,
      metrics "k1" false (pos 80) ∷ flag "k1" 300 ∷ block "k1" ∷ metrics "k3" false (pos 80) ∷ [],
    )
failover-user_error_example =
    failover-user_error no_parser no_answers builds "openai" "gpt" 25000 10000 turns
      (key_of "k1" "revoked" ∷ []) (key_of "k2" "works" ∷ []) (key_of "k3" "picky") 0 1 no_error
      after_revoked revoked_effects passthrough "what" 400 Passes-revoked picky-IsAttempted

failover-exhausted_example :
    run (key_of "k1" "revoked" ∷ [])
    ≡ (openai_error "no" "server_error" "all_keys_failed" 401, revoked_effects)
failover-exhausted_example =
    failover-exhausted no_parser no_answers builds "openai" "gpt" 25000 10000 turns
      (key_of "k1" "revoked" ∷ []) 0 1 no_error after_revoked revoked_effects Passes-revoked

failover-Cause_example :
    All
      (Cause no_parser no_answers builds "openai" "gpt" 25000 10000 turns)
      (run (key_of "k1" "revoked" ∷ key_of "k2" "works" ∷ [])).1
failover-Cause_example =
    failover-Cause no_parser no_answers builds "openai" "gpt" 25000 10000 turns
      (key_of "k1" "revoked" ∷ key_of "k2" "works" ∷ []) 0 no_error

attempt_timeout_bounds_example : (0 < 3500) × (3500 ≤ 10000) × (21000 + 3500 + 500 ≤ 25000)
unfolding attempt_timeout
attempt_timeout_bounds_example = attempt_timeout_bounds 25000 10000 21000 3500 refl

-- A 502, and then an answer.
abbrev flaky : ℕ → FetchOutcome
flaky n = if n == 0 then answer_of 502 "bad gateway" else answer_of 200 "hello"

flaky_before : (m : ℕ) → m < 1 → is_retryable (flaky m) ≡ true
flaky_before m l = ground arith

flaky-Settles : Settles no_parser "openai" 3 10000 flaky (λ i. 7) 1
unfolding Settles
flaky-Settles = refl

execute_request_with_retry-first_example :
    Returns no_parser "openai" 3 10000 flaky
      (λ i. 7)
      0
      1
      (execute_request_with_retry no_parser "openai" 3 10000 flaky (λ i. 7))
execute_request_with_retry-first_example =
    execute_request_with_retry-first no_parser "openai" 3 10000 flaky (λ i. 7) 1 flaky_before
      flaky-Settles (inr (omega arith)) (omega arith)

execute_request_with_retry-Returns_example :
    (n : ℕ) × (n + 1 ≤ max 1 3)
    × Returns no_parser "openai" 3 10000 flaky
        (λ i. 7)
        0
        n
        (execute_request_with_retry no_parser "openai" 3 10000 flaky (λ i. 7))
execute_request_with_retry-Returns_example =
    execute_request_with_retry-Returns no_parser "openai" 3 10000 flaky (λ i. 7) (omega arith)
