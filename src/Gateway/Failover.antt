-- ===== src/Gateway/Failover.antt =====
-- Steps 3 to 7 of forward in handlers.rs: the failover loop over the sorted keys.
pub mod Timeouts
pub mod Winner
pub mod Justified
use thebalance.Prelude.{
  ℕ, suc, ◌+◌, ◌-◌, String, Bool, true, false, Option, none, some, List, [], ◌∷◌, ◌++◌, ◌==◌, ltb,
  min, if◌then◌else◌,
}
use thebalance.Prelude.Int.{ℤ}
use thebalance.Prelude.Result.{Result, ok, err, ◌>>=◌}
use thebalance.Errors.{
  ErrorAnalysis, key_is_invalid, key_on_cooldown, user_error, transient_server_error,
  request_timeout, unknown, GoogleJson,
}
use thebalance.Translate.{
  GeminiEmbeddingsResponse, OpenAiEmbeddingsResponse, GeminiChatResponse,
  OpenAiChatCompletionResponse, translate_embeddings_response, translate_chat_response,
}
use thebalance.Storage.Model.{ApiKey, get_cooldown_end}
use thebalance.Gateway.Retry.{
  Response, RequestResult, success, failure, FetchOutcome, Executed, execute_request_with_retry,
}
use thebalance.Gateway.Target.{Outgoing, Translation, embeddings, chat, passthrough}

-- What the client gets. `worker_error` is the answer 500 of an error that `?` passed up.
pub data Reply (F : Type 0) : Type 0 where
  upstream : Response → Reply F
  raw : String → ℕ → Reply F
  openai_error : String → String → String → ℕ → Reply F
  embeddings_json : OpenAiEmbeddingsResponse F → Reply F
  chat_json : OpenAiChatCompletionResponse → Reply F
  worker_error : String → Reply F

-- What the loop does besides: the penalty box at once, the rest by `wait_until`.
pub data Effect : Type 0 where
  flag : String → ℕ → Effect
  metrics : String → Bool → ℤ → Effect
  block : String → Effect
  cool : String → String → ℕ → Effect

-- `serde_json` on the answers; `none` is an error.
pub record AnswerJson (F : Type 0) : Type 0 where
  pub parse_embeddings : String → Option (GeminiEmbeddingsResponse F)
  pub parse_chat : String → Option GeminiChatResponse

-- What one round of the loop meets: the time since the start, the clock in seconds, how the requests
-- end, the measured latency, and the random values.
pub record Turn : Type 0 where
  pub elapsed_ms : ℕ
  pub now : ℕ
  pub latency : ℤ
  pub fetch : Outgoing → ℕ → FetchOutcome
  pub random : ℕ → ℕ
  pub request_id : String
  pub chat_id : String

-- The timeout of the next attempt; `none` stops the loop.
unfoldable pub attempt_timeout : ℕ → ℕ → ℕ → Option ℕ
attempt_timeout overall_timeout_ms target_timeout_ms elapsed_ms =
    let remaining_ms = overall_timeout_ms - elapsed_ms in
    if ltb remaining_ms 500
    then none
    else (let attempt_timeout_ms = min target_timeout_ms (remaining_ms - 500) in
        if attempt_timeout_ms == 0 then none else some attempt_timeout_ms)

abbrev before_end : ℕ → Option ℕ → Bool
before_end now none = false
before_end now (some cooldown_end) = ltb now cooldown_end

-- The key is on cooldown for the model, and is skipped.
unfoldable pub is_skipped : ApiKey → String → ℕ → Bool
unfolding get_cooldown_end
is_skipped k model_name now = before_end now (get_cooldown_end k model_name)

-- `last_error_body`, `last_error_status` and `last_error_was_cooldown`.
pub record LastError : Type 0 where
  pub body : String
  pub status : ℕ
  pub was_cooldown : Bool

abbrev pub no_error : LastError
no_error = record {
  body = "No active keys were available or all attempts failed.";
  status = 503;
  was_cooldown = false;
}

abbrev is_cooldown : ErrorAnalysis → Bool
is_cooldown (key_on_cooldown n) = true
is_cooldown key_is_invalid = false
is_cooldown user_error = false
is_cooldown transient_server_error = false
is_cooldown request_timeout = false
is_cooldown unknown = false

-- The state updates of a failed attempt.
unfoldable pub failure_effects : ApiKey → String → ℤ → ErrorAnalysis → List Effect
failure_effects k model_name latency key_is_invalid =
    metrics k.id false latency ∷ flag k.id 300 ∷ block k.id ∷ []
failure_effects k model_name latency (key_on_cooldown seconds) =
    metrics k.id false latency ∷ flag k.id seconds ∷ cool k.id model_name seconds ∷ []
failure_effects k model_name latency user_error = metrics k.id false latency ∷ []
failure_effects k model_name latency transient_server_error = metrics k.id false latency ∷ []
failure_effects k model_name latency request_timeout = metrics k.id false latency ∷ []
failure_effects k model_name latency unknown = metrics k.id false latency ∷ []

-- Step 7: the loop found no key that succeeds.
unfoldable pub exhausted : {F : Type 0} → LastError → Reply F
exhausted last =
    if last.was_cooldown
    then raw last.body last.status
    else openai_error last.body "server_error" "all_keys_failed" last.status

module _ {F : Type 0} (json : AnswerJson F) where
  abbrev or_parse_error : {A : Type 0} → Option A → Result String A
  or_parse_error none = err "malformed response"
  or_parse_error (some a) = ok a

  abbrev chat_reply : String → String → ℕ → Response → String → Option GeminiChatResponse → Reply F
  chat_reply model_name chat_id now resp text none = raw text resp.status
  chat_reply model_name chat_id now resp text (some gemini_resp) =
      chat_json (translate_chat_response gemini_resp model_name chat_id now)

  -- The answer to a successful request, translated if the request was.
  unfoldable pub translate_reply :
      Translation → String → String → ℕ → Response → Result String (Reply F)
  translate_reply passthrough model_name chat_id now resp = ok (upstream resp)
  translate_reply embeddings model_name chat_id now resp = do
    text ← resp.body
    gemini_resp ← or_parse_error (json.parse_embeddings text)
    ok (embeddings_json (translate_embeddings_response gemini_resp model_name))
  translate_reply chat model_name chat_id now resp = do
    text ← resp.body
    ok (chat_reply model_name chat_id now resp text (json.parse_chat text))

abbrev pub or_worker_error : {F : Type 0} → Result String (Reply F) → Reply F
or_worker_error (ok r) = r
or_worker_error (err e) = worker_error e

-- The reply, with what was done on the way.
abbrev pub Forwarded : Type 0 → Type 0
Forwarded F = Reply F × List Effect

abbrev pub and_first : {F : Type 0} → List Effect → Forwarded F → Forwarded F
and_first es (r, rest) = (r, es ++ rest)

-- The rest of the loop, given what an attempt came to; `next` goes on with the next key.
module _ {F : Type 0} (json : AnswerJson F) (model_name : String) (k : ApiKey) (t : Turn) where
  unfoldable pub conclude : Translation → RequestResult → (LastError → Forwarded F) → Forwarded F
  unfolding translate_reply failure_effects
  conclude translation (success resp) next = (
    or_worker_error (translate_reply json translation model_name t.chat_id t.now resp),
    metrics k.id true t.latency ∷ [],
  )
  conclude translation (failure user_error body status) next =
      (raw body status, failure_effects k model_name t.latency user_error)
  conclude translation (failure analysis body status) next =
      and_first (failure_effects k model_name t.latency analysis)
        (next (record { body = body; status = status; was_cooldown = is_cooldown analysis }))

  abbrev conclude_executed : Translation → Option Executed → (LastError → Forwarded F) → Forwarded F
  conclude_executed translation none next = (worker_error "out of fuel", [])
  conclude_executed translation (some e) next = elim e.result [
    | ok r ↦ conclude translation r next
    | err x ↦ (worker_error x, [])
  ]

-- `build key id` is step 4, the request for a key.
module _ {F : Type 0} (google : GoogleJson) (json : AnswerJson F)
    (build : String → String → Result String (Outgoing × Translation))
    (provider model_name : String) (overall_timeout_ms target_timeout_ms : ℕ)
    (turn : ℕ → Turn) where
  -- One attempt: build, send, and judge the result.
  unfoldable pub attempt : ApiKey → Turn → ℕ → (LastError → Forwarded F) → Forwarded F
  unfolding execute_request_with_retry conclude
  attempt k t timeout_ms next = elim (build k.key t.request_id) [
    | err x ↦ (worker_error x, [])
    | ok (out, translation) ↦
        conclude_executed json model_name k t translation
          (execute_request_with_retry google provider 3 timeout_ms (t.fetch out) t.random) next
  ]

  abbrev timed_attempt :
      ApiKey → Turn → Option ℕ → LastError → (LastError → Forwarded F) → Forwarded F
  timed_attempt k t none last next = (exhausted last, [])
  timed_attempt k t (some timeout_ms) last next =
      if is_skipped k model_name t.now then next last else attempt k t timeout_ms next

  unfoldable pub failover : List ApiKey → ℕ → LastError → Forwarded F
  unfolding attempt attempt_timeout is_skipped exhausted
  failover [] n last = (exhausted last, [])
  failover (k ∷ ks) n last =
      timed_attempt k (turn n)
        (attempt_timeout overall_timeout_ms target_timeout_ms (turn n).elapsed_ms) last
        (failover ks (suc n))
