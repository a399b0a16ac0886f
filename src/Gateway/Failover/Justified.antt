-- ===== src/Gateway/Failover/Justified.antt =====
-- The failover loop: what it does to a key, and why.
use thebalance.Prelude.{
  ℕ, suc, ◌≡◌, refl, inl, inr, String, true, false, Option, none, some, List, [], ◌∷◌, ◌++◌, All,
  All-append, Bool-cases,
}
use thebalance.Prelude.Int.{ℤ}
use thebalance.Prelude.Result.{Result, ok, err}
use thebalance.Errors.{
  ErrorAnalysis, key_is_invalid, key_on_cooldown, user_error, transient_server_error,
  request_timeout, unknown, GoogleJson,
}
use thebalance.Storage.Model.{ApiKey}
use thebalance.Gateway.Retry.{
  Response, RequestResult, success, failure, Executed, execute_request_with_retry,
}
use thebalance.Gateway.Target.{Outgoing, Translation}
use thebalance.Gateway.Failover.{
  Effect, flag, metrics, block, cool, AnswerJson, Turn, LastError, Forwarded, attempt_timeout,
  is_skipped, is_cooldown, failure_effects, conclude, conclude_executed, attempt, timed_attempt,
  failover,
}
use thebalance.Gateway.Failover.Winner.{Attempted}

module _ {F : Type 0} (google : GoogleJson) (json : AnswerJson F)
    (build : String → String → Result String (Outgoing × Translation))
    (provider model_name : String) (overall_timeout_ms target_timeout_ms : ℕ)
    (turn : ℕ → Turn) where
  -- In some round, the request for the key `id` came to `r`.
  pub record CameTo (id : String) (r : RequestResult) : Type 0 where
    pub key : ApiKey
    pub round_number : ℕ
    pub translation : Translation
    pub attempted :
        Attempted google json build provider model_name overall_timeout_ms target_timeout_ms turn
          key round_number translation r
    pub id_eq : key.id ≡ id

  pub data Cause : Effect → Type 0 where
    blocked_invalid :
        (id body : String) (status : ℕ)
        → CameTo id (failure key_is_invalid body status)
        → Cause (block id)
    flagged_invalid :
        (id body : String) (status : ℕ)
        → CameTo id (failure key_is_invalid body status)
        → Cause (flag id 300)
    flagged_limited :
        (id body : String) (seconds status : ℕ)
        → CameTo id (failure (key_on_cooldown seconds) body status)
        → Cause (flag id seconds)
    cooled_limited :
        (id body : String) (seconds status : ℕ)
        → CameTo id (failure (key_on_cooldown seconds) body status)
        → Cause (cool id model_name seconds)
    measured_success :
        (id : String) (resp : Response) (latency : ℤ)
        → CameTo id (success resp)
        → Cause (metrics id true latency)
    measured_failure :
        (id body : String) (analysis : ErrorAnalysis) (status : ℕ) (latency : ℤ)
        → CameTo id (failure analysis body status)
        → Cause (metrics id false latency)

  failure_effects-Cause :
      (k : ApiKey) (latency : ℤ) (analysis : ErrorAnalysis) (body : String) (status : ℕ)
      → CameTo k.id (failure analysis body status)
      → All Cause (failure_effects k model_name latency analysis)
  unfolding failure_effects
  failure_effects-Cause k latency key_is_invalid body status c = (
    measured_failure k.id body key_is_invalid status latency c,
    (flagged_invalid k.id body status c, (blocked_invalid k.id body status c, tt)),
  )
  failure_effects-Cause k latency (key_on_cooldown seconds) body status c = (
    measured_failure k.id body (key_on_cooldown seconds) status latency c,
    (flagged_limited k.id body seconds status c, (cooled_limited k.id body seconds status c, tt)),
  )
  failure_effects-Cause k latency user_error body status c =
      (measured_failure k.id body user_error status latency c, tt)
  failure_effects-Cause k latency transient_server_error body status c =
      (measured_failure k.id body transient_server_error status latency c, tt)
  failure_effects-Cause k latency request_timeout body status c =
      (measured_failure k.id body request_timeout status latency c, tt)
  failure_effects-Cause k latency unknown body status c =
      (measured_failure k.id body unknown status latency c, tt)

  goes_on-Cause :
      (k : ApiKey) (n : ℕ) (analysis : ErrorAnalysis) (body : String) (status : ℕ)
      (next : LastError → Forwarded F)
      → CameTo k.id (failure analysis body status)
      → ((last : LastError) → All Cause (next last).1)
      → All Cause (
          failure_effects k model_name (turn n).latency analysis
          ++ (next
              (record { body = body; status = status; was_cooldown = is_cooldown analysis })).1)
  goes_on-Cause k n analysis body status next c h =
      All-append Cause (failure_effects k model_name (turn n).latency analysis)
        (next (record { body = body; status = status; was_cooldown = is_cooldown analysis })).1
        (failure_effects-Cause k (turn n).latency analysis body status c) (h _)

  conclude-Cause :
      (k : ApiKey) (n : ℕ) (translation : Translation) (r : RequestResult)
      (next : LastError → Forwarded F)
      → CameTo k.id r
      → ((last : LastError) → All Cause (next last).1)
      → All Cause (conclude json model_name k (turn n) translation r next).1
  unfolding conclude
  conclude-Cause k n translation (success resp) next c h =
      (measured_success k.id resp (turn n).latency c, tt)
  conclude-Cause k n translation (failure user_error body status) next c h =
      failure_effects-Cause k (turn n).latency user_error body status c
  conclude-Cause k n translation (failure key_is_invalid body status) next c h =
      goes_on-Cause k n key_is_invalid body status next c h
  conclude-Cause k n translation (failure (key_on_cooldown seconds) body status) next c h =
      goes_on-Cause k n (key_on_cooldown seconds) body status next c h
  conclude-Cause k n translation (failure transient_server_error body status) next c h =
      goes_on-Cause k n transient_server_error body status next c h
  conclude-Cause k n translation (failure request_timeout body status) next c h =
      goes_on-Cause k n request_timeout body status next c h
  conclude-Cause k n translation (failure unknown body status) next c h =
      goes_on-Cause k n unknown body status next c h

  -- What is known of a round when the key's request is built and sent.
  record IsReady (k : ApiKey) (n t : ℕ) : Type 0 where
    in_time : attempt_timeout overall_timeout_ms target_timeout_ms (turn n).elapsed_ms ≡ some t
    not_skipped : is_skipped k model_name (turn n).now ≡ false

  executed-Cause :
      (k : ApiKey) (n t : ℕ) (translation : Translation) (out : Outgoing) (e : Executed)
      (res : Result String RequestResult) (next : LastError → Forwarded F)
      → IsReady k n t
      → build k.key (turn n).request_id ≡ ok (out, translation)
      → execute_request_with_retry google provider 3 t ((turn n).fetch out) (turn n).random ≡ some e
      → e.result ≡ res
      → ((last : LastError) → All Cause (next last).1)
      → All Cause
          (conclude_executed json model_name k
            (turn n)
            translation
            (some (record e { result = res }))
            next).1
  executed-Cause k n t translation out e (err x) next ready built ran came h = tt
  executed-Cause k n t translation out e (ok r) next ready built ran came h =
      conclude-Cause k n translation r next
        (record {
          key = k;
          round_number = n;
          translation = translation;
          attempted = record {
            timeout = t;
            out = out;
            executed = e;
            in_time = ready.in_time;
            not_skipped = ready.not_skipped;
            built = built;
            ran = ran;
            came_to = came;
          };
          id_eq = refl;
        })
        h

  sent-Cause :
      (k : ApiKey) (n t : ℕ) (translation : Translation) (out : Outgoing) (sent : Option Executed)
      (next : LastError → Forwarded F)
      → IsReady k n t
      → build k.key (turn n).request_id ≡ ok (out, translation)
      → execute_request_with_retry google provider 3 t ((turn n).fetch out) (turn n).random ≡ sent
      → ((last : LastError) → All Cause (next last).1)
      → All Cause (conclude_executed json model_name k (turn n) translation sent next).1
  sent-Cause k n t translation out none next ready built ran h = tt
  sent-Cause k n t translation out (some e) next ready built ran h =
      executed-Cause k n t translation out e e.result next ready built ran refl h

  attempt-Cause :
      (k : ApiKey) (n t : ℕ) (built : Result String (Outgoing × Translation))
      (next : LastError → Forwarded F)
      → IsReady k n t
      → build k.key (turn n).request_id ≡ built
      → ((last : LastError) → All Cause (next last).1)
      → All Cause
          (attempt google json build provider model_name overall_timeout_ms target_timeout_ms turn k
            (turn n)
            t
            next).1
  unfolding attempt
  attempt-Cause k n t (err x) next ready b h = rw (attempt, b) tt
  attempt-Cause k n t (ok (out, translation)) next ready b h =
      rw (attempt, b) (sent-Cause k n t translation out _ next ready b refl h)

  timed-Cause :
      (k : ApiKey) (n : ℕ) (timeout : Option ℕ) (last : LastError) (next : LastError → Forwarded F)
      → attempt_timeout overall_timeout_ms target_timeout_ms (turn n).elapsed_ms ≡ timeout
      → ((last : LastError) → All Cause (next last).1)
      → All Cause
          (timed_attempt google json build provider model_name overall_timeout_ms target_timeout_ms
            turn k
            (turn n)
            timeout
            last
            next).1
  timed-Cause k n none last next e h = tt
  timed-Cause k n (some t) last next e h =
      elim (Bool-cases (is_skipped k model_name (turn n).now)) [
        | inl skips ↦ rw skips (h last)
        | inr tried ↦
            rw tried
              (attempt-Cause k n t _ next (record { in_time = e; not_skipped = tried }) refl h)
      ]

  -- Nothing is done to a key without cause. A key is blocked only after one of its own requests came to
  -- an invalid key. It goes to the penalty box only after that, for 300 seconds, or after one of its
  -- own requests came to a cooldown, for the seconds that the analysis gave; and it is cooled for the
  -- model only after the latter, for the same seconds. A success or a failure is measured only after
  -- one. Each was a request sent in time, with the key not on cooldown for the model.
  pub failover-Cause :
      (ks : List ApiKey) (n : ℕ) (last : LastError)
      → All Cause
          (failover google json build provider model_name overall_timeout_ms target_timeout_ms turn
            ks n last).1
  unfolding failover
  failover-Cause [] n last = tt
  failover-Cause (k ∷ ks) n last = timed-Cause k n _ last _ refl (failover-Cause ks (suc n))
