-- ===== src/Gateway/Failover/Winner.antt =====
-- The failover loop over a run: which key answers, and what is reported for the keys before it.
use mathlib.Core.Path.{subst}
use mathlib.Core.List.{append_assoc, append-nil}
use thebalance.Prelude.{
  ◌∙◌, ℕ, suc, ◌≡◌, refl, sym, ap, String, true, false, some, List, [], ◌∷◌, ◌++◌, if◌then◌else◌,
}
use thebalance.Prelude.Result.{Result, ok}
use thebalance.Errors.{
  ErrorAnalysis, key_is_invalid, key_on_cooldown, user_error, transient_server_error,
  request_timeout, unknown, GoogleJson,
}
use thebalance.Storage.Model.{ApiKey}
use thebalance.Gateway.Retry.{
  Response, RequestResult, success, failure, Executed, execute_request_with_retry,
}
use thebalance.Gateway.Target.{Outgoing, Translation}
use thebalance.Gateway.Failover.{
  raw, openai_error, Effect, metrics, AnswerJson, Turn, LastError, Forwarded, and_first,
  attempt_timeout, is_skipped, is_cooldown, failure_effects, translate_reply, or_worker_error,
  conclude, attempt, failover, exhausted,
}

module _ {F : Type 0} (google : GoogleJson) (json : AnswerJson F)
    (build : String → String → Result String (Outgoing × Translation))
    (provider model_name : String) (overall_timeout_ms target_timeout_ms : ℕ)
    (turn : ℕ → Turn) where
  -- The request for key `k` in round `n` is `out`, sent with a timeout, and comes to `r`.
  pub record Attempted (k : ApiKey) (n : ℕ) (translation : Translation) (r : RequestResult)
      : Type 0 where
    pub timeout : ℕ
    pub out : Outgoing
    pub executed : Executed
    pub in_time :
        attempt_timeout overall_timeout_ms target_timeout_ms (turn n).elapsed_ms ≡ some timeout
    pub not_skipped : is_skipped k model_name (turn n).now ≡ false
    pub built : build k.key (turn n).request_id ≡ ok (out, translation)
    pub ran :
        execute_request_with_retry google provider 3 timeout ((turn n).fetch out) (turn n).random
        ≡ some executed
    pub came_to : executed.result ≡ ok r

  abbrev go : List ApiKey → ℕ → LastError → Forwarded F
  go = failover google json build provider model_name overall_timeout_ms target_timeout_ms turn

  skipped_round :
      (k : ApiKey) (ks : List ApiKey) (n t : ℕ) (last : LastError)
      → attempt_timeout overall_timeout_ms target_timeout_ms (turn n).elapsed_ms ≡ some t
      → is_skipped k model_name (turn n).now ≡ true
      → go (k ∷ ks) n last ≡ go ks (suc n) last
  unfolding failover
  skipped_round k ks n t last e skips = rw e (rw skips refl)

  pub Attempted-round :
      (k : ApiKey) (ks : List ApiKey) (n : ℕ) (last : LastError) (tn : Translation)
      (r : RequestResult)
      → Attempted k n tn r
      → go (k ∷ ks) n last ≡ conclude json model_name k (turn n) tn r (go ks (suc n))
  unfolding failover attempt
  Attempted-round k ks n last tn r a =
      rw a.in_time (rw a.not_skipped (rw (attempt, a.built) (rw a.ran (rw a.came_to refl))))

  abbrev error_of : ErrorAnalysis → String → ℕ → LastError
  error_of analysis body status = record {
    body = body;
    status = status;
    was_cooldown = is_cooldown analysis;
  }

  passed_round :
      (k : ApiKey) (ks : List ApiKey) (n : ℕ) (last : LastError) (tn : Translation)
      (analysis : ErrorAnalysis) (body : String) (status : ℕ)
      → Attempted k n tn (failure analysis body status)
      → ¬ (analysis ≡ user_error)
      → go (k ∷ ks) n last
        ≡ and_first
            (failure_effects k model_name (turn n).latency analysis)
            (go ks (suc n) (error_of analysis body status))
  unfolding conclude
  passed_round k ks n last tn user_error body status a other = absurd (other refl)
  passed_round k ks n last tn key_is_invalid body status a other =
      Attempted-round k ks n last tn _ a
  passed_round k ks n last tn (key_on_cooldown s) body status a other =
      Attempted-round k ks n last tn _ a
  passed_round k ks n last tn transient_server_error body status a other =
      Attempted-round k ks n last tn _ a
  passed_round k ks n last tn request_timeout body status a other =
      Attempted-round k ks n last tn _ a
  passed_round k ks n last tn unknown body status a other = Attempted-round k ks n last tn _ a

  -- The loop gets past the keys, from round `n` to round `m`: it skips a key on cooldown for the model,
  -- and goes on after a failure that is not the caller's. The last index is what it does on the way.
  pub data Passes : List ApiKey → ℕ → LastError → ℕ → LastError → List Effect → Type 0 where
    start : (n : ℕ) (last : LastError) → Passes [] n last n last []
    skip :
        (k : ApiKey) (ks : List ApiKey) (n t m : ℕ) (last after : LastError) (es : List Effect)
        → attempt_timeout overall_timeout_ms target_timeout_ms (turn n).elapsed_ms ≡ some t
        → is_skipped k model_name (turn n).now ≡ true
        → Passes ks (suc n) last m after es
        → Passes (k ∷ ks) n last m after es
    fail :
        (k : ApiKey) (ks : List ApiKey) (n m : ℕ) (last after : LastError) (es : List Effect)
        (tn : Translation) (analysis : ErrorAnalysis) (body : String) (status : ℕ)
        → Attempted k n tn (failure analysis body status)
        → ¬ (analysis ≡ user_error)
        → Passes ks (suc n) (error_of analysis body status) m after es
        → Passes
            (k ∷ ks)
            n
            last
            m
            after
            (failure_effects k model_name (turn n).latency analysis ++ es)

  and_first_assoc :
      (es fs : List Effect) (r : Forwarded F)
      → and_first es (and_first fs r) ≡ and_first (es ++ fs) r
  and_first_assoc es fs (r, gs) = ap (λ x. (r, x)) (sym (append_assoc es fs gs))

  pub failover-Passes :
      (ks rest : List ApiKey) (n m : ℕ) (last after : LastError) (es : List Effect)
      → Passes ks n last m after es
      → go (ks ++ rest) n last ≡ and_first es (go rest m after)
  failover-Passes ks rest n m last after es (start _ _) = refl
  failover-Passes ks rest n m last after es (skip k ks' _ t _ _ _ _ e skips p) =
      skipped_round k (ks' ++ rest) n t last e skips
      ∙ failover-Passes ks' rest (suc n) m last after es p
  failover-Passes ks rest n m last after es
        (fail k ks' _ _ _ _ fs tn analysis body status a other p) =
      passed_round k (ks' ++ rest) n last tn analysis body status a other
      ∙ ap (and_first (failure_effects k model_name (turn n).latency analysis))
          (failover-Passes ks' rest (suc n) m (error_of analysis body status) after fs p)
      ∙ and_first_assoc _ fs (go rest m after)

  -- The first key that succeeds answers: if the loop gets past the keys before it, and its request
  -- succeeds, then the reply is the answer to that request, and what is done is what was done for the
  -- keys before it and one success of this key. The keys behind it are not tried.
  pub failover-success :
      (ks rest : List ApiKey) (k : ApiKey) (n m : ℕ) (last after : LastError) (es : List Effect)
      (tn : Translation) (resp : Response)
      → Passes ks n last m after es
      → Attempted k m tn (success resp)
      → go (ks ++ k ∷ rest) n last ≡ (
        or_worker_error (translate_reply json tn model_name (turn m).chat_id (turn m).now resp),
        es ++ metrics k.id true (turn m).latency ∷ [],
      )
  unfolding conclude
  failover-success ks rest k n m last after es tn resp p a =
      failover-Passes ks (k ∷ rest) n m last after es p
      ∙ ap (and_first es) (Attempted-round k rest m after tn (success resp) a)

  -- An error of the caller is passed on: if the loop gets past the keys before it, and the answer to
  -- this key's request blames the caller, then its body and status are the reply, and no other key is
  -- tried.
  pub failover-user_error :
      (ks rest : List ApiKey) (k : ApiKey) (n m : ℕ) (last after : LastError) (es : List Effect)
      (tn : Translation) (body : String) (status : ℕ)
      → Passes ks n last m after es
      → Attempted k m tn (failure user_error body status)
      → go (ks ++ k ∷ rest) n last
        ≡ (raw body status, es ++ metrics k.id false (turn m).latency ∷ [])
  unfolding conclude failure_effects
  failover-user_error ks rest k n m last after es tn body status p a =
      failover-Passes ks (k ∷ rest) n m last after es p
      ∙ ap (and_first es) (Attempted-round k rest m after tn (failure user_error body status) a)

  -- If every key was tried without success or passed over, within the time and without an error of the
  -- worker itself, the reply is the last failure: its own body and status if it was a
  -- cooldown, and else a server error that carries them.
  pub failover-exhausted :
      (ks : List ApiKey) (n m : ℕ) (last after : LastError) (es : List Effect)
      → Passes ks n last m after es
      → go ks n last ≡ (
        if after.was_cooldown
            then raw after.body after.status
            else openai_error after.body "server_error" "all_keys_failed" after.status,
        es,
      )
  unfolding exhausted failover
  failover-exhausted ks n m last after es p =
      subst (λ xs. go xs n last ≡ and_first es (go [] m after)) (append-nil ks)
        (failover-Passes ks [] n m last after es p)
      ∙ ap (λ x. (exhausted after, x)) (append-nil es)
