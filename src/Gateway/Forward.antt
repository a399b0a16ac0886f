-- ===== src/Gateway/Forward.antt =====
-- forward and run_cleanup_handler of handlers.rs: the whole of a request, over the storage component.
pub mod Replies
pub mod Calls
pub mod Keeps
pub mod Blocking
pub mod Samples
mod Tests
use Prim.Native.String
use thebalance.Prelude.{
  ℕ, String, Bool, true, false, not, Option, none, some, List, [], ◌∷◌, if◌then◌else◌,
}
use thebalance.Prelude.Int.{ℤ, pos}
use thebalance.Prelude.Text.{parse_u64, decimal}
use thebalance.Prelude.Result.{Result, ok, err}
use thebalance.Errors.{GoogleJson}
use thebalance.Storage.Model.{error_text, Key, ApiKey, StorageError, toasty, worker, blocked}
use thebalance.Storage.Platform.{World, Platform}
use thebalance.Storage.Metrics.{update_key_metrics}
use thebalance.Storage.Cooldowns.{flag_key_with_cooldown, set_key_model_cooldown_if_available}
use thebalance.Storage.Admin.{update_status}
use thebalance.Storage.Reads.{get_healthy_sorted_keys_via_cache}
use thebalance.Storage.Health.{recovery_threshold}
use thebalance.Storage.Cleanup.{TestAnswer, delete_permanently_failed_keys}
use thebalance.Gateway.Auth.{get_auth_key, is_valid_auth_key, extract_provider_and_model}
use thebalance.Gateway.Target.{GatewayEnv, Incoming, BodyJson, build_request}
use thebalance.Gateway.Failover.{
  Reply, openai_error, raw, worker_error, Effect, flag, metrics, block, cool, AnswerJson, Turn,
  no_error, Forwarded, failover,
}

-- The variables and secrets that forward reads, and whether the caller's body and the binding of the
-- database can be had.
pub record Settings : Type 0 where
  pub auth_key : Option String
  pub overall_timeout_ms : Option String
  pub target_timeout_ms : Option String
  pub recovery_threshold : Option String
  pub gateway : GatewayEnv
  pub body_read : Result String (Unit {0})
  pub binding : Result String (Unit {0})

abbrev or_default : Option ℕ → ℕ → ℕ
or_default none n = n
or_default (some m) n = m

unfoldable pub timeout_setting : Option String → ℕ → ℕ
unfolding parse_u64
timeout_setting none default = default
timeout_setting (some text) default = or_default (parse_u64 text) default

abbrev pub unauthorized : {F : Type 0} → Reply F
unauthorized =
    openai_error "Invalid authentication credentials." "invalid_request_error" "invalid_api_key" 401

abbrev pub no_keys : {F : Type 0} → Reply F
no_keys =
    openai_error "No active keys available for this provider." "server_error" "no_keys_available"
      503

-- The text of an error, as `thiserror` prints it.
module _ {S T C P : Type 0} (pf : Platform S T C P) where
  -- One effect of the failover loop. An error of a background task is logged and dropped; `now` is the
  -- clock in seconds.
  unfoldable pub run_effect : String → ℕ → Effect → World S C P → World S C P
  unfolding flag_key_with_cooldown
  run_effect provider now (flag id seconds) w = flag_key_with_cooldown pf id seconds now w
  run_effect provider now (metrics id is_success latency) w =
      (update_key_metrics pf id is_success latency (pos now) w).1
  run_effect provider now (block id) w = (update_status pf id blocked (pos now) w).1
  run_effect provider now (cool id model seconds) w =
      (set_key_model_cooldown_if_available pf id model seconds now w).1

  unfoldable pub run_effects : String → ℕ → List Effect → World S C P → World S C P
  unfolding run_effect
  run_effects provider now [] w = w
  run_effects provider now (e ∷ es) w = run_effects provider now es (run_effect provider now e w)

-- `body_model` reads the field `model` of a JSON body; `turn n` is what round n of the loop meets;
-- `now` and `later` are the clock, in seconds, when the keys are read and when the tasks run.
module _ {S T C P F : Type 0} (pf : Platform S T C P) (google : GoogleJson) (bodies : BodyJson)
    (answers : AnswerJson F) (body_model : String → Option String) (settings : Settings)
    (turn : ℕ → Turn) (now later : ℕ) where
  -- Steps 3 to 7, with the background work behind them.
  unfoldable pub serve :
      Incoming → String → String → List ApiKey → World S C P → Reply F × World S C P
  unfolding failover run_effects build_request timeout_setting
  serve req provider model_name keys w =
      let (reply, effects) =
        failover google answers (build_request bodies settings.gateway req provider model_name)
          provider model_name (timeout_setting settings.overall_timeout_ms 25000)
          (timeout_setting settings.target_timeout_ms 10000) turn keys 0 no_error in
      (reply, run_effects pf provider later effects w)

  abbrev pub serve_found :
      Incoming
      → String
      → String
      → Result StorageError (List ApiKey)
      → World S C P
      → Reply F × World S C P
  serve_found req provider model_name (err e) w = (no_keys, w)
  serve_found req provider model_name (ok []) w = (no_keys, w)
  serve_found req provider model_name (ok (k ∷ ks)) w = serve req provider model_name (k ∷ ks) w

  -- `env.d1("DB")?`, and the keys behind it.
  abbrev pub serve_bound :
      Incoming → String → String → Result String (Unit {0}) → World S C P → Reply F × World S C P
  serve_bound req provider model_name (err e) w = (worker_error e, w)
  serve_bound req provider model_name (ok u) w =
      let (keys, w') =
        get_healthy_sorted_keys_via_cache pf (recovery_threshold settings.recovery_threshold)
          provider now w in
      serve_found req provider model_name keys w'

  abbrev pub serve_extracted :
      Incoming → Result String (String × String) → World S C P → Reply F × World S C P
  serve_extracted req (err e) w = (worker_error e, w)
  serve_extracted req (ok (provider, model_name)) w =
      serve_bound req provider model_name settings.binding w

  -- `to_bytes` on the body.
  abbrev pub serve_read : Incoming → Result String (Unit {0}) → World S C P → Reply F × World S C P
  serve_read req (err e) w = (worker_error e, w)
  serve_read req (ok u) w =
      serve_extracted req (extract_provider_and_model (body_model req.body) req.rest_resource) w

  unfoldable pub forward : Option String → Incoming → World S C P → Reply F × World S C P
  unfolding serve get_auth_key is_valid_auth_key extract_provider_and_model
  forward authorization req w =
      if not (is_valid_auth_key (get_auth_key authorization) settings.auth_key)
      then (unauthorized, w)
      else serve_read req settings.body_read w

  abbrev cleanup_reply : String → Result StorageError ℕ → Reply F
  cleanup_reply provider (ok deleted_count) =
      raw
        (String.◌++◌ "Successfully completed cleanup for provider: " (
          String.◌++◌ provider
            (String.◌++◌ ". Deleted " (String.◌++◌ (decimal deleted_count) " keys."))))
        200
  cleanup_reply provider (err e) =
      raw
        (String.◌++◌ "Failed to run cleanup for provider: "
          (String.◌++◌ provider (String.◌++◌ ". Error: " (error_text e))))
        500

  unfoldable pub run_cleanup_handler :
      (Key T → TestAnswer) → Option String → String → World S C P → Reply F × World S C P
  unfolding get_auth_key is_valid_auth_key
  run_cleanup_handler answer authorization provider w =
      if not (is_valid_auth_key (get_auth_key authorization) settings.auth_key)
      then (unauthorized, w)
      else (let (result, w') =
            delete_permanently_failed_keys pf google answer
              (recovery_threshold settings.recovery_threshold) (pos now) provider w in
          (cleanup_reply provider result, w'))
