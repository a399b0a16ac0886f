-- ===== src/Gateway/Forward/Calls.antt =====
-- A request as a sequence of storage calls.
use thebalance.Prelude.{
  ℕ, ◌≡◌, refl, ap, ◌∙◌, String, Bool, true, false, Option, List, [], ◌∷◌, All, not, if◌then◌else◌,
}
use thebalance.Prelude.Int.{pos}
use thebalance.Prelude.Result.{Result, ok, err}
use thebalance.Errors.{GoogleJson}
use thebalance.Storage.Model.{ApiKey, active, blocked, StorageError}
use thebalance.Storage.Platform.{World, Platform}
use thebalance.Storage.Health.{recovery_threshold}
use thebalance.Storage.Invariant.History.{
  Call, update_metrics, cool_model, cool_plain, flag, add, delete, delete_blocked, set_status,
  read_keys, clean_up, run_call, run_calls,
}
use thebalance.Gateway.Auth.{get_auth_key, is_valid_auth_key, extract_provider_and_model}
use thebalance.Gateway.Target.{Incoming, BodyJson, build_request}
use thebalance.Gateway.Failover
use thebalance.Gateway.Failover.{
  Reply, Effect, metrics, block, cool, AnswerJson, Turn, failover, no_error,
}
use thebalance.Gateway.Forward.{
  Settings, run_effect, run_effects, serve, serve_found, serve_bound, serve_extracted, serve_read,
  timeout_setting, unauthorized, forward,
}

-- What a request may ask of the storage: it reads lists, measures, cools, flags and blocks.
abbrev pub IsRequestCall : {T : Type 0} → Call T → Type 0
IsRequestCall (update_metrics id b latency now) = Unit
IsRequestCall (cool_model id model seconds now) = Unit
IsRequestCall (cool_plain id model seconds now later) = ⊥
IsRequestCall (flag id seconds now) = Unit
IsRequestCall (add provider text uuid now) = ⊥
IsRequestCall (delete ids) = ⊥
IsRequestCall (delete_blocked provider) = ⊥
IsRequestCall (set_status id active now) = ⊥
IsRequestCall (set_status id blocked now) = Unit
IsRequestCall (read_keys threshold provider now) = Unit
IsRequestCall (clean_up answer threshold now provider) = ⊥

abbrev effect_call : {T : Type 0} → ℕ → Effect → Call T
effect_call now (Failover.flag id seconds) = flag id seconds now
effect_call now (metrics id is_success latency) = update_metrics id is_success latency (pos now)
effect_call now (block id) = set_status id blocked (pos now)
effect_call now (cool id model seconds) = cool_model id model seconds now

abbrev effect_calls : {T : Type 0} → ℕ → List Effect → List (Call T)
effect_calls now [] = []
effect_calls now (e ∷ es) = effect_call now e ∷ effect_calls now es

effect-IsRequestCall :
    (T : Type 0) (now : ℕ) (e : Effect) → IsRequestCall {T = T} (effect_call now e)
effect-IsRequestCall T now (Failover.flag id seconds) = tt
effect-IsRequestCall T now (metrics id is_success latency) = tt
effect-IsRequestCall T now (block id) = tt
effect-IsRequestCall T now (cool id model seconds) = tt

effects-IsRequestCall :
    (T : Type 0) (now : ℕ) (es : List Effect) → All IsRequestCall (effect_calls {T = T} now es)
effects-IsRequestCall T now [] = tt
effects-IsRequestCall T now (e ∷ es) =
    (effect-IsRequestCall T now e, effects-IsRequestCall T now es)

module _ {S T C P : Type 0} (pf : Platform S T C P) (google : GoogleJson) where
  -- The second world is what some calls of a request make of the first.
  abbrev pub ByCalls : World S C P → World S C P → Type 0
  ByCalls w v = (cs : List (Call T)) × All IsRequestCall cs × (v ≡ run_calls pf google cs w)

  run_effect-call :
      (provider : String) (now : ℕ) (e : Effect) (w : World S C P)
      → run_effect pf provider now e w ≡ run_call pf google (effect_call now e) w
  unfolding run_effect run_call
  run_effect-call provider now (Failover.flag id seconds) w = refl
  run_effect-call provider now (metrics id is_success latency) w = refl
  run_effect-call provider now (block id) w = refl
  run_effect-call provider now (cool id model seconds) w = refl

  run_effects-calls :
      (provider : String) (now : ℕ) (es : List Effect) (w : World S C P)
      → run_effects pf provider now es w ≡ run_calls pf google (effect_calls now es) w
  unfolding run_effects run_calls
  run_effects-calls provider now [] w = refl
  run_effects-calls provider now (e ∷ es) w =
      run_effects-calls provider now es _
      ∙ ap (run_calls pf google (effect_calls now es)) (run_effect-call provider now e w)

  either_world :
      {R : Type 0} (w : World S C P) (b : Bool) (x y : R × World S C P)
      → ByCalls w x.1
      → ByCalls w y.1
      → ByCalls w (if not b then x else y).1
  either_world w true x y hx hy = hy
  either_world w false x y hx hy = hx

  nothing_done : (w : World S C P) → ByCalls w w
  unfolding run_calls
  nothing_done w = ([], tt, refl)

  module _ {F : Type 0} (bodies : BodyJson) (answers : AnswerJson F)
      (body_model : String → Option String) (settings : Settings) (turn : ℕ → Turn)
      (now later : ℕ) where
    -- The calls behind the one that read the keys.
    calls_behind :
        (req : Incoming) (provider model_name : String) (keys : Result StorageError (List ApiKey))
        (first : Call T) (w : World S C P)
        → IsRequestCall first
        → ByCalls w
            (serve_found pf google bodies answers body_model settings turn now later req provider
              model_name keys
              (run_call pf google first w)).1
    unfolding serve run_calls
    calls_behind req provider model_name (err e) first w ask = (first ∷ [], (ask, tt), refl)
    calls_behind req provider model_name (ok []) first w ask = (first ∷ [], (ask, tt), refl)
    calls_behind req provider model_name (ok (k ∷ ks)) first w ask =
        let effects =
          (failover google answers (build_request bodies settings.gateway req provider model_name)
            provider model_name (timeout_setting settings.overall_timeout_ms 25000)
            (timeout_setting settings.target_timeout_ms 10000) turn (k ∷ ks) 0 no_error).1 in
        (
          first ∷ effect_calls later effects,
          (ask, effects-IsRequestCall _ later effects),
          run_effects-calls provider later effects _,
        )

    bound_calls :
        (req : Incoming) (provider model_name : String) (binding : Result String (Unit {0}))
        (w : World S C P)
        → ByCalls w
            (serve_bound pf google bodies answers body_model settings turn now later req provider
              model_name binding w).1
    unfolding run_call
    bound_calls req provider model_name (err e) w = nothing_done w
    bound_calls req provider model_name (ok u) w =
        let threshold = recovery_threshold settings.recovery_threshold in
        calls_behind req provider model_name _ (read_keys threshold provider now) w tt

    extracted_calls :
        (req : Incoming) (found : Result String (String × String)) (w : World S C P)
        → ByCalls w
            (serve_extracted pf google bodies answers body_model settings turn now later req found
              w).1
    extracted_calls req (err e) w = nothing_done w
    extracted_calls req (ok (provider, model_name)) w =
        bound_calls req provider model_name settings.binding w

    read_calls :
        (req : Incoming) (body_read : Result String (Unit {0})) (w : World S C P)
        → ByCalls w
            (serve_read pf google bodies answers body_model settings turn now later req body_read
              w).1
    read_calls req (err e) w = nothing_done w
    read_calls req (ok u) w =
        extracted_calls req (extract_provider_and_model (body_model req.body) req.rest_resource) w

    -- A whole request with its background tasks does to the storage what a sequence of storage calls
    -- does, and these only read lists, measure, cool, flag and block keys: no request adds or deletes
    -- a key or sets one active, whatever the caller sends and the providers answer.
    pub forward-run_calls :
        (authorization : Option String) (req : Incoming) (w : World S C P)
        → (cs : List (Call T)) × All IsRequestCall cs
          × ((forward pf google bodies answers body_model settings turn now later authorization req
                w).1
              ≡ run_calls pf google cs w)
    unfolding forward
    forward-run_calls authorization req w =
        either_world {R = Reply F} w
          (is_valid_auth_key (get_auth_key authorization) settings.auth_key) (unauthorized, w)
          (serve_read pf google bodies answers body_model settings turn now later req
            settings.body_read w)
          (nothing_done w) (read_calls req settings.body_read w)
