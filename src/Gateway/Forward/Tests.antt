-- ===== src/Gateway/Forward/Tests.antt =====
-- Runs and instances for the handlers, at the platform in memory.
use thebalance.Storage.Samples.{no_parser}
use thebalance.Prelude.{ℕ, ◌≡◌, none, some, [], ◌∷◌}
use thebalance.Prelude.Int.{pos}
use thebalance.Prelude.Result.{ok}
use thebalance.Storage.Model.{Key}
use thebalance.Storage.Memory.{Column, coolings, Table, Entries, Penalties, memory}
use thebalance.Storage.Platform.{World}
use thebalance.Storage.Cleanup.{network_error}
use thebalance.Gateway.Retry.{answered}
use thebalance.Gateway.Target.{Incoming}
use thebalance.Gateway.Failover.{Turn}
use thebalance.Gateway.Forward.{unauthorized, forward, run_cleanup_handler}
use thebalance.Prelude.{List, All}
use thebalance.Storage.Invariant.History.{Call, run_calls}
use thebalance.Gateway.Forward.Samples.{no_bodies, no_answers, settings}
use thebalance.Gateway.Forward.Calls.{IsRequestCall, forward-run_calls}
use thebalance.Gateway.Forward.Replies.{HasSecret, forward-unauthorized}

abbrev row : Key Column
row = record {
  id = "k1";
  key = "AIza";
  provider = "google-ai-studio";
  model_coolings = coolings [];
  total_cooling_seconds = pos 0;
  status = "active";
  created_at = pos 1700000000;
  updated_at = pos 1700000000;
  latency_ms = pos 120;
  success_rate = pos 1000;
  consecutive_failures = pos 0;
  last_checked_at = pos 0;
  last_succeeded_at = pos 0;
}

abbrev world : World Table Entries Penalties
world = record { db = row ∷ []; api_key_cache = []; cooldown_cache = [] }

-- Every request is refused with a 429.
abbrev turns : ℕ → Turn
turns n = record {
  elapsed_ms = 0;
  now = 1700000100;
  latency = pos 80;
  fetch = λ out i. answered (record { status = 429; body = ok "slow down" });
  random = λ i. 7;
  request_id = "r";
  chat_id = "c";
}

abbrev request : Incoming
request = record {
  method = "POST";
  headers = [];
  body = "{}";
  rest_resource = "google-ai-studio/v1beta/models/gemini:generateContent";
}

lacks_secret : ¬ (HasSecret (some "Bearer guess") (some "secret"))
lacks_secret h = let e = h.header_eq in let s = h.secret_eq in cc

forward-unauthorized_example :
    (forward memory no_parser no_bodies no_answers
        (λ text. none)
        settings
        turns
        1700000100
        1700000101
        (some "Bearer guess")
        request
        world
      ≡ (unauthorized, world))
    × (run_cleanup_handler memory no_parser no_bodies no_answers
          (λ text. none)
          settings
          turns
          1700000100
          1700000101
          (λ k. network_error)
          (some "Bearer guess")
          "google-ai-studio"
          world
        ≡ (unauthorized, world))
forward-unauthorized_example =
    forward-unauthorized memory no_parser no_bodies no_answers (λ text. none) settings turns
      1700000100 1700000101 (some "Bearer guess") request (λ k. network_error) "google-ai-studio"
      world lacks_secret

forward-run_calls_example :
    (cs : List (Call Column)) × All IsRequestCall cs
    × ((forward memory no_parser no_bodies no_answers
          (λ text. none)
          settings
          turns
          1700000100
          1700000101
          (some "Bearer secret")
          request
          world).1
        ≡ run_calls memory no_parser cs world)
forward-run_calls_example =
    forward-run_calls memory no_parser no_bodies no_answers (λ text. none) settings turns 1700000100
      1700000101 (some "Bearer secret") request world
