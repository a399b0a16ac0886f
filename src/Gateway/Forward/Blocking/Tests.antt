-- ===== src/Gateway/Forward/Blocking/Tests.antt =====
-- A request that the second key answers, after the first has been blocked.
use thebalance.Prelude.{ℕ, ◌≡◌, ◌≢◌, refl, none, some, [], ◌∷◌, All}
use thebalance.Prelude.Int.{pos}
use thebalance.Prelude.Result.{ok}
use thebalance.Prelude.Assoc.{mem, lookup}
use thebalance.Storage.Model.{ApiKey, blocked, db_key_to_api_key}
use thebalance.Storage.Health.{recovery_threshold}
use thebalance.Storage.Metrics.{update_key_metrics}
use thebalance.Storage.Admin.{update_status}
use thebalance.Storage.Reads.{
  get_healthy_sorted_keys_via_cache, get_healthy_sorted_keys, get_active_keys,
}
use thebalance.Storage.Memory.{column_json, memory, memory_db, memory_cache}
use thebalance.Storage.Samples.{no_parser, other_row, two_rows}
use thebalance.Storage.Platform.{◌>>=◌, exec_first, exec_update, exec_query}
use thebalance.Storage.Platform.Binding.{bind_condition, bind_query, bind_assignment}
use thebalance.Storage.Invariant.Blocked.{IsOwned}
use thebalance.Gateway.Retry.{answered}
use thebalance.Gateway.Failover.{Turn}
use thebalance.Gateway.Forward.Samples.{no_bodies, no_answers, settings}
use thebalance.Gateway.Forward.Blocking.{Request, run_requests, requests-blocked}

abbrev success : ℕ → Turn
success n = record {
  elapsed_ms = 0;
  now = 1700000100;
  latency = pos 80;
  fetch = λ out i. answered (record { status = 200; body = ok "{}" });
  random = λ i. 7;
  request_id = "r";
  chat_id = "c";
}

abbrev request : Request
request = record {
  authorization = some "Bearer secret";
  incoming = record {
    method = "POST";
    headers = [];
    body = "{}";
    rest_resource = "google-ai-studio/v1beta/models/gemini:generateContent";
  };
  turn = success;
  now = 1700000100;
  later = 1700000101;
}

k1-IsOwned : IsOwned memory memory_db memory_cache "google-ai-studio" "k1" two_rows
unfolding memory_db mem
k1-IsOwned = (refl, ((λ e. refl), ((λ e. refl), tt)))

blocked_ok : (update_status memory "k1" blocked (pos 1700000000) two_rows).0 ≡ ok tt
unfolding update_status memory ◌>>=◌ exec_first bind_condition exec_update
blocked_ok = refl

served_other :
    (get_healthy_sorted_keys_via_cache memory (pos 5) "google-ai-studio" 1700000120 (
      run_requests memory no_parser no_bodies no_answers
        (λ text. none)
        settings
        (request ∷ [])
        (update_status memory "k1" blocked (pos 1700000000) two_rows).1)).0
    ≡ ok (db_key_to_api_key column_json other_row ∷ [])
unfolding update_status memory get_healthy_sorted_keys_via_cache run_requests
    get_healthy_sorted_keys get_active_keys ◌>>=◌ exec_first bind_condition exec_update exec_query
    bind_query bind_assignment db_key_to_api_key recovery_threshold lookup update_key_metrics
served_other = refl

requests-blocked_example :
    All {A = ApiKey} (λ k. k.id ≢ "k1") (db_key_to_api_key column_json other_row ∷ [])
requests-blocked_example =
    requests-blocked memory no_parser no_bodies no_answers (λ text. none) settings memory_db
      memory_cache "google-ai-studio" "k1" (pos 1700000000) two_rows (request ∷ []) (pos 5)
      1700000120 (db_key_to_api_key column_json other_row ∷ []) k1-IsOwned blocked_ok served_other
