-- ===== src/Storage/Tests.antt =====
-- Runs and instances for the storage component, at the platform in memory.
use thebalance.Prelude.{ℕ, ◌≤◌, ◌≡◌, refl, inl, true, false, none, List, [], ◌∷◌, All, arith}
use thebalance.Prelude.Int.{pos}
use mathlib.Core.List.{Perm}
use thebalance.Prelude.{filter}
use thebalance.Storage.Health.{calculate_health_score, healthy_sorted, is_allowed}
use thebalance.Storage.Health.Order.{IsDescending, healthy_sorted-order}
use thebalance.Storage.Cooldowns.Stored.{LawfulJson, cooled, cooldown_update-read}
use thebalance.Storage.Model.{db_key_to_api_key, get_cooldown_end}
use thebalance.Storage.Reads.{is_available}
use thebalance.Storage.Metrics.Rate.{rate_after, rate_ceiling}
use thebalance.Storage.Reads.{get_healthy_sorted_keys_via_cache}
use thebalance.Storage.Ensures.{Ensures}
use thebalance.Prelude.{◌≢◌}
use thebalance.Prelude.Assoc.{mem}
use thebalance.Prelude.Result.{ok}
use thebalance.Storage.Admin.{update_status}
use thebalance.Storage.Invariant.Blocked.{IsOwned, blocked_stays_out}
use thebalance.Storage.Reads.{get_healthy_sorted_keys, get_active_keys}
use thebalance.Storage.Invariant.Rows.{row_rules}
use thebalance.Storage.Invariant.Operations.{Ensures-via_cache}
use thebalance.Storage.Model.{Key, ApiKey, active, blocked}
use thebalance.Storage.Pool.{entry}
use thebalance.Storage.Samples.{no_parser, row, other_row, world, two_rows}
use thebalance.Storage.Memory.{Column, column_json, memory, memory_db, memory_cache}
use thebalance.Storage.Platform.{◌>>=◌, exec_first, exec_update, exec_query}
use thebalance.Storage.Platform.Binding.{bind_condition, bind_query, bind_assignment}
use thebalance.Storage.Cleanup.{network_error, delete_permanently_failed_keys}
use thebalance.Storage.Cleanup.Deletes.{HoldsRows, cleanup_keeps_rows}
use thebalance.Storage.Invariant.{Serves, Inv}
use thebalance.Storage.Invariant.History.{
  Call, update_metrics, read_keys, set_status, run_call, run_calls, run_calls-Inv,
}

world-Inv : Inv memory memory_db world
unfolding memory memory_db
world-Inv = record {
  valid_rows = (record { rate = omega arith; known = inl refl }, tt);
  sound_cache = λ p now ks e. cc;
}

abbrev calls : List (Call Column)
calls =
    update_metrics "k1" false (pos 80) (pos 1700000100)
    ∷ read_keys (pos 5) "google-ai-studio" 1700000200
    ∷ set_status "k1" blocked (pos 1700000300)
    ∷ []

run_calls-Inv_example : Inv memory memory_db (run_calls memory no_parser calls world)
run_calls-Inv_example = run_calls-Inv memory no_parser memory_db memory_cache calls world world-Inv

cleanup_keeps_rows_example :
    HoldsRows memory memory_db
      (entry row ∷ [])
      (delete_permanently_failed_keys memory no_parser
        (λ k. network_error)
        (pos 5)
        (pos 1700000100)
        "google-ai-studio"
        world).1
unfolding memory memory_db
cleanup_keeps_rows_example =
    cleanup_keeps_rows memory memory_db no_parser (λ k. network_error) (pos 5) (pos 1700000100)
      "google-ai-studio" world

abbrev fast : ApiKey
fast = record {
  id = "k1";
  key = "AIza";
  provider = "google-ai-studio";
  status = active;
  model_coolings = [];
  total_cooling_seconds = 0;
  created_at = 1700000000;
  updated_at = 1700000000;
  latency_ms = pos 100;
  success_rate = pos 990;
  consecutive_failures = pos 1;
  last_checked_at = 1700000000;
  last_succeeded_at = 1700000000;
}

abbrev slow : ApiKey
slow = record fast { latency_ms = pos 4000; consecutive_failures = pos 2 }

healthy_sorted-order_example :
    Perm
      (healthy_sorted (pos 5) 1700000100 (slow ∷ fast ∷ []))
      (filter (is_allowed (pos 5) 1700000100) (slow ∷ fast ∷ []))
    × IsDescending
        (calculate_health_score 1700000100)
        (healthy_sorted (pos 5) 1700000100 (slow ∷ fast ∷ []))
healthy_sorted-order_example = healthy_sorted-order (pos 5) 1700000100 (slow ∷ fast ∷ [])

rate_ceiling_example :
    (m : ℕ) × (rate_after (true ∷ false ∷ true ∷ []) (pos 900) ≡ pos m) × (m ≤ 901)
rate_ceiling_example = rate_ceiling (true ∷ false ∷ true ∷ []) 900 (omega arith)

Ensures-via_cache_example :
    Ensures
      (Inv memory memory_db)
      (get_healthy_sorted_keys_via_cache memory (pos 5) "google-ai-studio" 1700000100)
      (All (Serves "google-ai-studio"))
Ensures-via_cache_example =
    Ensures-via_cache memory memory_db (row_rules memory) memory_cache (pos 5) "google-ai-studio"
      1700000100

column-LawfulJson : LawfulJson memory.json
unfolding memory
column-LawfulJson = record {
  not_blank = λ m. refl;
  parse_print = λ m. (m, refl, λ model. refl);
  empty_ends = refl;
  no_ends = λ entry m. refl;
}

abbrev cooled_row : Key Column
cooled_row = cooled memory column-LawfulJson row row [] "gemini" 1700000100 65

cooldown_update-read_example :
    (is_available memory 1700000160 cooled_row ≡ false)
    × (get_cooldown_end (db_key_to_api_key memory.json cooled_row) "gemini" ≡ none)
cooldown_update-read_example =
    cooldown_update-read memory column-LawfulJson row row [] "gemini" "gemini" 1700000100 65
      1700000160 (omega arith) (omega arith)

abbrev reads : List (Call Column)
reads = read_keys (pos 5) "google-ai-studio" 1700000100 ∷ []

k1-IsOwned : IsOwned memory memory_db memory_cache "google-ai-studio" "k1" two_rows
unfolding memory_db mem
k1-IsOwned = (refl, ((λ e. refl), ((λ e. refl), tt)))

blocked_ok : (update_status memory "k1" blocked (pos 1700000000) two_rows).0 ≡ ok tt
unfolding update_status memory ◌>>=◌ exec_first bind_condition exec_update
blocked_ok = refl

served_other :
    (get_healthy_sorted_keys_via_cache memory (pos 5) "google-ai-studio" 1700000120 (
      run_calls memory no_parser reads
        (update_status memory "k1" blocked (pos 1700000000) two_rows).1)).0
    ≡ ok (db_key_to_api_key column_json other_row ∷ [])
unfolding update_status memory get_healthy_sorted_keys_via_cache run_calls get_healthy_sorted_keys
    get_active_keys ◌>>=◌ run_call exec_first bind_condition exec_update exec_query bind_query
    bind_assignment db_key_to_api_key
served_other = refl

blocked_stays_out_example :
    All {A = ApiKey} (λ k. k.id ≢ "k1") (db_key_to_api_key column_json other_row ∷ [])
blocked_stays_out_example =
    blocked_stays_out memory memory_db memory_cache "google-ai-studio" "k1" no_parser
      (pos 1700000000) two_rows reads (pos 5) 1700000120
      (db_key_to_api_key column_json other_row ∷ []) k1-IsOwned blocked_ok (tt, tt) served_other
