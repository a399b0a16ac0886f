-- ===== src/Storage/Invariant/History.antt =====
-- The storage component as a state machine: any sequence of its operations keeps the invariant.
use thebalance.Prelude.{ℕ, String, Bool, List, [], ◌∷◌, All}
use thebalance.Prelude.Int.{ℤ}
use thebalance.Errors.{GoogleJson}
use thebalance.Storage.Model.{Key, ApiKey, ApiKeyStatus}
use thebalance.Storage.Metrics.{update_key_metrics}
use thebalance.Storage.Cooldowns.{
  set_cooldown, set_key_model_cooldown_if_available, flag_key_with_cooldown,
}
use thebalance.Storage.Reads.{get_healthy_sorted_keys_via_cache}
use thebalance.Storage.Admin.{add_keys, delete_keys, delete_all_blocked, update_status}
use thebalance.Storage.Cleanup.{TestAnswer, delete_permanently_failed_keys}
use thebalance.Storage.Platform.{World, Platform}
use thebalance.Storage.Platform.Lawful.{LawfulDb, LawfulCache}
use thebalance.Storage.Invariant.{IsValidRow, Guarded, Inv}
use thebalance.Storage.Invariant.Rules.{Rules, AddsOnly, SetsOnly}
use thebalance.Storage.Invariant.Rows.{row_rules, new_row-valid, status-valid}
use thebalance.Storage.Invariant.Statements.{Keeps-exec_query}
use thebalance.Storage.Invariant.Operations.{
  Guarded-updates, Keeps-update_key_metrics, Keeps-set_cooldown,
  Keeps-set_key_model_cooldown_if_available, Keeps-add_keys, Keeps-delete_keys,
  Keeps-delete_all_blocked, Keeps-update_status, Ensures-via_cache,
  Keeps-delete_permanently_failed_keys,
}

-- A call of d1_storage.rs that writes to the table or to a cache, with the times that it reads.
pub data Call (T : Type 0) : Type 0 where
  update_metrics : String → Bool → ℤ → ℤ → Call T
  cool_model : String → String → ℕ → ℕ → Call T
  cool_plain : String → String → ℕ → ℕ → ℕ → Call T
  flag : String → ℕ → ℕ → Call T
  add : String → String → (ℕ → String) → ℤ → Call T
  delete : List String → Call T
  delete_blocked : String → Call T
  set_status : String → ApiKeyStatus → ℤ → Call T
  read_keys : ℤ → String → ℕ → Call T
  clean_up : (Key T → TestAnswer) → ℤ → ℤ → String → Call T

module _ {S T C P : Type 0} (pf : Platform S T C P) where
  -- The rows that a call creates or whose status it sets keep `R`.
  abbrev pub Allowed : (Key T → Type 0) → Call T → Type 0
  Allowed R (add provider text uuid now) = AddsOnly pf R provider uuid now
  Allowed R (set_status id s now) = SetsOnly R id s now
  Allowed R _ = Unit

  -- No call makes a row that is not valid.
  Allowed-IsValidRow : (c : Call T) → Allowed IsValidRow c
  Allowed-IsValidRow (add provider text uuid now) = new_row-valid pf provider uuid now
  Allowed-IsValidRow (set_status id s now) = status-valid id s now
  Allowed-IsValidRow _ = tt

  All-Allowed : (cs : List (Call T)) → All (Allowed IsValidRow) cs
  All-Allowed [] = tt
  All-Allowed (c ∷ cs) = (Allowed-IsValidRow c, All-Allowed cs)

module _ {S T C P : Type 0} (pf : Platform S T C P) (google : GoogleJson) where
  -- A call that fails leaves what it wrote before.
  unfoldable pub run_call : Call T → World S C P → World S C P
  run_call (update_metrics id b latency now) w = (update_key_metrics pf id b latency now w).1
  run_call (cool_model id model seconds now) w =
      (set_key_model_cooldown_if_available pf id model seconds now w).1
  run_call (cool_plain id model seconds now later) w =
      (set_cooldown pf id model seconds now later w).1
  run_call (flag id seconds now) w = flag_key_with_cooldown pf id seconds now w
  run_call (add provider text uuid now) w = (add_keys pf provider text uuid now w).1
  run_call (delete ids) w = (delete_keys pf ids w).1
  run_call (delete_blocked provider) w = (delete_all_blocked pf provider w).1
  run_call (set_status id s now) w = (update_status pf id s now w).1
  run_call (read_keys threshold provider now) w =
      (get_healthy_sorted_keys_via_cache pf threshold provider now w).1
  run_call (clean_up answer threshold now provider) w =
      (delete_permanently_failed_keys pf google answer threshold now provider w).1

  unfoldable pub run_calls : List (Call T) → World S C P → World S C P
  run_calls [] w = w
  run_calls (c ∷ cs) w = run_calls cs (run_call c w)

  module _ (db : LawfulDb pf) (cache : LawfulCache pf) {R : Key T → Type 0}
      {G : String → ApiKey → Type 0} (rules : Rules pf R G) where
    run_call-Guarded :
        (c : Call T) (w : World S C P)
        → Allowed pf R c
        → Guarded pf db R G w
        → Guarded pf db R G (run_call c w)
    unfolding run_call flag_key_with_cooldown
    run_call-Guarded (update_metrics id b latency now) w only h =
        (Keeps-update_key_metrics pf (Guarded-updates pf db rules) id b latency now).keeps w h
    run_call-Guarded (cool_model id model seconds now) w only h =
        (Keeps-set_key_model_cooldown_if_available pf (Guarded-updates pf db rules) id model seconds
            now).keeps
          w h
    run_call-Guarded (cool_plain id model seconds now later) w only h =
        (Keeps-set_cooldown pf (Guarded-updates pf db rules) id model seconds now later).keeps w h
    run_call-Guarded (flag id seconds now) w only h = record {
      valid_rows = h.valid_rows;
      sound_cache = h.sound_cache;
    }
    run_call-Guarded (add provider text uuid now) w only h =
        (Keeps-add_keys pf db rules cache provider uuid now only text).keeps w h
    run_call-Guarded (delete ids) w only h = (Keeps-delete_keys pf db rules cache ids).keeps w h
    run_call-Guarded (delete_blocked provider) w only h =
        (Keeps-delete_all_blocked pf db rules cache provider).keeps w h
    run_call-Guarded (set_status id s now) w only h =
        (Keeps-update_status pf db rules cache id s now only).keeps w h
    run_call-Guarded (read_keys threshold provider now) w only h =
        (Ensures-via_cache pf db rules cache threshold provider now).keeps w h
    run_call-Guarded (clean_up answer threshold now provider) w only h =
        (Keeps-delete_permanently_failed_keys pf google (Guarded pf db R G) (Keeps-exec_query pf db)
            (Keeps-update_key_metrics pf (Guarded-updates pf db rules)) answer threshold now
            provider).keeps
          w h

    pub run_calls-Guarded :
        (cs : List (Call T)) (w : World S C P)
        → All (Allowed pf R) cs
        → Guarded pf db R G w
        → Guarded pf db R G (run_calls cs w)
    unfolding run_calls
    run_calls-Guarded [] w only h = h
    run_calls-Guarded (c ∷ cs) w only h =
        run_calls-Guarded cs (run_call c w) only.1 (run_call-Guarded c w only.0 h)

  -- Whatever calls are made in whatever order, failing or not: each row keeps a success rate between
  -- 0.0 and 1.0 and a known status, and each cached list holds active keys of its provider alone.
  pub run_calls-Inv :
      (db : LawfulDb pf) (cache : LawfulCache pf) (cs : List (Call T)) (w : World S C P)
      → Inv pf db w
      → Inv pf db (run_calls cs w)
  run_calls-Inv db cache cs w h =
      run_calls-Guarded db cache (row_rules pf) cs w (All-Allowed pf cs) h
