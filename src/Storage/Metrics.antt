-- ===== src/Storage/Metrics.antt =====
-- update_key_metrics of d1_storage.rs: the health columns after an attempt.
pub mod Rate
use thebalance.Prelude.{
  ℕ, suc, String, Bool, true, false, Option, none, some, List, [], ◌∷◌, if◌then◌else◌,
}
use thebalance.Prelude.Int.{ℤ, pos, ◌+ℤ◌, ◌*ℤ◌, div_ℤ, as_i64, add_i64}
use thebalance.Storage.Model.{Key}
use thebalance.Storage.Platform.{World, Platform, Action, pure, exec_first, exec_update, ◌>>=◌}
use thebalance.Storage.Platform.Binding.{
  Condition, id_is, Assignment, updated_at, latency_ms, success_rate, consecutive_failures,
  last_checked_at, last_succeeded_at,
}

-- The moving average, in thousandths; 1000 stands for 1.0.
unfoldable pub next_success_rate : Bool → ℤ → ℤ
unfolding as_i64 ◌+ℤ◌ ◌*ℤ◌ div_ℤ
next_success_rate true rate = div_ℤ (as_i64 (rate *ℤ 99 +ℤ pos 1000)) 100
next_success_rate false rate = div_ℤ (as_i64 (rate *ℤ 99)) 100

unfoldable pub next_failures : Bool → ℤ → ℤ
unfolding add_i64
next_failures true failures = pos 0
next_failures false failures = add_i64 failures (pos 1)

module _ {T : Type 0} where
  unfoldable pub metrics_update : Bool → ℤ → ℤ → Key T → List (Assignment T)
  unfolding next_success_rate next_failures
  metrics_update is_success latency now k =
      latency_ms latency
      ∷ success_rate (next_success_rate is_success k.success_rate)
      ∷ consecutive_failures (next_failures is_success k.consecutive_failures)
      ∷ last_checked_at now
      ∷ last_succeeded_at (if is_success then now else k.last_succeeded_at)
      ∷ updated_at now
      ∷ []

module _ {S T C P : Type 0} (pf : Platform S T C P) where
  abbrev pub update_found : Bool → ℤ → ℤ → String → Option (Key T) → Action (World S C P) (Unit {0})
  update_found is_success latency now key_id none = pure tt
  update_found is_success latency now key_id (some k) =
      exec_update pf (id_is key_id ∷ []) (metrics_update is_success latency now k)

  -- `now` is the time in seconds.
  unfoldable pub update_key_metrics : String → Bool → ℤ → ℤ → Action (World S C P) (Unit {0})
  unfolding metrics_update
  update_key_metrics key_id is_success latency now = do
    found ← exec_first pf (id_is key_id ∷ [])
    update_found is_success latency now key_id found
