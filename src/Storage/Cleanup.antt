-- ===== src/Storage/Cleanup.antt =====
-- is_key_permanently_invalid and delete_permanently_failed_keys of d1_storage.rs, with request.rs.
pub mod Deletes
use thebalance.Prelude.{
  ℕ, String, Bool, true, false, Option, none, some, List, [], ◌∷◌, ◌==◌, if◌then◌else◌, str_eq,
  length,
}
use thebalance.Prelude.Int.{ℤ, pos, ◌*ℤ◌, as_i64}
use thebalance.Prelude.Result.{Result, ok, err}
use thebalance.Errors.{ErrorAnalysis, key_is_invalid, GoogleJson, analyze_provider_error}
use thebalance.Storage.Model.{Key, StorageError}
use thebalance.Storage.Platform.{World, Platform, Action, pure, exec_query, ◌>>=◌}
use thebalance.Storage.Platform.Binding.{
  Condition, provider_is, status_is, failures_above, matching,
}
use thebalance.Storage.Metrics.{update_key_metrics}

-- The answer to the test request: a status with a body (`none` if it cannot be read), or an error of
-- the network.
pub data TestAnswer : Type 0 where
  responded : ℕ → Option String → TestAnswer
  network_error : TestAnswer

abbrev is_invalid : ErrorAnalysis → Bool
is_invalid key_is_invalid = true
is_invalid _ = false

-- What an answer other than 200 says of the key.
unfoldable pub confirms_invalid : GoogleJson → String → ℕ → Option String → Bool
unfolding analyze_provider_error
confirms_invalid google provider status none = false
confirms_invalid google provider status (some body) =
    is_invalid (analyze_provider_error google provider status body)

module _ {S T C P : Type 0} (pf : Platform S T C P) (google : GoogleJson) where
  -- An error of the metrics update is logged and dropped.
  abbrev pub ignore : Action (World S C P) (Unit {0}) → Bool → Action (World S C P) Bool
  ignore m b w = (ok b, (m w).1)

  abbrev pub judge : Key T → ℤ → TestAnswer → Action (World S C P) Bool
  judge k now network_error = pure false
  judge k now (responded status body) =
      if status == 200
      then ignore (update_key_metrics pf k.id true (pos 0) now) false
      else pure (confirms_invalid google k.provider status body)

  -- `answer` is what the provider answers to the test of a key.
  unfoldable pub is_key_permanently_invalid :
      (Key T → TestAnswer) → ℤ → Key T → Action (World S C P) Bool
  unfolding confirms_invalid pure
  is_key_permanently_invalid answer now k =
      if str_eq k.provider "google-ai-studio" then judge k now (answer k) else pure false

  -- The tests run concurrently; each touches its own key's row, and here they run in order.
  unfoldable pub validate :
      (Key T → TestAnswer) → ℤ → List (Key T) → Action (World S C P) (List String)
  unfolding is_key_permanently_invalid
  validate answer now [] = pure []
  validate answer now (k ∷ ks) = do
    invalid ← is_key_permanently_invalid answer now k
    ids ← validate answer now ks
    pure (if invalid then k.id ∷ ids else ids)

  -- The call of `delete_keys` is commented out in the source: the count is all that comes of it.
  unfoldable pub delete_permanently_failed_keys :
      (Key T → TestAnswer) → ℤ → ℤ → String → Action (World S C P) ℕ
  unfolding validate as_i64 ◌*ℤ◌
  delete_permanently_failed_keys answer threshold now provider = do
    candidates ← exec_query pf (
        matching (
          provider_is provider
          ∷ status_is "active"
          ∷ failures_above (as_i64 (threshold *ℤ 10))
          ∷ []))
    ids_to_delete ← validate answer now candidates
    pure (length ids_to_delete)
