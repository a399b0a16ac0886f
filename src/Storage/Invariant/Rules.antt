-- ===== src/Storage/Invariant/Rules.antt =====
-- What a storage operation asks of an invariant: the updates that it writes, and the keys that it
-- reads, in terms of single rows.
use thebalance.Prelude.{ℕ, ◌≡◌, String, Bool, true, List, [], ◌∷◌, map}
use thebalance.Prelude.Int.{ℤ}
use thebalance.Prelude.Assoc.{Assoc}
use thebalance.Storage.Model.{Key, ApiKey, ApiKeyStatus, ModelCooling, db_key_to_api_key}
use thebalance.Storage.Metrics.{metrics_update}
use thebalance.Storage.Cooldowns.{cooldown_update, ends_update}
use thebalance.Storage.Admin.{new_row, status_text}
use thebalance.Storage.Platform.{Platform}
use thebalance.Storage.Platform.Binding.{
  Assignment, provider_is, status_is, status, updated_at, bind_assignment, bind_condition, bind_row,
}
use thebalance.Storage.Platform.Sql.{matches, assign_all}

-- The row after an update statement has set its columns.
abbrev pub updated : {T : Type 0} → List (Assignment T) → Key T → Key T
updated assignments r = assign_all (map bind_assignment assignments) r

-- The rows of that id keep `R` when their status is set.
abbrev pub SetsOnly : {T : Type 0} → (Key T → Type 0) → String → ApiKeyStatus → ℤ → Type 0
SetsOnly {T} R id new_status now =
    (r : Key T)
    → r.id ≡ id
    → R r
    → R (updated (status (status_text new_status) ∷ updated_at now ∷ []) r)

module _ {S T C P : Type 0} (pf : Platform S T C P) where
  -- The rows that a call of `add_keys` would create have `R`.
  abbrev pub AddsOnly : (Key T → Type 0) → String → (ℕ → String) → ℤ → Type 0
  AddsOnly R provider uuid now =
      (n : ℕ) (key : String) → R (bind_row (new_row pf provider (uuid n) now key))

  pub record Rules (R : Key T → Type 0) (G : String → ApiKey → Type 0) : Type 0 where
    pub metrics :
        (b : Bool) (latency now : ℤ) (k r : Key T)
        → R k
        → R r
        → R (updated (metrics_update b latency now k) r)
    pub cooling :
        (k r : Key T) (coolings : Assoc ModelCooling) (model : String) (now duration_secs : ℕ)
        → R r
        → R (updated (cooldown_update pf k coolings model now duration_secs) r)
    pub ends :
        (k r : Key T) (model : String) (duration_secs now later : ℕ)
        → R r
        → R (updated (ends_update pf k model duration_secs now later) r)
    -- A row that an active query for the provider selects.
    pub serves :
        (provider : String) (k : Key T)
        → R k
        → matches (map bind_condition (provider_is provider ∷ status_is "active" ∷ [])) k ≡ true
        → G provider (db_key_to_api_key pf.json k)
