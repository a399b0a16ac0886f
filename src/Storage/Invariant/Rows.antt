-- ===== src/Storage/Invariant/Rows.antt =====
-- The rows that each operation writes are valid rows, and the keys that it reads may serve.
use mathlib.Core.Path.{subst}
use thebalance.Prelude.{
  ℕ, ◌≡◌, refl, sym, ◌⊎◌, inl, inr, String, Bool, true, [], ◌∷◌, map, arith, eq_iff,
}
use thebalance.Prelude.Int.{ℤ, pos, negsuc, as_i32, as_i32-id}
use thebalance.Storage.Model.{Key, ApiKeyStatus, active, blocked, db_key_to_api_key}
use thebalance.Storage.Metrics.{metrics_update}
use thebalance.Storage.Metrics.Rate.{IsRate, next_success_rate-IsRate}
use thebalance.Storage.Cooldowns.{cooldown_update}
use thebalance.Storage.Admin.{new_row, status_text}
use thebalance.Storage.Platform.{Platform}
use thebalance.Storage.Platform.Binding.{
  bind_assignment, bind_condition, bind_row, provider_is, status_is,
}
use thebalance.Storage.Platform.Sql.{matches, assign_all}
use thebalance.Storage.Invariant.{IsValidRow, Serves}
use thebalance.Storage.Invariant.Rules.{Rules, AddsOnly, SetsOnly, updated}

-- The cast to the database's integers leaves a rate as it is.
as_i32-IsRate : (r : ℤ) → IsRate r → as_i32 r ≡ r
as_i32-IsRate (pos n) h = as_i32-id (pos n) (omega arith)
as_i32-IsRate (negsuc n) h = absurd (omega arith)

module _ {T : Type 0} where
  metrics_update-valid :
      (b : Bool) (latency now : ℤ) (k r : Key T)
      → IsValidRow k
      → IsValidRow r
      → IsValidRow (updated (metrics_update b latency now k) r)
  unfolding assign_all bind_assignment metrics_update
  metrics_update-valid b latency now k r v u =
      let q = next_success_rate-IsRate b k.success_rate v.rate in
      record { rate = subst IsRate (sym (as_i32-IsRate _ q)) q; known = u.known }

status_text-known : (s : ApiKeyStatus) → (status_text s ≡ "active") ⊎ (status_text s ≡ "blocked")
status_text-known active = inl refl
status_text-known blocked = inr refl

pub status-valid :
    {T : Type 0} (id : String) (new_status : ApiKeyStatus) (now : ℤ)
    → SetsOnly {T = T} IsValidRow id new_status now
unfolding assign_all bind_assignment
status-valid id new_status now r e u = record {
  rate = u.rate;
  known = status_text-known new_status;
}

module _ {S T C P : Type 0} (pf : Platform S T C P) where
  pub new_row-valid :
      (provider : String) (uuid : ℕ → String) (now : ℤ) → AddsOnly pf IsValidRow provider uuid now
  unfolding bind_row new_row
  new_row-valid provider uuid now n key = record { rate = omega arith; known = inl refl }

  row-Serves :
      (provider : String) (k : Key T)
      → IsValidRow k
      → matches (map bind_condition (provider_is provider ∷ status_is "active" ∷ [])) k ≡ true
      → Serves provider (db_key_to_api_key pf.json k)
  unfolding matches bind_condition db_key_to_api_key
  row-Serves provider k v m = record {
    provider_eq = ground (arith, eq_iff k.provider provider);
    is_active = ground arith;
    rate = v.rate;
  }

  -- An update of the coolings touches neither the rate nor the status.
  pub row_rules : Rules pf IsValidRow Serves
  unfolding assign_all bind_assignment cooldown_update
  row_rules = record {
    metrics = metrics_update-valid;
    cooling = λ k r coolings model now duration_secs u. record { rate = u.rate; known = u.known };
    ends = λ k r model duration_secs now later u. record { rate = u.rate; known = u.known };
    serves = row-Serves;
  }
