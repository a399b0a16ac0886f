-- ===== src/Storage/Health.antt =====
-- get_healthy_sorted_keys of d1_storage.rs: the circuit breaker, the health score and the order in
-- which the failover loop tries the keys.
pub mod Score
pub mod Order
use thebalance.Prelude.{
  ℕ, ◌-◌, String, Bool, true, Option, none, some, List, [], ◌∷◌, ltb, if◌then◌else◌, filter,
}
use thebalance.Prelude.Int.{ℤ, pos, ◌+ℤ◌, ◌-ℤ◌, ◌*ℤ◌, ltb_ℤ, leb_ℤ, as_i64}
use thebalance.Prelude.Text.{parse_i64}
use thebalance.Storage.Model.{ApiKey}

-- `env.var("RECOVERY_THRESHOLD")`, or 5.
abbrev or_five : Option ℤ → ℤ
or_five none = pos 5
or_five (some n) = n

unfoldable pub recovery_threshold : Option String → ℤ
unfolding parse_i64
recovery_threshold none = pos 5
recovery_threshold (some text) = or_five (parse_i64 text)

abbrev pub recovery_period_seconds : ℕ
recovery_period_seconds = 3600

-- The circuit breaker: a key with too many failures sits out for an hour behind its last check.
unfoldable pub is_allowed : ℤ → ℕ → ApiKey → Bool
is_allowed threshold now k =
    if ltb_ℤ k.consecutive_failures threshold
    then true
    else ltb recovery_period_seconds (now - k.last_checked_at)

-- A small bonus for a success in the last five minutes.
unfoldable pub recent_success_bonus : ℕ → ApiKey → ℤ
recent_success_bonus now k = if ltb (now - k.last_succeeded_at) 300 then pos 10 else pos 0

-- The closure of the same name; each step is one of `i64`, which wraps in the release build.
unfoldable pub calculate_health_score : ℕ → ApiKey → ℤ
unfolding recent_success_bonus
calculate_health_score now k =
    let latency_score = as_i64 (pos 10000 -ℤ k.latency_ms) in
    let failure_penalty = as_i64 (k.consecutive_failures *ℤ 50) in
    let with_success = as_i64 (latency_score +ℤ k.success_rate) in
    as_i64 (as_i64 (with_success -ℤ failure_penalty) +ℤ recent_success_bonus now k)

module _ {ℓ} {A : Type ℓ} (score : A → ℤ) where
  -- A stable sort, the highest score first: `sort_by(|a, b| score(b).cmp(&score(a)))`.
  unfoldable pub insert_sorted : A → List A → List A
  insert_sorted x [] = x ∷ []
  insert_sorted x (y ∷ ys) =
      let rest = insert_sorted x ys in if leb_ℤ (score y) (score x) then x ∷ (y ∷ ys) else y ∷ rest

  unfoldable pub sort_descending : List A → List A
  unfolding insert_sorted
  sort_descending [] = []
  sort_descending (x ∷ xs) = insert_sorted x (sort_descending xs)

-- What get_healthy_sorted_keys does with the active keys of the database.
unfoldable pub healthy_sorted : ℤ → ℕ → List ApiKey → List ApiKey
unfolding is_allowed sort_descending filter
healthy_sorted threshold now keys =
    sort_descending (calculate_health_score now) (filter (is_allowed threshold now) keys)
