-- ===== src/Storage/Health/Score.antt =====
-- calculate_health_score: the sum fits its type, and it moves the right way with each metric.
use thebalance.Prelude.{refl, ℕ, ◌-◌, ◌^◌, ◌≤◌, ◌<◌, ◌≡◌, arith, ltb, if◌then◌else◌}
use thebalance.Prelude.Int.{
  ℤ, pos, ◌+ℤ◌, ◌-ℤ◌, ◌*ℤ◌, pos_part, neg_part, ◌≤ℤ◌, InI32, as_i64, as_i64-id, int_laws,
  int_bounds,
}
use thebalance.Storage.Model.{ApiKey}
use thebalance.Storage.Health.{recent_success_bonus, calculate_health_score}

-- The metrics of a key, as the database holds them, fit `i32`.
pub record HasSmallMetrics (k : ApiKey) : Type 0 where
  pub latency : InI32 k.latency_ms
  pub rate : InI32 k.success_rate
  pub failures : InI32 k.consecutive_failures

-- 10 for a success within the last 300 seconds.
unfoldable bonus : ℕ → ApiKey → ℤ
bonus now k = if ltb (now - k.last_succeeded_at) 300 then pos 10 else pos 0

-- The sum over all integers: 10000 less the latency, the success rate in thousandths, 50 off for each
-- failure, and the bonus.
unfoldable pub exact_score : ℕ → ApiKey → ℤ
unfolding bonus
exact_score now k =
    pos 10000 -ℤ k.latency_ms +ℤ k.success_rate -ℤ k.consecutive_failures *ℤ 50 +ℤ bonus now k

-- `j` is at least as fast, as reliable and as recently successful as `k`, with no more failures.
pub record IsHealthier (now : ℕ) (j k : ApiKey) : Type 0 where
  pub latency : j.latency_ms ≤ℤ k.latency_ms
  pub rate : k.success_rate ≤ℤ j.success_rate
  pub failures : j.consecutive_failures ≤ℤ k.consecutive_failures
  pub recent : now - j.last_succeeded_at ≤ now - k.last_succeeded_at

bonus_bound : (now : ℕ) (k : ApiKey) → (pos_part (bonus now k) ≤ 10) × (neg_part (bonus now k) ≡ 0)
unfolding bonus
bonus_bound now k = ground arith

bonus_mono :
    (now : ℕ) (j k : ApiKey)
    → now - j.last_succeeded_at ≤ now - k.last_succeeded_at
    → bonus now k ≤ℤ bonus now j
unfolding bonus
bonus_mono now j k h = ground arith

same_bonus : (now : ℕ) (k : ApiKey) → recent_success_bonus now k ≡ bonus now k
unfolding recent_success_bonus bonus
same_bonus now k = refl

-- A sum within these bounds is not changed by the cast.
fits : (z : ℤ) → (pos_part z < 2 ^ 63) × (neg_part z ≤ 2 ^ 63) → as_i64 z ≡ z
fits z h = as_i64-id z h.0 h.1

pub score_exact :
    (now : ℕ) (k : ApiKey) → HasSmallMetrics k → calculate_health_score now k ≡ exact_score now k
unfolding calculate_health_score exact_score
score_exact now k h =
    let latency = pos 10000 -ℤ k.latency_ms in
    let penalty = k.consecutive_failures *ℤ 50 in
    let success = latency +ℤ k.success_rate in
    let less = success -ℤ penalty in
    let bound = bonus_bound now k in
    rw
      (
        fits latency (omega (int_bounds, h.latency)),
        fits penalty (omega (int_bounds, h.failures)),
        fits success (omega (int_bounds, h.latency, h.rate)),
        fits less (omega (int_bounds, h.latency, h.rate, h.failures)),
        same_bonus now k,
      )
      (fits (less +ℤ bonus now k) (omega (int_bounds, h.latency, h.rate, h.failures, bound)))

exact_mono : (now : ℕ) (j k : ApiKey) → IsHealthier now j k → exact_score now k ≤ℤ exact_score now j
unfolding exact_score
exact_mono now j k h = omega (int_laws, bonus_mono now j k h.recent)

-- A key that is no worse in each metric scores no less.
score_mono :
    (now : ℕ) (j k : ApiKey)
    → HasSmallMetrics j
    → HasSmallMetrics k
    → IsHealthier now j k
    → calculate_health_score now k ≤ℤ calculate_health_score now j
score_mono now j k sj sk h = rw (score_exact now j sj, score_exact now k sk) (exact_mono now j k h)
