-- ===== src/Gateway/Failover/Timeouts.antt =====
-- The dynamic timeout of an attempt.
use thebalance.Prelude.{ℕ, ◌+◌, ◌≤◌, ◌<◌, ◌≡◌, ◌↔◌, ◌⊎◌, none, some, arith}
use thebalance.Gateway.Failover.{attempt_timeout}

-- The timeout that an attempt starts with is above 0 and at most the one for a key, and behind the time
-- elapsed it leaves half a second of the time for the whole request. It is the timeout of each request
-- of the attempt, of which there may be several.
pub attempt_timeout_bounds :
    (overall target elapsed t : ℕ)
    → attempt_timeout overall target elapsed ≡ some t
    → (0 < t) × (t ≤ target) × (elapsed + t + 500 ≤ overall)
unfolding attempt_timeout
attempt_timeout_bounds overall target elapsed t e = ground arith

-- The loop stops for lack of time exactly when half a second or less is left, or the timeout for a
-- key is set to 0.
pub attempt_timeout_stops :
    (overall target elapsed : ℕ)
    → (attempt_timeout overall target elapsed ≡ none) ↔ ((overall ≤ elapsed + 500) ⊎ (target ≡ 0))
unfolding attempt_timeout
attempt_timeout_stops overall target elapsed = (λ e. ground arith, λ h. ground arith)
