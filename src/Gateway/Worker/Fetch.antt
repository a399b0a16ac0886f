-- ===== src/Gateway/Worker/Fetch.antt =====
-- fetch of lib.rs: every request of the worker, raced against one timer.
use thebalance.Prelude.{ℕ, String, Bool, true, false, Option, none, some}
use thebalance.Prelude.Result.{Result, ok, err}
use thebalance.Prelude.Text.{parse_u64}

-- An answer is the router's own, or the one of the timer.
pub data Answer (R : Type 0) : Type 0 where
  routed : R → Answer R
  gateway_timeout : String → Answer R

-- The reply, and whether the requests on the way are aborted.
pub record Fetched (R : Type 0) : Type 0 where
  pub reply : Result String (Answer R)
  pub aborted : Bool

abbrev parsed_or_default : Option ℕ → ℕ
parsed_or_default none = 25000
parsed_or_default (some ms) = ms

-- The variable `OVERALL_TIMEOUT_MS`; `none` is not set.
unfoldable pub overall_timeout : Option String → ℕ
unfolding parse_u64
overall_timeout none = 25000
overall_timeout (some text) = parsed_or_default (parse_u64 text)

-- What `select` gives: the future that is ready first.
pub data Either (R : Type 0) : Type 0 where
  left : Result String R → Either R
  right : Either R

module _ {R : Type 0} where
  abbrev passed_on : Result String R → Result String (Answer R)
  passed_on (ok response) = ok (routed response)
  passed_on (err e) = err e

  -- The arms of `match result`.
  abbrev pub answer_race : Either R → Fetched R
  answer_race (left work_result) = record { reply = passed_on work_result; aborted = false }
  answer_race right = record { reply = ok (gateway_timeout "Request Timed Out"); aborted = true }

  -- `race ms` is how the race of the router against a timer of so many milliseconds ends.
  unfoldable pub fetch : (ℕ → Either R) → Option String → Fetched R
  unfolding overall_timeout
  fetch race var = answer_race (race (overall_timeout var))
