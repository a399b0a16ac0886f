-- ===== src/Gateway/Retry/Outcome.antt =====
-- execute_request_with_retry against its specification: the first attempt that settles the matter
-- decides, and no more attempts are made than allowed.
use mathlib.Core.Path.{subst}
use native.Mathlib.Omega.{pow_step}
use native.Mathlib.Nat.{pow-le-pow_right}
use thebalance.Prelude.{
  sym, ap, ℕ, zero, suc, ◌+◌, ◌≤◌, ◌<◌, max, ◌≡◌, refl, ◌⊎◌, inl, inr, String, true, false, ◌&&◌,
  Option, some, [], ◌∷◌, ltb, arith, length, List, ◌*◌, ◌^◌, ◌%◌,
}
use thebalance.Errors.{GoogleJson}
use thebalance.Gateway.Retry.{
  FetchOutcome, Executed, delay_millis, add_delay, round, retry_loop, execute_request_with_retry,
}
use thebalance.Gateway.Retry.Rounds.{is_retryable, conclusion, round_retry, round_done}

module _ (google : GoogleJson) (provider : String) (max_attempts timeout_ms : ℕ)
    (fetch : ℕ → FetchOutcome) (random : ℕ → ℕ) where
  abbrev total : List ℕ → ℕ
  total [] = 0
  total (d ∷ ds) = d + total ds

  -- The pauses before the requests from `first` on up to `n` in milliseconds: 400 * 2^i behind request
  -- `i`, and at most 99 more each.
  pub record IsBackoff (first n : ℕ) (delays : List ℕ) : Type 0 where
    pub count : first + length delays ≡ n
    pub at_least : 400 * 2 ^ n ≤ total delays + 400 * 2 ^ first
    pub at_most : total delays + 400 * 2 ^ first ≤ 400 * 2 ^ n + 99 * length delays

  plus_one : (n : ℕ) → 2 ^ (n + 1) ≡ 2 ^ suc n
  plus_one n = ap (λ i. 2 ^ i) (omega arith)

  small_power : (n : ℕ) → n ≤ 50 → 2 ^ n ≤ 2 ^ 50
  small_power n h = pow-le-pow_right (omega arith) h

  delay_millis-exact :
      (first random : ℕ)
      → first < 50
      → delay_millis (suc first) random ≡ 400 * 2 ^ first + random % 100
  unfolding delay_millis
  delay_millis-exact first random h =
      let e : 2 ^ (suc first + 1) ≡ 4 * 2 ^ first =
        omega (arith, plus_one (suc first), pow_step 2 (suc first), pow_step 2 first) in
      rw e (omega (arith, small_power first (omega arith)))

  after_delay :
      (first n random : ℕ) (delays : List ℕ)
      → first < 50
      → IsBackoff (suc first) n delays
      → IsBackoff first n (delay_millis (suc first) random ∷ delays)
  after_delay first n random delays small b = record {
    count = (let p = b.count in omega arith);
    at_least =
        (let p = b.at_least in
          omega (arith, pow_step 2 first, delay_millis-exact first random small));
    at_most =
        (let p = b.at_most in
          omega (arith, pow_step 2 first, delay_millis-exact first random small));
  }

  -- `e` is what request `n` comes to, after the pauses from `first` on.
  pub record IsResultOf (first n : ℕ) (e : Executed) : Type 0 where
    pub result_eq : e.result ≡ conclusion google provider timeout_ms (fetch n)
    pub pauses : IsBackoff first n e.delays

  unfoldable pub Returns : ℕ → ℕ → Option Executed → Type 0
  Returns first n r = (e : Executed) × (r ≡ some e) × IsResultOf first n e

  -- Request `n` ends the loop.
  unfoldable pub Settles : ℕ → Type 0
  Settles n = (is_retryable (fetch n) && ltb (n + 1) max_attempts) ≡ false

  after_pause :
      (first n random : ℕ) (r : Option Executed)
      → first < 50
      → Returns (suc first) n r
      → Returns first n (add_delay (delay_millis (suc first) random) r)
  unfolding Returns
  after_pause first n random r small (e, h, of) = (
    record e { delays = delay_millis (suc first) random ∷ e.delays },
    ap (add_delay (delay_millis (suc first) random)) h,
    record {
      result_eq = of.result_eq;
      pauses = after_delay first n random e.delays small of.pauses;
    },
  )

  loop_stops :
      (fuel n : ℕ)
      → Settles n
      → Returns n n (retry_loop google provider max_attempts timeout_ms fetch random (suc fuel) n)
  unfolding retry_loop Returns Settles
  loop_stops fuel n last = (
    record { result = conclusion google provider timeout_ms (fetch n); delays = [] },
    round_done google provider timeout_ms (fetch n) (ltb (n + 1) max_attempts) _ last,
    record {
      result_eq = refl;
      pauses = record { count = omega arith; at_least = omega arith; at_most = omega arith };
    },
  )

  same_or_before : (a b : ℕ) → a ≤ b → (a ≡ b) ⊎ (a < b)
  same_or_before a b h = ground arith

  may_repeat :
      (first n : ℕ) → first < n → (n ≡ 0) ⊎ (n < max_attempts) → ltb (first + 1) max_attempts ≡ true
  may_repeat first n lt allowed = ground arith

  round_retries :
      (first n : ℕ)
      → first < n
      → ((m : ℕ) → m < n → is_retryable (fetch m) ≡ true)
      → (n ≡ 0) ⊎ (n < max_attempts)
      → (next : Option Executed)
      → round google provider timeout_ms (ltb (first + 1) max_attempts) (fetch first) next ≡ next
  round_retries first n lt before allowed next =
      subst (λ b. round google provider timeout_ms b (fetch first) next ≡ next)
        (sym (may_repeat first n lt allowed))
        (round_retry google provider timeout_ms (fetch first) next (before first lt))

  loop_decides :
      (fuel first n : ℕ)
      → n < first + fuel
      → first ≤ n
      → ((m : ℕ) → m < n → is_retryable (fetch m) ≡ true)
      → Settles n
      → (n ≡ 0) ⊎ (n < max_attempts)
      → max_attempts ≤ 50
      → Returns first n (retry_loop google provider max_attempts timeout_ms fetch random fuel first)
  unfolding retry_loop Returns Settles
  loop_decides zero first n f l before last allowed small = absurd (omega arith)
  loop_decides (suc fuel) first n f l before last allowed small = elim (same_or_before first n l) [
    | inl same ↦
        subst
          (λ m.
            Returns first m
              (retry_loop google provider max_attempts timeout_ms fetch random (suc fuel) first))
          same (loop_stops fuel first (subst Settles (sym same) last))
    | inr lt ↦
        subst (Returns first n)
          (sym (
            round_retries first n lt before allowed (
              add_delay (delay_millis (suc first) (random first)) (
                retry_loop google provider max_attempts timeout_ms fetch random fuel (suc first)))))
          (after_pause first n _ _ (ground arith)
            (loop_decides fuel (suc first) n (omega arith) lt before last allowed small))
  ]

  -- The first attempt that settles the matter decides: with at most 50 attempts allowed (the caller
  -- allows 3), if the attempts before attempt `n` may be repeated, attempt `n` may not or is the last
  -- one, and it is within those allowed, then the call returns what attempt `n` comes to, after `n`
  -- pauses, which take 400 * (2^n - 1) milliseconds together and at most 99 more for each.
  pub execute_request_with_retry-first :
      (n : ℕ)
      → ((m : ℕ) → m < n → is_retryable (fetch m) ≡ true)
      → Settles n
      → (n ≡ 0) ⊎ (n < max_attempts)
      → max_attempts ≤ 50
      → Returns 0 n
          (execute_request_with_retry google provider max_attempts timeout_ms fetch random)
  unfolding execute_request_with_retry Returns Settles
  execute_request_with_retry-first n before last allowed small =
      loop_decides (suc max_attempts) 0 n (ground arith) (omega arith) before last allowed small

  Decides : ℕ → Type 0
  Decides n =
      ((m : ℕ) → m < n → is_retryable (fetch m) ≡ true) × Settles n × ((n ≡ 0) ⊎ (n < max_attempts))

  before_next :
      (first : ℕ)
      → ((m : ℕ) → m < first → is_retryable (fetch m) ≡ true)
      → is_retryable (fetch first) ≡ true
      → (m : ℕ) → m < suc first
      → is_retryable (fetch m) ≡ true
  before_next first before here m l = elim (same_or_before m first (omega arith)) [
    | inl same ↦ subst (λ i. is_retryable (fetch i) ≡ true) (sym same) here
    | inr lt ↦ before m lt
  ]

  settled_or_next :
      (first : ℕ)
      → Settles first ⊎ ((is_retryable (fetch first) ≡ true) × (suc first < max_attempts))
  unfolding Settles
  settled_or_next first = ground arith

  first_settling :
      (fuel first : ℕ)
      → max_attempts ≤ first + fuel
      → ((m : ℕ) → m < first → is_retryable (fetch m) ≡ true)
      → (first ≡ 0) ⊎ (first < max_attempts)
      → (n : ℕ) × Decides n
  unfolding Decides
  first_settling zero first enough before allowed = elim (settled_or_next first) [
    | inl settles ↦ (first, (before, settles, allowed))
    | inr (here, more) ↦ absurd (omega arith)
  ]
  first_settling (suc fuel) first enough before allowed = elim (settled_or_next first) [
    | inl settles ↦ (first, (before, settles, allowed))
    | inr (here, more) ↦
        first_settling fuel (suc first) (omega arith) (before_next first before here) (inr more)
  ]

  within : (n : ℕ) → (n ≡ 0) ⊎ (n < max_attempts) → n + 1 ≤ max 1 max_attempts
  within n allowed = ground arith

  -- With at most 50 attempts allowed (the caller allows 3), the call always returns, after at least
  -- one attempt and at most `max_attempts`, or one if that is 0: it returns what its last attempt comes
  -- to, after as many pauses as there were attempts before that one, `n`; the pauses take
  -- 400 * (2^n - 1) milliseconds together and at most 99 more for each.
  pub execute_request_with_retry-Returns :
      max_attempts ≤ 50
      → (n : ℕ) × (n + 1 ≤ max 1 max_attempts)
        × Returns 0 n
            (execute_request_with_retry google provider max_attempts timeout_ms fetch random)
  unfolding Decides
  execute_request_with_retry-Returns small =
      let found =
        first_settling max_attempts 0 (omega arith) (λ m l. absurd (omega arith)) (inl refl) in
      let (n, decides) = found in
      (
        n,
        within n decides.2,
        execute_request_with_retry-first n decides.0 decides.1 decides.2 small,
      )
