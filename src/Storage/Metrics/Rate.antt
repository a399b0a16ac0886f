-- ===== src/Storage/Metrics/Rate.antt =====
-- The moving average of the success rate, in thousandths.
use thebalance.Prelude.{◌⊎◌, inl, inr, ltb, Bool-cases}
use thebalance.Prelude.{
  ℕ, ◌+◌, ◌*◌, ◌/◌, ◌≤◌, ◌<◌, ◌≡◌, Bool, true, false, List, [], ◌∷◌, arith, refl,
}
use thebalance.Prelude.Int.{ℤ, pos, negsuc, pos_part, neg_part, as_i64-pos}
use thebalance.Storage.Metrics.{next_success_rate}

-- A rate between 0.0 and 1.0.
abbrev pub IsRate : ℤ → Type 0
IsRate r = (neg_part r ≡ 0) × (pos_part r ≤ 1000)

success_rate_lem : (n : ℕ) → n ≤ 1000 → next_success_rate true (pos n) ≡ pos ((n * 99 + 1000) / 100)
unfolding next_success_rate
success_rate_lem n h = ground (arith, as_i64-pos (n * 99 + 1000))

failure_rate_lem : (n : ℕ) → n ≤ 1000 → next_success_rate false (pos n) ≡ pos (n * 99 / 100)
unfolding next_success_rate
failure_rate_lem n h = ground (arith, as_i64-pos (n * 99))

-- Whatever the outcome, the rate stays between 0.0 and 1.0.
pub next_success_rate-IsRate : (b : Bool) (r : ℤ) → IsRate r → IsRate (next_success_rate b r)
next_success_rate-IsRate true (pos n) h = rw (success_rate_lem n h.1) (omega arith)
next_success_rate-IsRate false (pos n) h = rw (failure_rate_lem n h.1) (omega arith)
next_success_rate-IsRate true (negsuc n) h = absurd (omega arith)
next_success_rate-IsRate false (negsuc n) h = absurd (omega arith)

-- The rate after a sequence of outcomes.
abbrev pub rate_after : List Bool → ℤ → ℤ
rate_after [] r = r
rate_after (b ∷ bs) r = rate_after bs (next_success_rate b r)

-- At or below 901 the rate never gets above 901 again, however many attempts succeed: the division
-- rounds down, and 901 is where a success stops to raise the average.
pub rate_ceiling :
    (bs : List Bool) (n : ℕ) → n ≤ 901 → (m : ℕ) × (rate_after bs (pos n) ≡ pos m) × (m ≤ 901)
rate_ceiling [] n h = (n, refl, h)
rate_ceiling (true ∷ bs) n h =
    rw (success_rate_lem n (omega arith)) (rate_ceiling bs ((n * 99 + 1000) / 100) (omega arith))
rate_ceiling (false ∷ bs) n h =
    rw (failure_rate_lem n (omega arith)) (rate_ceiling bs (n * 99 / 100) (omega arith))

-- From 901 to 1000 a success leaves the rate as it is, and below 901 it raises it. A failure costs a
-- hundredth of the rate, rounded up.
rate_moves :
    (n : ℕ)
    → n ≤ 1000
    → (((901 ≤ n) × (next_success_rate true (pos n) ≡ pos n))
        ⊎ ((n < 901) × (n < pos_part (next_success_rate true (pos n)))))
      × (pos_part (next_success_rate false (pos n)) + (n + 99) / 100 ≡ n)
rate_moves n h =
    rw (success_rate_lem n h, failure_rate_lem n h)
      (
        elim (Bool-cases (ltb n 901)) [
          | inl low ↦ inr (ground arith, ground arith)
          | inr high ↦ inl (ground arith, ground arith)
        ],
        omega arith,
      )
