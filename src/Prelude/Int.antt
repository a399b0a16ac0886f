-- ===== src/Prelude/Int.antt =====
-- Signed integers over the native numbers, with the casts between `i64`, `u64` and `i32`.
use Prim.Native.Nat.{ℕ, suc, ◌+◌, ◌-◌, ◌*◌, ◌/◌, ◌%◌, ◌^◌, ◌≤◌, ◌<◌}
use mathlib.Core.Path.{◌≡◌}
use mathlib.Core.Bool.{Bool}
use native.Mathlib.Omega.{arith}
use thebalance.Prelude.Tests.{ltb, leb, if◌then◌else◌}

-- `negsuc n` is -(n + 1).
pub data ℤ : Type 0 where
  pos : ℕ → ℤ
  negsuc : ℕ → ℤ

abbrev pub pos_part : ℤ → ℕ
pos_part (pos n) = n
pos_part (negsuc n) = 0

abbrev pub neg_part : ℤ → ℕ
neg_part (pos n) = 0
neg_part (negsuc n) = suc n

-- a - b, as an integer.
abbrev pub sub_ℕ : ℕ → ℕ → ℤ
sub_ℕ a b = if leb b a then pos (a - b) else negsuc (b - a - 1)

infixl 65 ◌+ℤ◌ ◌-ℤ◌
infixl 70 ◌*ℤ◌
infix 50 ◌≤ℤ◌
unfoldable pub ◌+ℤ◌ : ℤ → ℤ → ℤ
a +ℤ b = sub_ℕ (pos_part a + pos_part b) (neg_part a + neg_part b)

unfoldable pub ◌-ℤ◌ : ℤ → ℤ → ℤ
a -ℤ b = sub_ℕ (pos_part a + neg_part b) (neg_part a + pos_part b)

-- A product by a constant that is not negative.
unfoldable pub ◌*ℤ◌ : ℤ → ℕ → ℤ
a *ℤ k = sub_ℕ (pos_part a * k) (neg_part a * k)

-- Rust's `/` by a positive constant: it rounds towards zero.
unfoldable pub div_ℤ : ℤ → ℕ → ℤ
div_ℤ a k = sub_ℕ (pos_part a / k) (neg_part a / k)

abbrev pub ◌≤ℤ◌ : ℤ → ℤ → Type 0
a ≤ℤ b = pos_part a + neg_part b ≤ pos_part b + neg_part a

abbrev pub leb_ℤ : ℤ → ℤ → Bool
leb_ℤ a b = leb (pos_part a + neg_part b) (pos_part b + neg_part a)

abbrev pub ltb_ℤ : ℤ → ℤ → Bool
ltb_ℤ a b = ltb (pos_part a + neg_part b) (pos_part b + neg_part a)

-- The two's complement pattern of an integer in `w` bits (its residue modulo 2 ^ w), and the
-- signed integer that a pattern stands for: `x as iN` is `signed w (pattern_of w x)`.
unfoldable pub pattern_of : ℕ → ℤ → ℕ
pattern_of w (pos n) = n % 2 ^ w
pattern_of w (negsuc n) = 2 ^ w - 1 - n % 2 ^ w

unfoldable pub signed : ℕ → ℕ → ℤ
signed w b = if ltb b (2 ^ (w - 1)) then pos b else negsuc (2 ^ w - 1 - b)

unfoldable pub as_u64 : ℤ → ℕ
unfolding pattern_of
as_u64 z = pattern_of 64 z

unfoldable pub as_i64 : ℤ → ℤ
unfolding pattern_of signed
as_i64 z = signed 64 (pattern_of 64 z)

unfoldable pub as_i32 : ℤ → ℤ
unfolding pattern_of signed
as_i32 z = signed 32 (pattern_of 32 z)

-- Sums of `u64` and of `i64`, which wrap in the release build.
unfoldable pub add_u64 : ℕ → ℕ → ℕ
add_u64 a b = (a + b) % 2 ^ 64

unfoldable pub add_i64 : ℤ → ℤ → ℤ
unfolding as_i64 ◌+ℤ◌
add_i64 a b = as_i64 (a +ℤ b)

-- In its range a cast changes nothing.
abbrev pub InI32 : ℤ → Type 0
InI32 z = (pos_part z < 2 ^ 31) × (neg_part z ≤ 2 ^ 31)

pub as_i32-id : (z : ℤ) → InI32 z → as_i32 z ≡ z
unfolding as_i32
as_i32-id (pos n) h = ground arith
as_i32-id (negsuc n) h = ground arith

-- Whatever is cast to `i32` is in its range.
pub as_i32-InI32 : (z : ℤ) → InI32 (as_i32 z)
unfolding as_i32
as_i32-InI32 (pos n) = ground arith
as_i32-InI32 (negsuc n) = ground arith

-- In the range of `i64` the cast changes nothing.
pub as_i64-id : (z : ℤ) → pos_part z < 2 ^ 63 → neg_part z ≤ 2 ^ 63 → as_i64 z ≡ z
unfolding as_i64
as_i64-id (pos n) h g = ground arith
as_i64-id (negsuc n) h g = ground arith

pub as_i64-pos : (n : ℕ) → n < 2 ^ 63 → as_i64 (pos n) ≡ pos n
unfolding as_i64
as_i64-pos n h = ground arith

-- One lemma for each operation lets `omega` work with the operations shut, at any depth.
pub +ℤ_parts :
    (a b : ℤ)
    → pos_part (a +ℤ b) + neg_part a + neg_part b ≡ neg_part (a +ℤ b) + pos_part a + pos_part b
unfolding ◌+ℤ◌
+ℤ_parts a b = ground arith

pub -ℤ_parts :
    (a b : ℤ)
    → pos_part (a -ℤ b) + neg_part a + pos_part b ≡ neg_part (a -ℤ b) + pos_part a + neg_part b
unfolding ◌-ℤ◌
-ℤ_parts a b = ground arith

pub *ℤ_parts :
    (a : ℤ) (k : ℕ) → pos_part (a *ℤ k) + neg_part a * k ≡ neg_part (a *ℤ k) + pos_part a * k
unfolding ◌*ℤ◌
*ℤ_parts (pos n) k = ground arith
*ℤ_parts (negsuc n) k = ground arith

-- The parts of a result are no larger than those that it comes from.
pub +ℤ_bound :
    (a b : ℤ)
    → (pos_part (a +ℤ b) ≤ pos_part a + pos_part b) × (neg_part (a +ℤ b) ≤ neg_part a + neg_part b)
unfolding ◌+ℤ◌
+ℤ_bound a b = ground arith

pub -ℤ_bound :
    (a b : ℤ)
    → (pos_part (a -ℤ b) ≤ pos_part a + neg_part b) × (neg_part (a -ℤ b) ≤ neg_part a + pos_part b)
unfolding ◌-ℤ◌
-ℤ_bound a b = ground arith

pub *ℤ_bound :
    (a : ℤ) (k : ℕ) → (pos_part (a *ℤ k) ≤ pos_part a * k) × (neg_part (a *ℤ k) ≤ neg_part a * k)
unfolding ◌*ℤ◌
*ℤ_bound a k = ground arith

pub eq_of_parts : (a b : ℤ) → pos_part a + neg_part b ≡ pos_part b + neg_part a → a ≡ b
eq_of_parts a b h = ground arith

pub ruleset int_laws = (arith, +ℤ_parts, -ℤ_parts, *ℤ_parts, eq_of_parts)

pub ruleset int_bounds = (arith, +ℤ_bound, -ℤ_bound, *ℤ_bound)
