-- ===== src/Prelude/Trim.antt =====
-- `trim_start_matches` and `trim_end_matches` of Rust's `str`, for a text.
pub mod Affixes
use Prim.Native.Nat.{ℕ, zero, suc}
use Prim.Native.String.{String, [], ◌∷◌}
use Prim.Native.Char.{Char}
use mathlib.Core.Path.{◌≡◌, refl}
use mathlib.Core.Bool.{◌&&◌}
use mathlib.Core.Option.{Option, none, some}
use thebalance.Prelude.Tests.{if◌then◌else◌}
use thebalance.Prelude.Text.{is_empty_text, starts_with, strip_prefix}

-- `s.strip_suffix(p)`.
abbrev one_more : Char → String → String → Option String → Option String
one_more c s p (some rest) = some (c ∷ rest)
one_more c s p none = if starts_with (c ∷ s) p && starts_with p (c ∷ s) then some [] else none

unfoldable pub strip_suffix : String → String → Option String
unfolding starts_with
strip_suffix [] p = if is_empty_text p then some [] else none
strip_suffix (c ∷ s) p = one_more c s p (strip_suffix s p)

text_length : String → ℕ
text_length [] = 0
text_length (c ∷ s) = suc (text_length s)

abbrev pub go_on : (String → String) → String → Option String → String
go_on next s none = s
go_on next s (some rest) = next rest

-- Each round takes a copy of the pattern away, which is not empty, so the length is fuel enough.
strip_all : (String → String → Option String) → ℕ → String → String → String
strip_all strip zero s p = s
strip_all strip (suc fuel) s p = go_on (λ rest. strip_all strip fuel rest p) s (strip s p)

unfoldable pub trim_start_matches_text : String → String → String
unfolding strip_all strip_prefix text_length
trim_start_matches_text s p = strip_all strip_prefix (suc (text_length s)) s p

unfoldable pub trim_end_matches_text : String → String → String
unfolding strip_all strip_suffix text_length
trim_end_matches_text s p = strip_all strip_suffix (suc (text_length s)) s p

trims : trim_end_matches_text "/keys/a/status/status" "/status" ≡ "/keys/a"
unfolding trim_end_matches_text
trims = refl

trims_start : trim_start_matches_text "/keys//keys/a" "/keys/" ≡ "a"
unfolding trim_start_matches_text
trims_start = refl
