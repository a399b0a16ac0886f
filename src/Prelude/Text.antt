-- ===== src/Prelude/Text.antt =====
-- The functions of Rust's `str` that the sources call, over the characters of a native text.
use Prim.Native.Nat.{ℕ, zero, suc, ◌/◌, ◌%◌, ◌+◌, ◌-◌, ◌*◌, ◌^◌}
use Prim.Native.Char.{code}
use Prim.Native.String
use Prim.Native.String.{String, [], ◌∷◌}
use mathlib.Core.Path.{◌≡◌, refl}
use mathlib.Core.Bool.{Bool, true, false, ◌&&◌, ◌||◌}
use mathlib.Core.Option.{Option, none, some}
use mathlib.Core.List.{List}
use thebalance.Prelude.Int.{ℤ, pos, sub_ℕ}
use thebalance.Prelude.Tests.{ltb, leb, ◌==◌, if◌then◌else◌}

abbrev pub is_empty_text : String → Bool
is_empty_text [] = true
is_empty_text (c ∷ s) = false

-- `s.starts_with(p)`.
unfoldable pub starts_with : String → String → Bool
starts_with s [] = true
starts_with [] (d ∷ p) = false
starts_with (c ∷ s) (d ∷ p) = code c == code d && starts_with s p

-- `s.ends_with(p)`.
unfoldable pub ends_with : String → String → Bool
unfolding starts_with
ends_with [] p = is_empty_text p
ends_with (c ∷ s) p = (starts_with (c ∷ s) p && starts_with p (c ∷ s)) || ends_with s p

-- `s.contains(p)`.
unfoldable pub contains : String → String → Bool
unfolding starts_with
contains [] p = is_empty_text p
contains (c ∷ s) p = starts_with (c ∷ s) p || contains s p

-- `s.strip_prefix(p)`.
unfoldable pub strip_prefix : String → String → Option String
strip_prefix s [] = some s
strip_prefix [] (d ∷ p) = none
strip_prefix (c ∷ s) (d ∷ p) =
    let rest = strip_prefix s p in if code c == code d then rest else none

-- `s.to_lowercase()` on the ASCII letters; other characters stay.
lower : ℕ → ℕ
lower n = if leb b'A' n && leb n b'Z' then n + 32 else n

-- `s.to_lowercase().contains(p)` for a `p` of ASCII letters.
starts_with_lower : String → String → Bool
unfolding lower
starts_with_lower s [] = true
starts_with_lower [] (d ∷ p) = false
starts_with_lower (c ∷ s) (d ∷ p) = lower (code c) == code d && starts_with_lower s p

unfoldable pub lower_contains : String → String → Bool
unfolding starts_with_lower
lower_contains [] p = is_empty_text p
lower_contains (c ∷ s) p = starts_with_lower (c ∷ s) p || lower_contains s p

-- `s.eq_ignore_ascii_case(p)`.
unfoldable pub eq_ignore_case : String → String → Bool
unfolding lower
eq_ignore_case [] [] = true
eq_ignore_case [] (d ∷ p) = false
eq_ignore_case (c ∷ s) [] = false
eq_ignore_case (c ∷ s) (d ∷ p) = lower (code c) == lower (code d) && eq_ignore_case s p

-- `s.trim_end_matches(c)`, for one character.
unfoldable pub trim_end_matches : String → ℕ → String
trim_end_matches [] k = []
trim_end_matches (c ∷ s) k =
    let rest = trim_end_matches s k in if is_empty_text rest && code c == k then [] else c ∷ rest

-- `s.parse::<u64>()`: an optional `+`, then one digit or more, with no overflow.
is_digit : ℕ → Bool
is_digit n = leb b'0' n && leb n b'9'

digits_value : ℕ → String → Option ℕ
unfolding is_digit
digits_value acc [] = some acc
digits_value acc (c ∷ s) =
    let rest = digits_value (acc * 10 + (code c - b'0')) s in
    if is_digit (code c) then rest else none

bounded : Option ℕ → Option ℕ
bounded none = none
bounded (some n) = if ltb n (2 ^ 64) then some n else none

digits_u64 : String → Option ℕ
unfolding digits_value bounded
digits_u64 [] = none
digits_u64 (c ∷ s) = bounded (digits_value 0 (c ∷ s))

unfoldable pub parse_u64 : String → Option ℕ
unfolding digits_u64
parse_u64 [] = none
parse_u64 (c ∷ s) = if code c == b'+' then digits_u64 s else digits_u64 (c ∷ s)

-- `s.parse::<i64>()`: a minus too, and the bounds of `i64`.
signed_value : Option ℕ → Option ℤ
signed_value none = none
signed_value (some n) = if ltb n (2 ^ 63) then some (pos n) else none

negated_value : Option ℕ → Option ℤ
negated_value none = none
negated_value (some n) = if leb n (2 ^ 63) then some (sub_ℕ 0 n) else none

unfoldable pub parse_i64 : String → Option ℤ
unfolding parse_u64 digits_u64 signed_value negated_value
parse_i64 [] = none
parse_i64 (c ∷ s) =
    if code c == b'-' then negated_value (digits_u64 s) else signed_value (parse_u64 (c ∷ s))

-- Characters that `char::is_whitespace` accepts.
abbrev pub is_whitespace : ℕ → Bool
is_whitespace n =
    (leb 9 n && leb n 13)
    || n == 32
    || n == 0x85
    || n == 0xA0
    || n == 0x1680
    || (leb 0x2000 n && leb n 0x200A)
    || n == 0x2028
    || n == 0x2029
    || n == 0x202F
    || n == 0x205F
    || n == 0x3000

unfoldable pub trim_start : String → String
trim_start [] = []
trim_start (c ∷ s) = let rest = trim_start s in if is_whitespace (code c) then rest else c ∷ s

unfoldable pub trim_end : String → String
trim_end [] = []
trim_end (c ∷ s) =
    let rest = trim_end s in if is_empty_text rest && is_whitespace (code c) then [] else c ∷ rest

-- `s.trim()`.
unfoldable pub trim : String → String
unfolding trim_start trim_end
trim s = trim_end (trim_start s)

-- `format!("{}", n)`.
digit : ℕ → String
digit n =
    if n == 0
    then "0"
    else if n == 1
    then "1"
    else if n == 2
    then "2"
    else if n == 3
    then "3"
    else if n == 4
    then "4"
    else if n == 5
    then "5"
    else if n == 6
    then "6"
    else if n == 7
    then "7"
    else if n == 8
    then "8"
    else "9"

decimal_onto : ℕ → ℕ → String → String
unfolding digit
decimal_onto zero n acc = acc
decimal_onto (suc fuel) n acc =
    let more = decimal_onto fuel (n / 10) (String.◌++◌ (digit (n % 10)) acc) in
    if ltb n 10 then String.◌++◌ (digit n) acc else more

-- A number has no more digits than it counts, and one more round for 0.
unfoldable pub decimal : ℕ → String
unfolding decimal_onto
decimal n = decimal_onto (suc n) n ""

-- `s.split(is_separator)`: the part before the first separator, and the parts behind it.
unfoldable pub split_parts : (ℕ → Bool) → String → String × List String
split_parts is_separator [] = ([], List.[])
split_parts is_separator (c ∷ s) =
    let (part, rest) = split_parts is_separator s in
    if is_separator (code c) then ([], List.◌∷◌ part rest) else (c ∷ part, rest)

unfoldable pub split : (ℕ → Bool) → String → List String
unfolding split_parts
split is_separator s = let (part, rest) = split_parts is_separator s in List.◌∷◌ part rest

-- `parts.join(sep)`.
unfoldable pub join : String → List String → String
join sep List.[] = []
join sep (List.◌∷◌ x List.[]) = x
join sep (List.◌∷◌ x (List.◌∷◌ y xs)) = String.◌++◌ x (String.◌++◌ sep (join sep (List.◌∷◌ y xs)))

parse_u64_test : parse_u64 "+120" ≡ some 120
unfolding parse_u64
parse_u64_test = refl

trim_test : trim_end_matches "34ss" b's' ≡ "34"
unfolding trim_end_matches
trim_test = refl

split_test : split (λ c. c == b'/') "a//b" ≡ List.◌∷◌ "a" (List.◌∷◌ "" (List.◌∷◌ "b" List.[]))
unfolding split
split_test = refl

decimal_test : decimal 20540 ≡ "20540"
unfolding decimal
decimal_test = refl
