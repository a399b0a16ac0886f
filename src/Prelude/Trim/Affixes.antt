-- ===== src/Prelude/Trim/Affixes.antt =====
-- Trimming takes an affix off again, where the text within has none of its own.
use Prim.Native.Nat.{ℕ, zero, suc}
use Prim.Native.String
use Prim.Native.String.append
use Prim.Native.String.{String, [], ◌∷◌}
use mathlib.Core.Path.{◌≡◌, refl, ap, ◌∙◌}
use mathlib.Core.Bool.{Bool, true, ◌||◌}
use mathlib.Core.Option.{Option, none, some}
use native.Mathlib.Omega.{arith}
use thebalance.Prelude.Text.{starts_with, ends_with, strip_prefix}
use thebalance.Prelude.Trim.{
  one_more, strip_suffix, go_on, strip_all, trim_start_matches_text, trim_end_matches_text,
}

pub strip_prefix-append : (p s : String) → strip_prefix (String.◌++◌ p s) p ≡ some s
unfolding strip_prefix
strip_prefix-append [] s = rw (append.nil s) refl
strip_prefix-append (c ∷ p) s = rw (append.cons c p s) (ground (arith, strip_prefix-append p s))

pub starts_with-append : (p s : String) → starts_with (String.◌++◌ p s) p ≡ true
unfolding starts_with
starts_with-append [] s = refl
starts_with-append (c ∷ p) s = rw (append.cons c p s) (ground (arith, starts_with-append p s))

pub strip_suffix-append :
    (s p : String) → strip_suffix p p ≡ some [] → strip_suffix (String.◌++◌ s p) p ≡ some s
unfolding strip_suffix
strip_suffix-append [] p e = rw (append.nil p) e
strip_suffix-append (c ∷ s) p e =
    rw (append.cons c s p) (ap (one_more c (String.◌++◌ s p) p) (strip_suffix-append s p e))

or_true : (b : Bool) → b || true ≡ true
or_true b = ground arith

pub ends_with-append :
    (front s p : String) → ends_with s p ≡ true → ends_with (String.◌++◌ front s) p ≡ true
unfolding ends_with
ends_with-append [] s p e = rw (append.nil s) e
ends_with-append (c ∷ front) s p e =
    rw (append.cons c front s, ends_with-append front s p e) (or_true _)

module _ (strip : String → String → Option String) where
  strip_all-none : (fuel : ℕ) (s p : String) → strip s p ≡ none → strip_all strip fuel s p ≡ s
  unfolding strip_all
  strip_all-none zero s p e = refl
  strip_all-none (suc fuel) s p e = ap (go_on (λ rest. strip_all strip fuel rest p) s) e

  strip_all-once :
      (fuel : ℕ) (s p rest : String)
      → strip s p ≡ some rest
      → strip rest p ≡ none
      → strip_all strip (suc fuel) s p ≡ rest
  unfolding strip_all
  strip_all-once fuel s p rest e no_more =
      ap (go_on (λ x. strip_all strip fuel x p) s) e ∙ strip_all-none fuel rest p no_more

pub trim_start_matches_text-append :
    (p s : String) → strip_prefix s p ≡ none → trim_start_matches_text (String.◌++◌ p s) p ≡ s
unfolding trim_start_matches_text
trim_start_matches_text-append p s no_more =
    strip_all-once strip_prefix _ (String.◌++◌ p s) p s (strip_prefix-append p s) no_more

pub trim_end_matches_text-append :
    (s p : String)
    → strip_suffix p p ≡ some []
    → strip_suffix s p ≡ none
    → trim_end_matches_text (String.◌++◌ s p) p ≡ s
unfolding trim_end_matches_text
trim_end_matches_text-append s p own no_more =
    strip_all-once strip_suffix _ (String.◌++◌ s p) p s (strip_suffix-append s p own) no_more
