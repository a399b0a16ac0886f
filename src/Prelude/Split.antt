-- ===== src/Prelude/Split.antt =====
-- Texts that are split, trimmed and joined again.
use Prim.Native.Nat.{ℕ}
use Prim.Native.String
use Prim.Native.String.append
use Prim.Native.String.{String}
use Prim.Native.Char.{Char, code}
use mathlib.Core.Path.{◌≡◌, refl, ap, ◌∙◌}
use mathlib.Core.Logic.{inl, inr}
use mathlib.Core.Bool.{Bool, true, false, not, ◌&&◌}
use mathlib.Core.List.{List, [], ◌∷◌}
use native.Mathlib.Omega.{arith}
use thebalance.Prelude.Tests.{Bool-cases}
use thebalance.Prelude.Lists.{All}
use thebalance.Prelude.Text.{
  is_whitespace, is_empty_text, trim_start, trim_end, trim, split_parts, split, join,
}

unfoldable pub lacks : (ℕ → Bool) → String → Bool
lacks p String.[] = true
lacks p (String.◌∷◌ c s) = not (p (code c)) && lacks p s

both_true : (a b : Bool) → not a && b ≡ true → (a ≡ false) × (b ≡ true)
both_true a b h = ground arith

trim_end-twice : (s : String) → trim_end (trim_end s) ≡ trim_end s
unfolding trim_end
trim_end-twice String.[] = refl
trim_end-twice (String.◌∷◌ c s) =
    elim (Bool-cases (is_empty_text (trim_end s) && is_whitespace (code c))) [
      | inl gone ↦ rw gone refl
      | inr kept ↦ rw (kept, trim_end-twice s, kept) refl
    ]

seen_start :
    (c : Char) (s : String)
    → is_whitespace (code c) ≡ false
    → trim_start (trim_end (String.◌∷◌ c s)) ≡ trim_end (String.◌∷◌ c s)
unfolding trim_start trim_end
seen_start c s seen = elim (Bool-cases (is_empty_text (trim_end s) && is_whitespace (code c))) [
  | inl gone ↦ rw gone refl
  | inr kept ↦ rw (kept, seen) refl
]

trim_start-between : (s : String) → trim_start (trim_end (trim_start s)) ≡ trim_end (trim_start s)
unfolding trim_start trim_end
trim_start-between String.[] = refl
trim_start-between (String.◌∷◌ c s) = elim (Bool-cases (is_whitespace (code c))) [
  | inl blank ↦ rw blank (trim_start-between s)
  | inr seen ↦ rw seen (seen_start c s seen)
]

pub trim-twice : (s : String) → trim (trim s) ≡ trim s
unfolding trim
trim-twice s = ap trim_end (trim_start-between s) ∙ trim_end-twice (trim_start s)

module _ (p : ℕ → Bool) where
  lacks-trim_start : (s : String) → lacks p s ≡ true → lacks p (trim_start s) ≡ true
  unfolding lacks trim_start
  lacks-trim_start String.[] h = refl
  lacks-trim_start (String.◌∷◌ c s) h = ground (arith, lacks-trim_start s)

  lacks-trim_end : (s : String) → lacks p s ≡ true → lacks p (trim_end s) ≡ true
  unfolding lacks trim_end
  lacks-trim_end String.[] h = refl
  lacks-trim_end (String.◌∷◌ c s) h =
      let (other, rest) = both_true (p (code c)) (lacks p s) h in
      elim (Bool-cases (is_empty_text (trim_end s) && is_whitespace (code c))) [
        | inl gone ↦ rw gone refl
        | inr kept ↦ rw (kept, other) (lacks-trim_end s rest)
      ]

  pub lacks-trim : (s : String) → lacks p s ≡ true → lacks p (trim s) ≡ true
  unfolding trim
  lacks-trim s h = lacks-trim_end (trim_start s) (lacks-trim_start s h)

  -- The parts hold no separator.
  split_parts-lacks :
      (s : String)
      → (lacks p (split_parts p s).0 ≡ true) × All (λ x. lacks p x ≡ true) (split_parts p s).1
  unfolding split_parts lacks
  split_parts-lacks String.[] = (refl, tt)
  split_parts-lacks (String.◌∷◌ c s) =
      let (part, rest) = split_parts-lacks s in
      elim (Bool-cases (p (code c))) [
        | inl ends ↦ rw ends (refl, (part, rest))
        | inr goes_on ↦ rw (goes_on, goes_on) (part, rest)
      ]

  pub split-lacks : (s : String) → All (λ x. lacks p x ≡ true) (split p s)
  unfolding split
  split-lacks s = split_parts-lacks s

  split_parts-whole : (s : String) → lacks p s ≡ true → split_parts p s ≡ (s, [])
  unfolding split_parts lacks
  split_parts-whole String.[] h = refl
  split_parts-whole (String.◌∷◌ c s) h =
      let (other, rest) = both_true (p (code c)) (lacks p s) h in
      rw (other, split_parts-whole s rest) refl

  split_parts-at :
      (s : String) (c : Char) (t : String)
      → lacks p s ≡ true
      → p (code c) ≡ true
      → split_parts p (String.◌++◌ s (String.◌∷◌ c t)) ≡ (s, split p t)
  unfolding split_parts split lacks
  split_parts-at String.[] c t h e = rw (append.nil (String.◌∷◌ c t), e) refl
  split_parts-at (String.◌∷◌ d s) c t h e =
      let (other, rest) = both_true (p (code d)) (lacks p s) h in
      rw (append.cons d s (String.◌∷◌ c t), other, split_parts-at s c t rest e) refl

  -- What is joined with a separator is split into its parts again.
  pub split-join :
      (c : Char) (k : String) (ks : List String)
      → p (code c) ≡ true
      → All (λ x. lacks p x ≡ true) (k ∷ ks)
      → split p (join (String.◌∷◌ c String.[]) (k ∷ ks)) ≡ k ∷ ks
  unfolding split join
  split-join c k [] e (h, hs) = ap (λ r. r.0 ∷ r.1) (split_parts-whole k h)
  split-join c k (k' ∷ ks) e (h, hs) =
      let behind = join (String.◌∷◌ c String.[]) (k' ∷ ks) in
      ap (λ x. split p (String.◌++◌ k x)) (append.cons c String.[] behind)
      ∙ ap (λ x. split p (String.◌++◌ k (String.◌∷◌ c x))) (append.nil behind)
      ∙ ap (λ r. r.0 ∷ r.1) (split_parts-at k c behind h e)
      ∙ ap (λ rest. k ∷ rest) (split-join c k' ks e hs)
