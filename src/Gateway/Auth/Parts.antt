-- ===== src/Gateway/Auth/Parts.antt =====
-- How a provider and a model are read of a text with slashes.
use Prim.Native.Char.{Char, code}
use Prim.Native.String
use Prim.Native.String.append
use Prim.Native.String.{[], ◌∷◌}
use text.Mathlib.TextEquality.{Char-path}
use mathlib.Core.List
use thebalance.Prelude.{
  ◌≡◌, refl, ap, ◌∙◌, inl, inr, String, Bool, true, false, not, ◌&&◌, none, some, ◌==◌, arith,
  Bool-cases,
}
use thebalance.Prelude.Result.{ok, err}
use thebalance.Prelude.Text.{split_parts, split, join}
use thebalance.Gateway.Auth.{is_slash, extract_provider_and_model}

-- The text has no slash.
unfoldable pub lacks_slash : String → Bool
lacks_slash [] = true
lacks_slash (c ∷ s) = not (is_slash (code c)) && lacks_slash s

-- `a/b`.
abbrev pub slashed : String → String → String
slashed a b = String.◌++◌ a (String.◌++◌ "/" b)

abbrev slash : Char
slash = "/"

slash_first : (s : String) → String.◌++◌ "/" s ≡ slash ∷ s
slash_first s = append.cons slash [] s ∙ ap (λ x. slash ∷ x) (append.nil s)

lacks_tail : (b rest : Bool) → not b && rest ≡ true → (b ≡ false) × (rest ≡ true)
lacks_tail true rest e = cc
lacks_tail false rest e = (refl, e)

split_parts_lem :
    (c : Char) (s part : String) (rest : List.List String)
    → (code c == b'/') ≡ false
    → split_parts is_slash s ≡ (part, rest)
    → split_parts is_slash (c ∷ s) ≡ (c ∷ part, rest)
unfolding split_parts
split_parts_lem c s part rest other e = rw (other, e) refl

split_parts-slashed :
    (p s : String)
    → lacks_slash p ≡ true
    → split_parts is_slash (slashed p s) ≡ (p, split is_slash s)
unfolding split_parts split lacks_slash
split_parts-slashed [] s e = rw (append.nil (String.◌++◌ "/" s), slash_first s) refl
split_parts-slashed (c ∷ p) s e =
    let (other, lacks) = lacks_tail (code c == b'/') (lacks_slash p) e in
    rw (append.cons c p (String.◌++◌ "/" s))
      (split_parts_lem c (slashed p s) _ _ other (split_parts-slashed p s lacks))

split_parts-lacks_slash :
    (p : String) → lacks_slash p ≡ true → split_parts is_slash p ≡ (p, List.[])
unfolding split_parts lacks_slash
split_parts-lacks_slash [] e = refl
split_parts-lacks_slash (c ∷ p) e =
    let (other, lacks) = lacks_tail (code c == b'/') (lacks_slash p) e in
    split_parts_lem c p _ _ other (split_parts-lacks_slash p lacks)

join_cons :
    (c : Char) (part : String) (rest : List.List String)
    → join "/" (List.◌∷◌ (c ∷ part) rest) ≡ c ∷ join "/" (List.◌∷◌ part rest)
unfolding join
join_cons c part List.[] = refl
join_cons c part (List.◌∷◌ y ys) = append.cons c part _

join-split : (s : String) → join "/" (split is_slash s) ≡ s
unfolding join split split_parts
join-split [] = refl
join-split (c ∷ s) = elim (Bool-cases (code c == b'/')) [
  | inl same ↦ rw same (
      append.nil _
      ∙ slash_first _
      ∙ ap (λ x. slash ∷ x) (join-split s)
      ∙ ap (λ d. d ∷ s) (Char-path slash c (ground arith)))
  | inr other ↦ rw other (join_cons c _ _ ∙ ap (λ x. c ∷ x) (join-split s))
]

-- With a provider and a model that have no slash of their own: the field `model` of a body gives the
-- two, whether more parts follow or not; without such a field the path gives the provider and all that
-- follows it, slashes included. The path decides, too, where the field has no slash, and a request
-- where neither has one is refused.
pub extract_provider_and_model-parts :
    (provider model more path : String)
    → lacks_slash provider ≡ true
    → lacks_slash model ≡ true
    → (extract_provider_and_model (some (slashed provider model)) path ≡ ok (provider, model))
      × (extract_provider_and_model (some (slashed provider (slashed model more))) path
          ≡ ok (provider, model))
      × (extract_provider_and_model none (slashed provider more) ≡ ok (provider, more))
      × (extract_provider_and_model (some model) (slashed provider more) ≡ ok (provider, more))
      × (extract_provider_and_model (some model) provider
          ≡ err "Could not determine provider and model from request.")
unfolding extract_provider_and_model split
extract_provider_and_model-parts provider model more path p m =
    let whole = join-split more in
    (
      rw (split_parts-slashed provider model p, split_parts-lacks_slash model m) refl,
      rw (split_parts-slashed provider (slashed model more) p, split_parts-slashed model more m)
          refl,
      rw (split_parts-slashed provider more p) (ap (λ rest. ok (provider, rest)) whole),
      rw (split_parts-lacks_slash model m, split_parts-slashed provider more p)
          (ap (λ rest. ok (provider, rest)) whole),
      rw (split_parts-lacks_slash model m, split_parts-lacks_slash provider p) refl,
    )
