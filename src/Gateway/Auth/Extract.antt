-- ===== src/Gateway/Auth/Extract.antt =====
-- Which requests get in: get_auth_key and is_valid_auth_key together.
use Prim.Native.Char.{Char, code}
use Prim.Native.String
use Prim.Native.String.append
use Prim.Native.String.{[], ◌∷◌}
use mathlib.Core.Bool.{false≢true}
use text.Mathlib.TextEquality.{Char-path}
use thebalance.Prelude.{
  ◌≡◌, refl, sym, ap, ◌∙◌, inl, inr, ◌↔◌, String, true, false, Option, none, some, eq_iff, ◌==◌,
  arith, Bool-cases, Option-cases,
}
use thebalance.Prelude.Text.{strip_prefix, is_empty_text}
use thebalance.Gateway.Auth.{get_auth_key, is_valid_auth_key}

some-injective : (s t : String) → ◌≡◌ {A = Option String} (some s) (some t) → s ≡ t
some-injective s t e = cc

none≢some : (s : String) → ◌≡◌ {A = Option String} none (some s) → ⊥
none≢some s e = cc

same_code : (c d : Char) → (code c == code d) ≡ true → c ≡ d
same_code c d e = Char-path c d (ground arith)

code_refl : (c : Char) → (code c == code c) ≡ true
code_refl c = ground arith

stripped : (s p rest : String) → strip_prefix s p ≡ some rest → s ≡ String.◌++◌ p rest
unfolding strip_prefix
stripped s [] rest e = some-injective s rest e ∙ sym (append.nil rest)
stripped [] (d ∷ p) rest e = absurd (none≢some rest e)
stripped (c ∷ s) (d ∷ p) rest e = elim (Bool-cases (code c == code d)) [
  | inl same ↦
      cons_eq c d s _ (same_code c d same) (stripped s p rest (sym (rw same refl) ∙ e))
      ∙ sym (append.cons d p rest)
  | inr other ↦ absurd (none≢some rest (sym (rw other refl) ∙ e))
]
  where
    cons_eq : (c d : Char) (s t : String) → c ≡ d → s ≡ t → ◌≡◌ {A = String} (c ∷ s) (d ∷ t)
    cons_eq c d s t e h = ap (λ x. x ∷ s) e ∙ ap (λ y. d ∷ y) h

strips : (p rest : String) → strip_prefix (String.◌++◌ p rest) p ≡ some rest
unfolding strip_prefix
strips [] rest = ap some (append.nil rest)
strips (c ∷ p) rest = rw (append.cons c p rest) (rw (code_refl c) (strips p rest))

pub valid_key :
    (key : String) (secret : Option String)
    → is_valid_auth_key key secret ≡ true
    → (secret ≡ some key) × (is_empty_text key ≡ false)
unfolding is_valid_auth_key
valid_key key none e = absurd (false≢true e)
valid_key key (some s) e = (ground (arith, (eq_iff key s).0), ground arith)

from_header :
    (header : Option String)
    → is_empty_text (get_auth_key header) ≡ false
    → header ≡ some (String.◌++◌ "Bearer " (get_auth_key header))
unfolding get_auth_key
from_header none e = absurd (false≢true (sym e))
from_header (some value) e = elim (Option-cases (strip_prefix value "Bearer ")) [
  | inl gone ↦ absurd (false≢true (sym e ∙ rw gone refl))
  | inr (rest, found) ↦ rw found (ap some (stripped value "Bearer " rest found))
]

lets_in :
    (key : String)
    → is_empty_text key ≡ false
    → is_valid_auth_key (get_auth_key (some (String.◌++◌ "Bearer " key))) (some key) ≡ true
unfolding get_auth_key is_valid_auth_key
lets_in key full = rw (strips "Bearer " key) (rw full ((eq_iff key key).1 refl))

-- A request gets in exactly if a secret is set that is not empty, and the header `Authorization` is
-- `Bearer `, followed by that secret.
pub is_valid_auth_key_iff :
    (header secret : Option String)
    → (is_valid_auth_key (get_auth_key header) secret ≡ true) ↔ (
        (key : String) × (secret ≡ some key)
        × (is_empty_text key ≡ false)
        × (header ≡ some (String.◌++◌ "Bearer " key)))
is_valid_auth_key_iff header secret = (
  λ e. (
    get_auth_key header,
    (valid_key (get_auth_key header) secret e).0,
    (valid_key (get_auth_key header) secret e).1,
    from_header header (valid_key (get_auth_key header) secret e).1,
  ),
  λ (key, set, full, is_header). rw set (rw is_header (lets_in key full)),
)
