-- ===== src/Web/Pages/Home.antt =====
-- Where the addresses of the list of keys lead, by their paths.
use Prim.Native.Char.{code}
use Prim.Native.String
use Prim.Native.String.append
use thebalance.Prelude.{
  ℕ, ◌≡◌, ◌⊎◌, refl, sym, ap, ◌∙◌, inl, inr, String, Bool, true, false, not, ◌&&◌, ◌||◌, List, [],
  ◌∷◌, All, ◌==◌, arith, if◌then◌else◌,
}
use thebalance.Manager.Paths.{is_plain_id}
use thebalance.Web.Session.{KeysListPage}
use thebalance.Web.Pages.{keys_list_page}
use thebalance.Web.Pages.Exposed.{Exposed, target, unescaped, exposes, IsOwn}
use thebalance.Web.Pages.Links.{keys_list_page-IsOwn}

-- The path of an address of the worker: what stands before the query and the fragment.
unfoldable pub path_of : String → String
path_of String.[] = String.[]
path_of (String.◌∷◌ c s) =
    let rest = path_of s in
    if code c == b'?' || code c == b'#' then String.[] else String.◌∷◌ c rest

-- An address of the list of providers, of the page itself, or of the provider's page.
abbrev pub LeadsHome : String → Exposed → Type 0
LeadsHome provider (target to) =
    (path_of to ≡ "/") ⊎ (path_of to ≡ "") ⊎ (path_of to ≡ String.◌++◌ "/keys/" provider)
LeadsHome provider (unescaped s) = ⊥

unfoldable has_no_mark : String → Bool
has_no_mark String.[] = true
has_no_mark (String.◌∷◌ c s) = not (code c == b'?' || code c == b'#') && has_no_mark s

both_true : (a b : Bool) → not a && b ≡ true → (a ≡ false) × (b ≡ true)
both_true a b h = ground arith

path_of-append :
    (front rest : String)
    → has_no_mark front ≡ true
    → path_of (String.◌++◌ front rest) ≡ String.◌++◌ front (path_of rest)
unfolding path_of has_no_mark
path_of-append String.[] rest h = ap path_of (append.nil rest) ∙ sym (append.nil (path_of rest))
path_of-append (String.◌∷◌ c front) rest h =
    let (other, plain) = both_true (code c == b'?' || code c == b'#') (has_no_mark front) h in
    ap path_of (append.cons c front rest)
    ∙ rw other (ap (String.◌∷◌ c) (path_of-append front rest plain))
    ∙ sym (append.cons c front (path_of rest))

plain-has_no_mark : (s : String) → is_plain_id s ≡ true → has_no_mark s ≡ true
unfolding has_no_mark is_plain_id
plain-has_no_mark String.[] h = refl
plain-has_no_mark (String.◌∷◌ c s) h = ground (arith, plain-has_no_mark s)

path_of-keys :
    (provider rest : String)
    → is_plain_id provider ≡ true
    → path_of (String.◌++◌ "/keys/" (String.◌++◌ provider rest))
      ≡ String.◌++◌ "/keys/" (String.◌++◌ provider (path_of rest))
unfolding has_no_mark
path_of-keys provider rest h =
    path_of-append "/keys/" (String.◌++◌ provider rest) refl
    ∙ ap (String.◌++◌ "/keys/") (path_of-append provider rest (plain-has_no_mark provider h))

append_empty : (s : String) → String.◌++◌ s "" ≡ s
append_empty String.[] = append.nil ""
append_empty (String.◌∷◌ c s) = append.cons c s "" ∙ ap (String.◌∷◌ c) (append_empty s)

no_path : (query : String) → path_of (String.◌++◌ "?" query) ≡ ""
unfolding path_of
no_path query = ap path_of (append.cons _ "" query)

own-LeadsHome :
    (provider : String) (x : Exposed)
    → is_plain_id provider ≡ true
    → IsOwn provider x
    → LeadsHome provider x
unfolding path_of
own-LeadsHome provider (unescaped s) h own = own
own-LeadsHome provider (target to) h (inl e) = inl (ap path_of e)
own-LeadsHome provider (target to) h (inr (inl e)) = inr (inl (ap path_of e))
own-LeadsHome provider (target to) h (inr (inr (inl e))) = inr (
    inr (
      ap path_of e
      ∙ ap (λ s. path_of (String.◌++◌ "/keys/" s)) (sym (append_empty provider))
      ∙ path_of-keys provider "" h
      ∙ ap (String.◌++◌ "/keys/") (append_empty provider)))
own-LeadsHome provider (target to) h (inr (inr (inr (query, e)))) = inr (
    inr (
      ap path_of e
      ∙ path_of-keys provider (String.◌++◌ "?" query) h
      ∙ ap (λ s. String.◌++◌ "/keys/" (String.◌++◌ provider s)) (no_path query)
      ∙ ap (String.◌++◌ "/keys/") (append_empty provider)))

All-map :
    {P Q : Exposed → Type 0} (xs : List Exposed) → ((x : Exposed) → P x → Q x) → All P xs → All Q xs
All-map [] f h = tt
All-map (x ∷ xs) f (h, hs) = (f x h, All-map xs f hs)

-- For a provider whose name has letters, digits and dashes alone, each link and each address of a form
-- or button of the list of keys leads to the list of providers, to the page itself, or to the page of
-- this provider, with whatever query; and no content of an element is written without an escape. The
-- values of other attributes are not in question here: what `maud` escapes there may still be read as
-- part of a script.
pub keys_list_page-LeadsHome :
    (now : ℕ) (p : KeysListPage)
    → is_plain_id p.provider ≡ true
    → All (LeadsHome p.provider) (exposes (keys_list_page now p))
keys_list_page-LeadsHome now p plain =
    All-map (exposes (keys_list_page now p)) (λ x. own-LeadsHome p.provider x plain)
      (keys_list_page-IsOwn now p)
