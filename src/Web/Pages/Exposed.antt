-- ===== src/Web/Pages/Exposed.antt =====
-- What a page exposes: the targets of its links and forms, and its texts that no escape protects.
use Prim.Native.String
use mathlib.Core.Path.{subst}
use mathlib.Core.List.{append-nil, append_assoc}
use thebalance.Prelude.{
  ℕ, ◌≡◌, ◌⊎◌, refl, sym, ap, ◌∙◌, inr, String, Option, none, some, List, [], ◌∷◌, ◌++◌, map, All,
  All-append,
}
use thebalance.Prelude.Assoc.{lookup}
use thebalance.Web.{build_page_link}
use thebalance.Web.Markup.{Token, Markup, open_tag, close_tag, chars, raw}
use thebalance.Web.Pages.Layout.{page_layout_of, login_page}
use thebalance.Web.Pages.Providers.{provider_configs, provider_card, providers_page}

pub data Exposed : Type 0 where
  target : String → Exposed
  unescaped : String → Exposed

abbrev target_list : Option String → List Exposed
target_list none = []
target_list (some to) = target to ∷ []

-- The targets of a tag, or a text that no escape protects.
abbrev exposed : Token → List Exposed
exposed (open_tag tag attributes) =
    target_list (lookup "href" attributes)
    ++ (target_list (lookup "action" attributes) ++ target_list (lookup "formaction" attributes))
exposed (close_tag tag) = []
exposed (chars s) = []
exposed (raw s) = unescaped s ∷ []

unfoldable pub exposes : Markup → List Exposed
unfolding lookup
exposes [] = []
exposes (t ∷ page) = exposed t ++ exposes page

-- The list of providers, the page itself, or a page of this provider's keys.
abbrev pub IsOwn : String → Exposed → Type 0
IsOwn provider (target to) =
    (to ≡ "/")
    ⊎ (to ≡ "#")
    ⊎ (to ≡ String.◌++◌ "/keys/" provider)
    ⊎ ((query : String) × (to
          ≡ String.◌++◌ "/keys/" (String.◌++◌ provider (String.◌++◌ "?" query))))
IsOwn provider (unescaped s) = ⊥

abbrev pub unescaped_of : List Exposed → List String
unescaped_of [] = []
unescaped_of (target to ∷ found) = unescaped_of found
unescaped_of (unescaped s ∷ found) = s ∷ unescaped_of found

pub exposes-append : (xs ys : Markup) → exposes (xs ++ ys) ≡ exposes xs ++ exposes ys
unfolding exposes
exposes-append [] ys = refl
exposes-append (t ∷ xs) ys =
    ap (λ rest. exposed t ++ rest) (exposes-append xs ys)
    ∙ sym (append_assoc (exposed t) (exposes xs) (exposes ys))

module _ (provider : String) where
  abbrev pub OwnAll : Markup → Type 0
  OwnAll page = All (IsOwn provider) (exposes page)

  pub link-IsOwn :
      (s q : String) (page : ℕ) (sort_by sort_order : String)
      → IsOwn provider (target (build_page_link provider s q page sort_by sort_order))
  unfolding build_page_link
  link-IsOwn s q page sort_by sort_order = inr (inr (inr (_, refl)))

  pub both : (xs ys : Markup) → OwnAll xs → OwnAll ys → OwnAll (xs ++ ys)
  both xs ys h k =
      subst (All (IsOwn provider)) (sym (exposes-append xs ys))
        (All-append (IsOwn provider) (exposes xs) (exposes ys) h k)

unescaped_of-append :
    (xs ys : List Exposed) → unescaped_of (xs ++ ys) ≡ unescaped_of xs ++ unescaped_of ys
unescaped_of-append [] ys = refl
unescaped_of-append (target to ∷ xs) ys = unescaped_of-append xs ys
unescaped_of-append (unescaped s ∷ xs) ys = ap (λ rest. s ∷ rest) (unescaped_of-append xs ys)

-- Around any content the layout writes its own style and script without an escape, and no more. The
-- list of providers has one link for each provider, to its active keys, and the login has one form,
-- which posts to `/login`; neither writes anything without an escape.
page_layout_of-exposes :
    (style script : String) (content : Markup)
    → (unescaped_of (exposes (page_layout_of style script content))
        ≡ "<!DOCTYPE html>" ∷ style ∷ script ∷ unescaped_of (exposes content))
      × (exposes providers_page
          ≡ map
              (λ c. target (String.◌++◌ "/keys/" (String.◌++◌ c.0 "?status=active")))
              provider_configs)
      × (exposes login_page ≡ target "/login" ∷ [])
unfolding exposes page_layout_of providers_page login_page provider_card
page_layout_of-exposes style script content =
    (simp (exposes-append, unescaped_of-append, append-nil), refl, refl)
