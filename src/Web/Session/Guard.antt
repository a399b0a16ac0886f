-- ===== src/Web/Session/Guard.antt =====
-- Who sees the pages behind the login.
use thebalance.Prelude.{
  ◌≡◌, ◌≢◌, ◌⊎◌, refl, sym, ap, ◌∙◌, inl, inr, String, Option, none, some, List, [], ◌∷◌, str_eq,
  Bool-cases, Option-cases, if◌then◌else◌,
}
use thebalance.Prelude.Result.{Result, ok, err}
use thebalance.Gateway.Auth.{is_valid_auth_key}
use thebalance.Gateway.Auth.Extract.{valid_key}
use thebalance.Storage.Platform.{World, Platform}
use thebalance.Web.Form.{TestResult}
use thebalance.Web.Session.{
  redirect, text, CookieChange, add_login, remove, or_login, page_layout, post_login_handler,
  get_providers_page_handler, KeysListParams, get_keys_list_page_handler, get_key_coolings_handler,
}

-- The browser's cookies after the changes of an answer.
abbrev pub carried : List CookieChange → (String → Option String) → String → Option String
carried [] get = get
carried (add_login cookie value days ∷ changes) get =
    carried changes (λ name. if str_eq name cookie then some value else get name)
carried (remove gone ∷ changes) get =
    carried changes (λ name. if str_eq name gone then none else get name)

-- A cookie other than the secret is sent to the login.
refused :
    (secret : Option String) (get : String → Option String)
    → get "auth_key" ≢ secret
    → page_layout secret (ok get) ≡ err (redirect "/login")
unfolding page_layout
refused secret get differs = elim (Option-cases (get "auth_key")) [
  | inl e ↦ rw e refl
  | inr (auth_key, e) ↦ rw e (elim (Bool-cases (is_valid_auth_key auth_key secret)) [
    | inl valid ↦ absurd (differs (e ∙ sym (valid_key auth_key secret valid).0))
    | inr invalid ↦ rw invalid refl
  ])
]

module _ {S T C P : Type 0} (pf : Platform S T C P) where
  -- A request whose cookie is not the worker's secret, or that has none, is redirected to the login
  -- by the list of providers, the list of keys and the cooldowns of a key: nothing is read from the
  -- database or changed, and no cookie is set or removed.
  pub guarded_pages :
      (secret : Option String) (get : String → Option String)
      (decode : String → Option (List TestResult)) (binding : Result String (Unit {0}))
      (provider id : String) (params : KeysListParams) (w : World S C P)
      → get "auth_key" ≢ secret
      → (get_providers_page_handler secret (ok get) ≡ redirect "/login")
        × (get_keys_list_page_handler pf secret decode binding (ok get) provider params w
            ≡ ((redirect "/login", []), w))
        × (get_key_coolings_handler pf secret binding (ok get) id w ≡ (redirect "/login", w))
  unfolding get_providers_page_handler get_keys_list_page_handler get_key_coolings_handler
  guarded_pages secret get decode binding provider id params w differs =
      let away = refused secret get differs in (rw away refl, rw away refl, rw away refl)

-- A login either sets the cookie with which the browser then passes the guard, for the key is the
-- secret; or it is forbidden, sets nothing, and a cookie of that key would not pass.
pub post_login_handler-page_layout :
    (secret : Option String) (auth_key : String) (get : String → Option String)
    → ((post_login_handler secret auth_key ≡ (redirect "/", add_login "auth_key" auth_key 365 ∷ []))
        × (secret ≡ some auth_key)
        × (page_layout secret (ok (carried (post_login_handler secret auth_key).1 get)) ≡ ok tt))
      ⊎ ((post_login_handler secret auth_key ≡ (text 403 "Invalid auth key", []))
          × (page_layout secret (ok (carried (add_login "auth_key" auth_key 365 ∷ []) get))
              ≡ err (redirect "/login")))
unfolding post_login_handler page_layout
post_login_handler-page_layout secret auth_key get =
    let login = post_login_handler secret auth_key in
    elim (Bool-cases (is_valid_auth_key auth_key secret)) [
      | inl valid ↦
          let done : login ≡ (redirect "/", add_login "auth_key" auth_key 365 ∷ []) =
            rw valid refl in
          inl (
            done,
            (valid_key auth_key secret valid).0,
            ap (λ r. page_layout secret (ok (carried r.1 get))) done ∙ ap or_login valid,
          )
      | inr invalid ↦ inr (rw invalid refl, ap or_login invalid)
    ]
