-- ===== src/Web/Session/Tests.antt =====
-- Requests with and without the secret.
use thebalance.Prelude.{◌≡◌, ◌⊎◌, String, Option, none, some, [], ◌∷◌}
use thebalance.Prelude.Result.{ok, err}
use thebalance.Storage.Memory.{memory}
use thebalance.Storage.Samples.{two_rows}
use thebalance.Web.Session.{
  redirect, text, add_login, page_layout, post_login_handler, get_providers_page_handler,
  KeysListParams, get_keys_list_page_handler, get_key_coolings_handler,
}
use thebalance.Web.Session.Guard.{carried, guarded_pages, post_login_handler-page_layout}

abbrev guess : String → Option String
guess name = some "guess"

abbrev first_page : KeysListParams
first_page = record {
  q = none;
  status = some "blocked";
  page = none;
  sort_by = none;
  sort_order = none;
}

guarded_pages_example :
    (get_providers_page_handler (some "secret") (ok guess) ≡ redirect "/login")
    × (get_keys_list_page_handler memory
          (some "secret")
          (λ v. none)
          (ok tt)
          (ok guess)
          "openai"
          first_page
          two_rows
        ≡ ((redirect "/login", []), two_rows))
    × (get_key_coolings_handler memory (some "secret") (ok tt) (ok guess) "k1" two_rows
        ≡ (redirect "/login", two_rows))
guarded_pages_example =
    guarded_pages memory (some "secret") guess (λ v. none) (ok tt) "openai" "k1" first_page two_rows
      (λ e. cc)

abbrev secret : Option String
secret = some "secret"

post_login_handler-page_layout_example :
    ((post_login_handler secret "secret" ≡ (redirect "/", add_login "auth_key" "secret" 365 ∷ []))
      × (secret ≡ some "secret")
      × (page_layout secret (ok (carried (post_login_handler secret "secret").1 guess)) ≡ ok tt))
    ⊎ ((post_login_handler secret "secret" ≡ (text 403 "Invalid auth key", []))
        × (page_layout secret (ok (carried (add_login "auth_key" "secret" 365 ∷ []) guess))
            ≡ err (redirect "/login")))
post_login_handler-page_layout_example = post_login_handler-page_layout secret "secret" guess
