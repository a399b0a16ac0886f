-- ===== src/Web/Session.antt =====
-- The pages of web.rs that read: the login, the guard PageLayout, the list of keys and a key's
-- cooldowns; without their markup.
pub mod Guard
mod Tests
use Prim.Native.String
use thebalance.Prelude.{ℕ, String, Bool, Option, none, some, List, [], ◌∷◌, if◌then◌else◌}
use thebalance.Prelude.Int.{ℤ}
use thebalance.Prelude.Text.{decimal}
use thebalance.Prelude.Result.{Result, ok, err}
use thebalance.Gateway.Auth.{is_valid_auth_key}
use thebalance.Storage.Model.{error_text, ApiKey, StorageError}
use thebalance.Storage.Reads.{list_keys, get_key_coolings}
use thebalance.Storage.Platform.{World, Platform}
use thebalance.Web.Form.{TestResult, or_default}

-- What the template of the list of keys is given.
pub record KeysListPage : Type 0 where
  pub provider : String
  pub status : String
  pub q : String
  pub keys : List ApiKey
  pub total : ℤ
  pub page : ℕ
  pub page_size : ℕ
  pub sort_by : String
  pub sort_order : String
  pub test_results : Option (List TestResult)

pub data Page : Type 0 where
  redirect : String → Page
  text : ℕ → String → Page
  login_page providers_page : Page
  keys_list_page : KeysListPage → Page
  key_json : ApiKey → Page

-- The calls of `cookies.add` and `cookies.remove`; the login's cookie is for the whole site, kept
-- from scripts and other sites, and lasts the given days.
pub data CookieChange : Type 0 where
  add_login : (name : String) → (value : String) → (days : ℕ) → CookieChange
  remove : (name : String) → CookieChange

-- The cookies of the request, or the status line and the text with which their extractor refuses it.
abbrev pub Jar : Type 0
Jar = Result (String × String) (String → Option String)

abbrev pub or_login : Bool → Result Page (Unit {0})
or_login b = if b then ok tt else err (redirect "/login")

abbrev check_cookie : Option String → Option String → Result Page (Unit {0})
check_cookie secret none = err (redirect "/login")
check_cookie secret (some auth_key) = or_login (is_valid_auth_key auth_key secret)

-- `PageLayout::from_request_parts`, with the secret `AUTH_KEY`.
unfoldable pub page_layout : Option String → Jar → Result Page (Unit {0})
unfolding is_valid_auth_key
page_layout secret (err (status, message)) =
    err (text 500 (String.◌++◌ "Cookie error: " (String.◌++◌ status (String.◌++◌ " " message))))
page_layout secret (ok get) = check_cookie secret (get "auth_key")

unfoldable pub post_login_handler : Option String → String → Page × List CookieChange
unfolding is_valid_auth_key
post_login_handler secret auth_key =
    if is_valid_auth_key auth_key secret
    then (redirect "/", add_login "auth_key" auth_key 365 ∷ [])
    else (text 403 "Invalid auth key", [])

-- A page behind the guard.
abbrev guarded : {A : Type 0} → Result Page (Unit {0}) → (Page → A) → A → A
guarded (err page) refuse go = refuse page
guarded (ok u) refuse go = go

unfoldable pub get_providers_page_handler : Option String → Jar → Page
unfolding page_layout
get_providers_page_handler secret jar =
    guarded (page_layout secret jar) (λ page. page) providers_page

-- `KeysListParams`.
pub record KeysListParams : Type 0 where
  pub q : Option String
  pub status : Option String
  pub page : Option ℕ
  pub sort_by : Option String
  pub sort_order : Option String

abbrev page_or_first : Option ℕ → ℕ
page_or_first none = 1
page_or_first (some page) = page

-- The results in the cookie, and its removal; `decode` is base64 and JSON together.
abbrev pub read_results :
    (String → Option (List TestResult))
    → Option String
    → Option (List TestResult) × List CookieChange
read_results decode none = (none, [])
read_results decode (some value) = (decode value, remove "test_results" ∷ [])

abbrev cookie_of : Jar → String → Option String
cookie_of (err e) name = none
cookie_of (ok get) name = get name

module _ {S T C P : Type 0} (pf : Platform S T C P) where
  abbrev listed :
      String
      → KeysListParams
      → Option (List TestResult)
      → Result StorageError (List ApiKey × ℤ)
      → Page
  listed provider params results (err e) =
      text 500 (String.◌++◌ "Failed to list keys: " (error_text e))
  listed provider params results (ok (keys, total)) = keys_list_page (record {
    provider = provider;
    status = or_default params.status "active";
    q = or_default params.q "";
    keys = keys;
    total = total;
    page = page_or_first params.page;
    page_size = 20;
    sort_by = or_default params.sort_by "";
    sort_order = or_default params.sort_order "desc";
    test_results = results;
  })

  abbrev list_page :
      String
      → KeysListParams
      → Option (List TestResult)
      → Result String (Unit {0})
      → World S C P
      → Page × World S C P
  list_page provider params results (err e) w = (text 500 (String.◌++◌ "Database error: " e), w)
  list_page provider params results (ok u) w =
      let (r, w') =
        list_keys pf provider (or_default params.status "active") (page_or_first params.page) 20
          (or_default params.sort_by "") (or_default params.sort_order "desc") w in
      (listed provider params results r, w')

  -- `binding` is the database binding. The guard runs before the body, as an extractor.
  unfoldable pub get_keys_list_page_handler :
      Option String
      → (String → Option (List TestResult))
      → Result String (Unit {0})
      → Jar
      → String
      → KeysListParams
      → World S C P
      → (Page × List CookieChange) × World S C P
  unfolding page_layout
  get_keys_list_page_handler secret decode binding jar provider params w =
      let (results, changes) = read_results decode (cookie_of jar "test_results") in
      let (page, w') = list_page provider params results binding w in
      guarded (page_layout secret jar) (λ refused. ((refused, []), w)) ((page, changes), w')

  abbrev found_page : Result StorageError (Option ApiKey) → Page
  found_page (ok (some key)) = key_json key
  found_page (ok none) = text 404 "Key not found"
  found_page (err e) = text 500 (String.◌++◌ "Failed to get key coolings: " (error_text e))

  abbrev coolings_page : Result String (Unit {0}) → String → World S C P → Page × World S C P
  coolings_page (err e) id w = (text 500 (String.◌++◌ "Database error: " e), w)
  coolings_page (ok u) id w = let (r, w') = get_key_coolings pf id w in (found_page r, w')

  unfoldable pub get_key_coolings_handler :
      Option String → Result String (Unit {0}) → Jar → String → World S C P → Page × World S C P
  unfolding page_layout
  get_key_coolings_handler secret binding jar id w =
      guarded (page_layout secret jar) (λ refused. (refused, w)) (coolings_page binding id w)
