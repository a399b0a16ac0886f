-- ===== src/Gateway/Native.antt =====
-- The request of a key test: send_native_chat_test_request of request.rs.
use Prim.Native.String
use mathlib.Core.Path.{subst}
use thebalance.Prelude.{
  ◌≡◌, refl, ap, String, Bool, true, false, Option, none, some, [], ◌∷◌, ◌==◌, str_eq, eq_iff,
  arith, if◌then◌else◌,
}
use thebalance.Prelude.Result.{Result, ok, err, ◌>>=◌}
use thebalance.Translate.{GeminiChatRequest}
use thebalance.Web.Form.{Answer, test_single_key}
use thebalance.Gateway.Target.{auth_header_name, auth_header}

-- `PROVIDER_CUSTOM_AUTH_HEADER.get(provider)`.
unfoldable pub custom_auth_header : String → Option String
unfolding auth_header_name
custom_auth_header provider =
    let name = auth_header_name provider in if str_eq name "Authorization" then none else some name

-- What the request calls: the headers, `serde_json`, the request itself and its answer.
pub record TestClient (H B R : Type 0) : Type 0 where
  pub new_headers : H
  pub set : String → String → H → Result String H
  pub to_vec : GeminiChatRequest → Result String B
  pub new_with_init : String → H → B → Result String R
  pub send : R → Answer

abbrev or_google : Option String → String
or_google none = "x-goog-api-key"
or_google (some name) = name

-- `native_request`.
abbrev pub hello : GeminiChatRequest
hello = record {
  contents = record { role = some "user"; parts = record { text = "hello" } ∷ [] } ∷ [];
}

abbrev pub native_url : String → String
native_url model =
    String.◌++◌ "https://generativelanguage.googleapis.com/v1beta/models/"
      (String.◌++◌ model ":generateContent")

module _ {H B R : Type 0} (client : TestClient H B R) where
  -- The arm of Google, and the post behind it.
  abbrev post_hello : String → String → String → H → Answer
  post_hello provider key model headers = do
    with_key ← client.set (or_google (custom_auth_header provider)) key headers
    body ← client.to_vec hello
    req ← client.new_with_init (native_url model) with_key body
    client.send req

  abbrev post_to : String → String → String → H → Answer
  post_to provider key model headers =
      if str_eq provider "google-ai-studio"
      then post_hello provider key model headers
      else err (String.◌++◌ "Provider '" (String.◌++◌ provider "' not supported for testing."))

  unfoldable pub send_native_chat_test_request : String → String → String → Answer
  unfolding custom_auth_header
  send_native_chat_test_request provider key model =
      client.set "Content-Type" "application/json" client.new_headers >>= post_to provider key model

-- What is sent for a key: its answer, or the first error on the way.
abbrev pub HasPosted : {H B R : Type 0} → TestClient H B R → String → String → Answer → Type 0
HasPosted {H} {B} {R} client key model answer =
    (h h' : H) × (b : B) × (r : R) × (client.set "Content-Type" "application/json"
        client.new_headers
      ≡ ok h)
    × (client.set (auth_header "google-ai-studio" key).0 (auth_header "google-ai-studio" key).1 h
        ≡ ok h')
    × (client.to_vec hello ≡ ok b)
    × (client.new_with_init (native_url model) h' b ≡ ok r)
    × (client.send r ≡ answer)

passes-bind :
    {A : Type 0} (m : Result String A) (next : A → Answer)
    → test_single_key (m >>= next) ≡ ok tt
    → (x : A) × (m ≡ ok x) × (test_single_key (next x) ≡ ok tt)
unfolding test_single_key
passes-bind (err e) next passed = cc
passes-bind (ok x) next passed = (x, refl, passed)

passes_if :
    (b : Bool) (e : String)
    → ◌≡◌ {A = Result String (Unit {0})} (if b then ok tt else err e) (ok tt)
    → b ≡ true
passes_if true e passed = refl
passes_if false e passed = cc

passes-answered :
    (answer : Answer)
    → test_single_key answer ≡ ok tt
    → (body : Result String String) × (answer ≡ ok (200, body))
unfolding test_single_key
passes-answered (err e) passed = cc
passes-answered (ok (status, err e)) passed =
    let ok_status = passes_if (status == 200) e passed in
    (err e, ap (λ n. ok (n, err e)) (ground (arith, ok_status)))
passes-answered (ok (status, ok text)) passed =
    let ok_status = passes_if (status == 200) _ passed in
    (ok text, ap (λ n. ok (n, ok text)) (ground (arith, ok_status)))

passes_arm :
    (b : Bool) (answer : Answer) (e : String)
    → test_single_key (if b then answer else err e) ≡ ok tt
    → (b ≡ true) × (test_single_key answer ≡ ok tt)
unfolding test_single_key
passes_arm true answer e passed = (refl, passed)
passes_arm false answer e passed = cc

module _ {H B R : Type 0} (client : TestClient H B R) (key model : String) where
  passes-HasPosted :
      (h : H)
      → client.set "Content-Type" "application/json" client.new_headers ≡ ok h
      → test_single_key (post_hello client "google-ai-studio" key model h) ≡ ok tt
      → (body : Result String String) × HasPosted client key model (ok (200, body))
  unfolding auth_header custom_auth_header
  passes-HasPosted h set passed =
      let (h', with_key, passed1) = passes-bind (client.set "x-goog-api-key" key h) _ passed in
      let (b, written, passed2) = passes-bind (client.to_vec hello) _ passed1 in
      let (r, made, passed3) =
        passes-bind (client.new_with_init (native_url model) h' b) _ passed2 in
      let (body, sent) = passes-answered (client.send r) passed3 in
      (body, (h, h', b, r, set, with_key, written, made, sent))

-- A key passes the test exactly if its provider is Google's and the request, which has the key in the
-- header in which the gateway sends it too, can be built and is answered with 200.
pub native_test-passes :
    {H B R : Type 0} (client : TestClient H B R) (provider key model : String)
    → ((test_single_key (send_native_chat_test_request client provider key model) ≡ ok tt)
        → (provider ≡ "google-ai-studio")
          × ((body : Result String String) × HasPosted client key model (ok (200, body))))
      × ((provider ≡ "google-ai-studio")
          → (body : Result String String) → HasPosted client key model (ok (200, body))
          → test_single_key (send_native_chat_test_request client provider key model) ≡ ok tt)
unfolding send_native_chat_test_request test_single_key auth_header custom_auth_header
native_test-passes client provider key model = (
  λ passed.
      let (h, set, passed1) =
        passes-bind (client.set "Content-Type" "application/json" client.new_headers) _ passed in
      let (is_google, passed2) = passes_arm (str_eq provider "google-ai-studio") _ _ passed1 in
      let google = (eq_iff provider "google-ai-studio").0 is_google in
      (
        google,
        passes-HasPosted client key model h set
            (subst (λ p. test_single_key (post_hello client p key model h) ≡ ok tt) google passed2),
      ),
  λ google body (h, h', b, r, e1, e2, e3, e4, e5). rw (google, e1, e2, e3, e4, e5) refl,
)
