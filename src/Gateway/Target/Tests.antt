-- ===== src/Gateway/Target/Tests.antt =====
-- A request for a provider with a header of its own for keys.
use thebalance.Prelude.{
  ◌≡◌, refl, String, false, Option, none, some, List, [], ◌∷◌, ◌++◌, map, if◌then◌else◌,
}
use thebalance.Prelude.Assoc.{mem}
use thebalance.Prelude.Result.{Result, ok, err}
use thebalance.Translate.{GeminiChatRequest}
use thebalance.Web.Form.{test_single_key}
use thebalance.Gateway.Native.{
  TestClient, HasPosted, send_native_chat_test_request, native_test-passes,
}
use thebalance.Prelude.Text.{eq_ignore_case}
use thebalance.Gateway.Target.{Outgoing, GatewayEnv, Incoming}
use thebalance.Gateway.Target.Headers.{Headers}

abbrev Calls : Type 0
Calls = List (String × String)

last_set : String → Calls → Option String
last_set name [] = none
last_set name ((set_name, value) ∷ calls) =
    let before = last_set name calls in if eq_ignore_case set_name name then some value else before

unfoldable call_list : Headers Calls
unfolding last_set
call_list = record { empty = []; set = λ name value calls. (name, value) ∷ calls; get = last_set }

abbrev gateway_env : GatewayEnv
gateway_env = record {
  ai_gateway_token = none;
  cloudflare_account_id = some "acc";
  ai_gateway = some "gw";
  is_local = false;
  set_headers = λ calls. ok tt;
}

abbrev secret_sent : Incoming
secret_sent = record {
  method = "POST";
  headers = ("authorization", some "Bearer secret") ∷ ("x-goog-api-key", some "mine") ∷ [];
  body = "{}";
  rest_resource = "google-ai-studio/v1beta/models";
}

abbrev sent_on : Outgoing
sent_on = record {
  url = "https://gateway.ai.cloudflare.com/v1/acc/gw/google-ai-studio/v1beta/models";
  method = "POST";
  headers =
      ("authorization", "Bearer secret")
      ∷ ("x-goog-api-key", "mine")
      ∷ ("x-goog-api-key", "AIza")
      ∷ ("X-OneBalance-Request-ID", "id")
      ∷ [];
  body = "{}";
}

-- Headers in a list, and a provider that knows one key.
abbrev google_client : TestClient (List (String × String)) GeminiChatRequest String
google_client = record {
  new_headers = [];
  set = λ name value headers. ok (headers ++ (name, value) ∷ []);
  to_vec = λ request. ok request;
  new_with_init =
      λ url headers body. (if mem "AIza" (map (λ h. h.1) headers) then ok url else err "no key");
  send = λ url. ok (200, ok "{}");
}

native_test-passes_example :
    ((test_single_key
          (send_native_chat_test_request google_client "google-ai-studio" "AIza" "gemini-2.5-pro")
        ≡ ok tt)
      → (◌≡◌ {A = String} "google-ai-studio" "google-ai-studio")
        × ((body : Result String String) × HasPosted google_client "AIza" "gemini-2.5-pro"
              (ok (200, body))))
    × ((◌≡◌ {A = String} "google-ai-studio" "google-ai-studio")
        → (body : Result String String)
        → HasPosted google_client "AIza" "gemini-2.5-pro" (ok (200, body))
        → test_single_key
            (send_native_chat_test_request google_client "google-ai-studio" "AIza" "gemini-2.5-pro")
          ≡ ok tt)
native_test-passes_example =
    native_test-passes google_client "google-ai-studio" "AIza" "gemini-2.5-pro"

native_run :
    test_single_key
      (send_native_chat_test_request google_client "google-ai-studio" "AIza" "gemini-2.5-pro")
    ≡ ok tt
unfolding send_native_chat_test_request test_single_key mem
native_run = refl
