-- ===== src/Gateway/Target.antt =====
-- The request that goes out for a key: set_auth_header, make_gateway_request, and step 4 of forward.
-- The headers are the calls of `headers.set`, in order.
pub mod Headers
mod Tests
use Prim.Native.String
use thebalance.Prelude.{
  ℕ, String, Bool, Option, none, some, List, [], ◌∷◌, ◌++◌, ◌==◌, str_eq, if◌then◌else◌,
}
use thebalance.Prelude.Result.{Result, ok, err, ◌>>=◌}
use thebalance.Prelude.Text.{starts_with, ends_with, strip_prefix, split}
use thebalance.Translate.{
  OpenAiEmbeddingsRequest, OpenAiChatCompletionRequest, GeminiEmbeddingsRequest, GeminiChatRequest,
  translate_embeddings_request, translate_chat_request,
}

-- `PROVIDER_CUSTOM_AUTH_HEADER.get(provider)`, or `Authorization`.
unfoldable pub auth_header_name : String → String
auth_header_name provider =
    if str_eq provider "google-ai-studio"
    then "x-goog-api-key"
    else if str_eq provider "anthropic"
    then "x-api-key"
    else if str_eq provider "elevenlabs"
    then "x-api-key"
    else if str_eq provider "azure-openai"
    then "api-key"
    else if str_eq provider "cartesia"
    then "X-API-Key"
    else "Authorization"

unfoldable pub auth_header : String → String → String × String
unfolding auth_header_name
auth_header provider key =
    let name = auth_header_name provider in
    (name, if str_eq name "Authorization" then String.◌++◌ "Bearer " key else key)

pub record Outgoing : Type 0 where
  pub url : String
  pub method : String
  pub headers : List (String × String)
  pub body : String

-- The variables and secrets of the worker that step 4 reads: `none` is not set; and what the calls of
-- `headers.set` come to, of which the first that fails ends the step.
pub record GatewayEnv : Type 0 where
  pub ai_gateway_token : Option String
  pub cloudflare_account_id : Option String
  pub ai_gateway : Option String
  pub is_local : Bool
  pub set_headers : List (String × String) → Result String (Unit {0})

-- The caller's request; the value of a header is `none` where `to_str` fails. `json` reads and writes the bodies that are translated; `none` is an error.
pub record Incoming : Type 0 where
  pub method : String
  pub headers : List (String × Option String)
  pub body : String
  pub rest_resource : String

pub record BodyJson : Type 0 where
  pub parse_embeddings : String → Option OpenAiEmbeddingsRequest
  pub parse_chat : String → Option OpenAiChatCompletionRequest
  pub print_embeddings : GeminiEmbeddingsRequest → String
  pub print_chat : GeminiChatRequest → String

abbrev or_error : {A : Type 0} → Option A → Result String A
or_error none = err "missing or malformed"
or_error (some a) = ok a

abbrev is_slash : ℕ → Bool
is_slash c = c == b'/'

abbrev head_or_empty : List String → String
head_or_empty [] = ""
head_or_empty (p ∷ ps) = p

abbrev token_header : Option String → List (String × String)
token_header none = []
token_header (some token) = ("cf-aig-authorization", String.◌++◌ "Bearer " token) ∷ []

abbrev with_slash : String → String
with_slash base = if ends_with base "/" then base else String.◌++◌ base "/"

-- The loop over the caller's headers passes over those that `to_str` does not read.
abbrev pub readable : List (String × Option String) → List (String × String)
readable [] = []
readable ((name, none) ∷ headers) = readable headers
readable ((name, some value) ∷ headers) = (name, value) ∷ readable headers

abbrev pub gateway_headers :
    GatewayEnv → Incoming → String → String → String → List (String × String)
gateway_headers env req provider key request_id =
    readable req.headers
    ++ auth_header provider key
      ∷ ("X-OneBalance-Request-ID", request_id)
      ∷ token_header env.ai_gateway_token

unfoldable pub make_gateway_request :
    GatewayEnv → Incoming → String → String → String → String → Result String Outgoing
unfolding auth_header split
make_gateway_request env req body rest_resource key request_id = do
  let provider = head_or_empty (split is_slash rest_resource)
  let headers = gateway_headers env req provider key request_id
  done ← env.set_headers headers
  account_id ← or_error env.cloudflare_account_id
  gateway_name ← or_error env.ai_gateway
  let base =
      String.◌++◌ "https://gateway.ai.cloudflare.com/v1/"
        (String.◌++◌ account_id (String.◌++◌ "/" gateway_name))
  ok (record {
    url = String.◌++◌ (with_slash base) rest_resource;
    method = req.method;
    headers = headers;
    body = body;
  })

-- Which of the translations the answer needs.
pub data Translation : Type 0 where
  embeddings chat passthrough : Translation

abbrev local_headers : String → List (String × String)
local_headers key = ("Content-Type", "application/json") ∷ ("x-goog-api-key", key) ∷ []

abbrev native : String → String
native path = String.◌++◌ "https://generativelanguage.googleapis.com/" path

abbrev model_path : String → String → String
model_path model_name method =
    String.◌++◌ "v1beta/models/" (String.◌++◌ model_name (String.◌++◌ ":" method))

abbrev or_whole : Option String → String → String
or_whole none whole = whole
or_whole (some rest) whole = rest

module _ (json : BodyJson) (env : GatewayEnv) (req : Incoming) (provider model_name : String) where
  -- The three local branches.
  unfoldable pub local_request : String → Result String (Outgoing × Translation)
  unfolding starts_with strip_prefix
  local_request key =
      if starts_with req.rest_resource "compat/embeddings"
      then (do
        openapi_req ← or_error (json.parse_embeddings req.body)
        ok (
          record {
            url = native (model_path model_name "batchEmbedContents");
            method = "POST";
            headers = local_headers key;
            body = json.print_embeddings (translate_embeddings_request openapi_req model_name);
          },
          embeddings,
        ))
      else if starts_with req.rest_resource "compat/chat/completions"
      then (do
        openapi_req ← or_error (json.parse_chat req.body)
        ok (
          record {
            url = native (model_path model_name "generateContent");
            method = "POST";
            headers = local_headers key;
            body = json.print_chat (translate_chat_request openapi_req);
          },
          chat,
        ))
      else ok (
        record {
          url = native (
              or_whole (strip_prefix req.rest_resource (String.◌++◌ provider "/"))
                req.rest_resource);
          method = req.method;
          headers = local_headers key;
          body = req.body;
        },
        passthrough,
      )

  -- The two branches through the AI Gateway.
  unfoldable pub gateway_request : String → String → Result String (Outgoing × Translation)
  unfolding starts_with make_gateway_request
  gateway_request key request_id =
      if starts_with req.rest_resource "compat/embeddings"
      then (do
        openapi_req ← or_error (json.parse_embeddings req.body)
        out ←
            make_gateway_request env req
              (json.print_embeddings (translate_embeddings_request openapi_req model_name))
              (String.◌++◌ "google-ai-studio/" (model_path model_name "batchEmbedContents")) key
              request_id
        ok (out, embeddings))
      else (do
        out ← make_gateway_request env req req.body req.rest_resource key request_id
        ok (out, passthrough))

  unfoldable pub build_request : String → String → Result String (Outgoing × Translation)
  unfolding local_request gateway_request
  build_request key request_id =
      if env.is_local then local_request key else gateway_request key request_id
