-- ===== src/Translate.antt =====
-- gcp.rs of crates/theone-balance/src, with the request and response types of models.rs: OpenAI's
-- chat and embeddings shapes from and to Gemini's. `F` is the type of the embedding's floats.
pub mod Shapes
mod Tests
use thebalance.Prelude.{
  ℕ, suc, ◌+◌, ◌%◌, ◌^◌, String, Bool, Option, none, some, List, [], ◌∷◌, map, str_eq,
  if◌then◌else◌,
}
use Prim.Native.String

pub record OpenAiChatMessage : Type 0 where
  pub role : String
  pub content : String

pub record OpenAiChatCompletionRequest : Type 0 where
  pub model : String
  pub messages : List OpenAiChatMessage
  pub stream : Bool

pub data EmbeddingInput : Type 0 where
  string : String → EmbeddingInput
  string_array : List String → EmbeddingInput

pub record OpenAiEmbeddingsRequest : Type 0 where
  pub input : EmbeddingInput
  pub model : String

pub record OpenAiUsage : Type 0 where
  pub prompt_tokens : ℕ
  pub completion_tokens : ℕ
  pub total_tokens : ℕ

-- `OpenAiUsage::default()`.
abbrev pub no_usage : OpenAiUsage
no_usage = record { prompt_tokens = 0; completion_tokens = 0; total_tokens = 0 }

pub record OpenAiEmbedding (F : Type 0) : Type 0 where
  pub object : String
  pub embedding : List F
  pub index : ℕ

pub record OpenAiEmbeddingsResponse (F : Type 0) : Type 0 where
  pub object : String
  pub embeddings : List (OpenAiEmbedding F)
  pub model : String
  pub usage : OpenAiUsage

pub record OpenAiChatChoice : Type 0 where
  pub finish_reason : String
  pub index : ℕ
  pub message : OpenAiChatMessage

pub record OpenAiChatCompletionResponse : Type 0 where
  pub id : String
  pub choices : List OpenAiChatChoice
  pub created : ℕ
  pub model : String
  pub object : String
  pub usage : OpenAiUsage

pub record GeminiPart : Type 0 where
  pub text : String

pub record GeminiContent : Type 0 where
  pub parts : List GeminiPart
  pub role : Option String

pub record GeminiChatRequest : Type 0 where
  pub contents : List GeminiContent

pub record GeminiCandidate : Type 0 where
  pub content : GeminiContent
  pub finish_reason : String
  pub index : ℕ

pub record GeminiChatResponse : Type 0 where
  pub candidates : List GeminiCandidate

pub record GeminiEmbeddingContent : Type 0 where
  pub model : String
  pub content : GeminiContent

pub record GeminiEmbeddingsRequest : Type 0 where
  pub requests : List GeminiEmbeddingContent

pub record GeminiEmbeddingValue (F : Type 0) : Type 0 where
  pub values : List F

pub record GeminiEmbeddingsResponse (F : Type 0) : Type 0 where
  pub embeddings : List (GeminiEmbeddingValue F)

abbrev pub inputs : EmbeddingInput → List String
inputs (string s) = s ∷ []
inputs (string_array texts) = texts

abbrev embedding_content : String → String → GeminiEmbeddingContent
embedding_content model_name text = record {
  model = String.◌++◌ "models/" model_name;
  content = record { parts = record { text = text } ∷ []; role = none };
}

unfoldable pub translate_embeddings_request :
    OpenAiEmbeddingsRequest → String → GeminiEmbeddingsRequest
translate_embeddings_request req model_name = record {
  requests = map (embedding_content model_name) (inputs req.input);
}

module _ {F : Type 0} where
  -- `enumerate()`, and the cast of the position to `u32`.
  unfoldable pub number_embeddings : ℕ → List (GeminiEmbeddingValue F) → List (OpenAiEmbedding F)
  number_embeddings n [] = []
  number_embeddings n (e ∷ es) =
      record { object = "embedding"; embedding = e.values; index = n % 2 ^ 32 }
      ∷ number_embeddings (suc n) es

  unfoldable pub translate_embeddings_response :
      GeminiEmbeddingsResponse F → String → OpenAiEmbeddingsResponse F
  unfolding number_embeddings
  translate_embeddings_response gemini_resp model_name = record {
    object = "list";
    embeddings = number_embeddings 0 gemini_resp.embeddings;
    model = model_name;
    usage = no_usage;
  }

unfoldable pub map_role_to_gemini : String → String
map_role_to_gemini role =
    if str_eq role "user"
    then "user"
    else if str_eq role "assistant"
    then "model"
    else if str_eq role "system"
    then "user"
    else "user"

abbrev chat_content : OpenAiChatMessage → GeminiContent
chat_content msg = record {
  parts = record { text = msg.content } ∷ [];
  role = some (map_role_to_gemini msg.role);
}

unfoldable pub translate_chat_request : OpenAiChatCompletionRequest → GeminiChatRequest
unfolding map_role_to_gemini
translate_chat_request req = record { contents = map chat_content req.messages }

abbrev first_text : List GeminiPart → String
first_text [] = ""
first_text (p ∷ ps) = p.text

abbrev choice : GeminiCandidate → OpenAiChatChoice
choice candidate = record {
  finish_reason = candidate.finish_reason;
  index = candidate.index;
  message = record { role = "assistant"; content = first_text candidate.content.parts };
}

-- `uuid` and `created` (in seconds) are what the UUID generator and the clock give.
unfoldable pub translate_chat_response :
    GeminiChatResponse → String → String → ℕ → OpenAiChatCompletionResponse
translate_chat_response gemini_resp model_name uuid created = record {
  id = String.◌++◌ "chatcmpl-" uuid;
  choices = map choice gemini_resp.candidates;
  created = created;
  model = model_name;
  object = "chat.completion";
  usage = no_usage;
}
