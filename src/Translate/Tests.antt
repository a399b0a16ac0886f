-- ===== src/Translate/Tests.antt =====
-- Runs and instances for the translations.
use thebalance.Prelude.{false, [], ◌∷◌}
use thebalance.Translate.{OpenAiChatCompletionRequest, translate_chat_request}
use thebalance.Translate.Shapes.{Pairwise, SaysSame, translate_chat_request-messages}

abbrev small_talk : OpenAiChatCompletionRequest
small_talk = record {
  model = "m";
  messages =
      record { role = "system"; content = "be kind" }
      ∷ record { role = "user"; content = "hello" }
      ∷ record { role = "assistant"; content = "hi" }
      ∷ [];
  stream = false;
}

translate_chat_request-messages_example :
    Pairwise SaysSame small_talk.messages (translate_chat_request small_talk).contents
translate_chat_request-messages_example = translate_chat_request-messages small_talk
