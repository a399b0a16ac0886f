-- ===== src/Translate/Shapes.antt =====
-- The translations between the two formats keep every item, in its place.
use mathlib.Core.Bool.{false≢true}
use thebalance.Prelude.{
  Bool, true, false, if◌then◌else◌, ◌⊎◌, ◌≢◌, inl, inr, str_eq, eq_iff, ◌∙◌, sym, Bool-cases, ℕ,
  suc, ◌+◌, ◌%◌, ◌^◌, ◌≡◌, ◌<◌, ◌≤◌, refl, ap, String, some, List, [], ◌∷◌, map, length, upto,
  arith,
}
use thebalance.Translate.{
  OpenAiEmbeddingsRequest, GeminiEmbeddingValue, GeminiEmbeddingsResponse,
  OpenAiChatCompletionRequest, OpenAiChatMessage, GeminiContent, GeminiPart, inputs,
  embedding_content, chat_content, translate_embeddings_request, number_embeddings,
  translate_embeddings_response, translate_chat_request, map_role_to_gemini,
}

no_wrap : (n : ℕ) → n < 2 ^ 32 → n % 2 ^ 32 ≡ n
no_wrap n h = omega arith

cons_eq {ℓ} : {A : Type ℓ} {x y : A} {xs ys : List A} → x ≡ y → xs ≡ ys → x ∷ xs ≡ y ∷ ys
cons_eq {y} {xs} e h = ap (λ z. z ∷ xs) e ∙ ap (λ zs. y ∷ zs) h

module _ {F : Type 0} where
  values-number :
      (n : ℕ) (es : List (GeminiEmbeddingValue F))
      → map (λ e. e.embedding) (number_embeddings n es) ≡ map (λ e. e.values) es
  unfolding number_embeddings
  values-number n [] = refl
  values-number n (e ∷ es) = ap (λ xs. e.values ∷ xs) (values-number (suc n) es)

  indices-number :
      (n : ℕ) (es : List (GeminiEmbeddingValue F))
      → n + length es ≤ 2 ^ 32
      → map (λ e. e.index) (number_embeddings n es) ≡ upto n (length es)
  unfolding number_embeddings
  indices-number n [] h = refl
  indices-number n (e ∷ es) h =
      cons_eq (no_wrap n (omega arith)) (indices-number (suc n) es (omega arith))

  -- The embeddings come back in the order of the answer, with their values, and are numbered from 0 on,
  -- if there are at most 2^32 of them.
  translate_embeddings_response-items :
      (resp : GeminiEmbeddingsResponse F) (model_name : String)
      → length resp.embeddings ≤ 2 ^ 32
      → (map (λ e. e.embedding) (translate_embeddings_response resp model_name).embeddings
          ≡ map (λ e. e.values) resp.embeddings)
        × (map (λ e. e.index) (translate_embeddings_response resp model_name).embeddings
            ≡ upto 0 (length resp.embeddings))
  unfolding translate_embeddings_response
  translate_embeddings_response-items resp model_name h =
      (values-number 0 resp.embeddings, indices-number 0 resp.embeddings (omega arith))

abbrev pub texts_of : List GeminiPart → List String
texts_of parts = map (λ p. p.text) parts

embedding_texts :
    (model_name : String) (texts : List String)
    → map (λ r. texts_of r.content.parts) (map (embedding_content model_name) texts)
      ≡ map (λ t. t ∷ []) texts
embedding_texts model_name [] = refl
embedding_texts model_name (t ∷ ts) = ap (λ xs. (t ∷ []) ∷ xs) (embedding_texts model_name ts)

-- Every text of the input is one request, in the order of the input, and nothing else is.
pub translate_embeddings_request-texts :
    (req : OpenAiEmbeddingsRequest) (model_name : String)
    → map (λ r. texts_of r.content.parts) (translate_embeddings_request req model_name).requests
      ≡ map (λ t. t ∷ []) (inputs req.input)
unfolding translate_embeddings_request
translate_embeddings_request-texts req model_name = embedding_texts model_name (inputs req.input)

-- A message and its translation: the same text, and the role `model` for the assistant's alone.
pub record SaysSame (msg : OpenAiChatMessage) (c : GeminiContent) : Type 0 where
  pub text_eq : texts_of c.parts ≡ msg.content ∷ []
  pub role_eq :
      ((c.role ≡ some "model") × (msg.role ≡ "assistant"))
      ⊎ ((c.role ≡ some "user") × (msg.role ≢ "assistant"))

-- The two lists have the same length, and `R` holds at each position.
abbrev pub Pairwise : {A B : Type 0} → (A → B → Type 0) → List A → List B → Type 0
Pairwise R [] [] = Unit
Pairwise R [] (y ∷ ys) = ⊥
Pairwise R (x ∷ xs) [] = ⊥
Pairwise R (x ∷ xs) (y ∷ ys) = R x y × Pairwise R xs ys

role_cases :
    (role : String)
    → ((map_role_to_gemini role ≡ "model") × (role ≡ "assistant"))
      ⊎ ((map_role_to_gemini role ≡ "user") × (role ≢ "assistant"))
unfolding map_role_to_gemini
role_cases role = elim (Bool-cases (str_eq role "assistant")) [
  | inl e ↦ let same = (eq_iff role "assistant").0 e in inl (ap map_role_to_gemini same, same)
  | inr e ↦ inr (
    rw e (user_role (str_eq role "user") (str_eq role "system")),
    λ same. false≢true (sym e ∙ (eq_iff role "assistant").1 same),
  )
]
  where
    user_role :
        (is_user is_system : Bool)
        → ◌≡◌ {A = String}
            (if is_user
              then "user"
              else if false
              then "model"
              else if is_system
              then "user"
              else "user")
            "user"
    user_role true is_system = refl
    user_role false true = refl
    user_role false false = refl

messages_say : (msgs : List OpenAiChatMessage) → Pairwise SaysSame msgs (map chat_content msgs)
messages_say [] = tt
messages_say (m ∷ ms) = (says m, messages_say ms)
  where
    says : (m : OpenAiChatMessage) → SaysSame m (chat_content m)
    says m = elim (role_cases m.role) [
      | inl (e, h) ↦ record { text_eq = refl; role_eq = inl (ap some e, h) }
      | inr (e, h) ↦ record { text_eq = refl; role_eq = inr (ap some e, h) }
    ]

-- A chat goes out message by message, in order: the same texts, the assistant's with the role `model`
-- and all others with the role `user`.
pub translate_chat_request-messages :
    (req : OpenAiChatCompletionRequest)
    → Pairwise SaysSame req.messages (translate_chat_request req).contents
unfolding translate_chat_request
translate_chat_request-messages req = messages_say req.messages
