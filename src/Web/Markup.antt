-- ===== src/Web/Markup.antt =====
-- What the macro `html!` writes: a stream of tags and texts, in order. An attribute without a value
-- has the empty one.
use thebalance.Prelude.{String, List, [], ◌∷◌, ◌++◌}
use thebalance.Prelude.Assoc.{Assoc}

-- `chars` is text, which `maud` escapes, as it does the values of attributes; `raw` is `PreEscaped`.
pub data Token : Type 0 where
  open_tag : String → Assoc String → Token
  close_tag : String → Token
  chars : String → Token
  raw : String → Token

abbrev pub Markup : Type 0
Markup = List Token

abbrev pub element : String → Assoc String → Markup → Markup
element name attributes content = open_tag name attributes ∷ (content ++ close_tag name ∷ [])

-- An element without an end.
abbrev pub void : String → Assoc String → Markup
void name attributes = open_tag name attributes ∷ []

-- `@for`.
abbrev pub for_each {ℓ} : {A : Type ℓ} → (A → Markup) → List A → Markup
for_each write [] = []
for_each write (x ∷ xs) = write x ++ for_each write xs
