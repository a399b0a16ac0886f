-- ===== src/Gateway/Auth/Tests.antt =====
-- A model whose own name has a slash.
use thebalance.Prelude.{◌≡◌, refl, true, none, some}
use thebalance.Prelude.Result.{ok, err}
use thebalance.Gateway.Auth.{extract_provider_and_model}
use thebalance.Gateway.Auth.Parts.{lacks_slash, extract_provider_and_model-parts}

openrouter_lacks : lacks_slash "openrouter" ≡ true
unfolding lacks_slash
openrouter_lacks = refl

vendor_lacks : lacks_slash "meta-llama" ≡ true
unfolding lacks_slash
vendor_lacks = refl

extract_provider_and_model-parts_example :
    (extract_provider_and_model (some "openrouter/meta-llama") "chat/completions"
      ≡ ok ("openrouter", "meta-llama"))
    × (extract_provider_and_model (some "openrouter/meta-llama/llama-3") "chat/completions"
        ≡ ok ("openrouter", "meta-llama"))
    × (extract_provider_and_model none "openrouter/llama-3" ≡ ok ("openrouter", "llama-3"))
    × (extract_provider_and_model (some "meta-llama") "openrouter/llama-3"
        ≡ ok ("openrouter", "llama-3"))
    × (extract_provider_and_model (some "meta-llama") "openrouter"
        ≡ err "Could not determine provider and model from request.")
extract_provider_and_model-parts_example =
    extract_provider_and_model-parts "openrouter" "meta-llama" "llama-3" "chat/completions"
      openrouter_lacks vendor_lacks
