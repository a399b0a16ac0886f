-- ===== src/Gateway/Worker.antt =====
-- scheduled of lib.rs: the cleanup that runs by the clock.
pub mod Cleaning
pub mod Fetch
use thebalance.Prelude.{ℕ, String, List, [], ◌∷◌}
use thebalance.Prelude.Int.{ℤ}
use thebalance.Errors.{GoogleJson}
use thebalance.Storage.Model.{Key}
use thebalance.Storage.Platform.{World, Platform}
use thebalance.Storage.Cleanup.{TestAnswer, delete_permanently_failed_keys}

abbrev pub providers_to_clean : List String
providers_to_clean = "google-ai-studio" ∷ "openai" ∷ "anthropic" ∷ []

-- An error of one provider's cleanup is logged, and the loop goes on.
module _ {S T C P : Type 0} (pf : Platform S T C P) (google : GoogleJson)
    (answer : Key T → TestAnswer) (threshold now : ℤ) where
  unfoldable pub clean_each : List String → World S C P → World S C P
  clean_each [] w = w
  clean_each (provider ∷ providers) w =
      clean_each providers
        (delete_permanently_failed_keys pf google answer threshold now provider w).1

  unfoldable pub scheduled : World S C P → World S C P
  unfolding clean_each
  scheduled w = clean_each providers_to_clean w
