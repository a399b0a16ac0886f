-- ===== src/Storage/Invariant/Operations/Cleaning.antt =====
-- The cleanup: it validates candidates and updates their metrics.
use thebalance.Prelude.{String, Bool, true, false, List, [], ◌∷◌, ◌==◌, str_eq}
use thebalance.Prelude.Int.{ℤ, pos}
use thebalance.Errors.{GoogleJson}
use thebalance.Storage.Model.{Key}
use thebalance.Storage.Metrics.{update_key_metrics}
use thebalance.Storage.Cleanup.{
  TestAnswer, responded, network_error, ignore, judge, is_key_permanently_invalid, validate,
  delete_permanently_failed_keys,
}
use thebalance.Storage.Platform.{World, Platform, Action, exec_query}
use thebalance.Storage.Platform.Binding.{Query}
use thebalance.Storage.Ensures.{Keeps, Ensures-bind, Keeps-pure, Keeps-if}

-- Any invariant that queries and metric updates keep.
module _ {S T C P : Type 0} (pf : Platform S T C P) (google : GoogleJson) (I : World S C P → Type 0)
    (queries : (q : Query) → Keeps I (exec_query pf q))
    (updates : (key_id : String) (b : Bool) (latency now : ℤ)
      → Keeps I (update_key_metrics pf key_id b latency now)) where
  Keeps-ignore :
      (m : Action (World S C P) (Unit {0})) (b : Bool) → Keeps I m → Keeps I (ignore pf google m b)
  Keeps-ignore m b k = record { keeps = k.keeps; gives = λ w h a e. tt }

  Keeps-judge : (k : Key T) (now : ℤ) (answer : TestAnswer) → Keeps I (judge pf google k now answer)
  Keeps-judge k now network_error = Keeps-pure false
  Keeps-judge k now (responded status body) =
      Keeps-if (status == 200) _ _ (Keeps-ignore _ false (updates k.id true (pos 0) now))
        (Keeps-pure _)

  Keeps-is_key_permanently_invalid :
      (answer : Key T → TestAnswer) (now : ℤ) (k : Key T)
      → Keeps I (is_key_permanently_invalid pf google answer now k)
  unfolding is_key_permanently_invalid
  Keeps-is_key_permanently_invalid answer now k =
      Keeps-if (str_eq k.provider "google-ai-studio") _ _ (Keeps-judge k now (answer k))
        (Keeps-pure false)

  Keeps-validate :
      (answer : Key T → TestAnswer) (now : ℤ) (ks : List (Key T))
      → Keeps I (validate pf google answer now ks)
  unfolding validate
  Keeps-validate answer now [] = Keeps-pure []
  Keeps-validate answer now (k ∷ ks) =
      Ensures-bind _ _ (Keeps-is_key_permanently_invalid answer now k)
        λ invalid _. Ensures-bind _ _ (Keeps-validate answer now ks) (λ ids _. Keeps-pure _)

  pub Keeps-delete_permanently_failed_keys :
      (answer : Key T → TestAnswer) (threshold now : ℤ) (provider : String)
      → Keeps I (delete_permanently_failed_keys pf google answer threshold now provider)
  unfolding delete_permanently_failed_keys
  Keeps-delete_permanently_failed_keys answer threshold now provider =
      Ensures-bind _ _ (queries _) λ candidates _.
        Ensures-bind _ _ (Keeps-validate answer now candidates) (λ ids _. Keeps-pure _)
