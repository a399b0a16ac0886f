-- ===== src/Storage/Invariant/Operations/Updates.antt =====
-- The functions that find a row and update it: metrics and cooldowns, for any predicate on worlds
-- that their statements keep.
use thebalance.Prelude.{ℕ, ◌≡◌, refl, String, Bool, true, false, Option, none, some, List, [], ◌∷◌}
use thebalance.Prelude.Int.{ℤ}
use thebalance.Prelude.Assoc.{Assoc, lookup}
use thebalance.Storage.Model.{Key, ModelCooling, get_model_coolings}
use thebalance.Storage.Metrics.{metrics_update, update_key_metrics, update_found}
use thebalance.Storage.Cooldowns.{
  is_cooling, coolings_or_default, cooldown_update, cool_key, cool_found, set_found, ends_update,
  set_cooldown, set_key_model_cooldown_if_available,
}
use thebalance.Storage.Platform.{World, Platform, pure, lift, exec_first, exec_update}
use thebalance.Storage.Platform.Binding.{Condition, id_is}
use thebalance.Storage.Ensures.{Ensures, Keeps, Ensures-bind, Keeps-pure, Keeps-lift, Keeps-if}

module _ {S T C P : Type 0} (pf : Platform S T C P) where
  -- `R` is what is known of a row that is found.
  pub record UpdateRules (I : World S C P → Type 0) (R : Key T → Type 0) : Type 0 where
    pub first :
        (conditions : List Condition)
        → Ensures I (exec_first pf conditions) (λ found. (k : Key T) → found ≡ some k → R k)
    pub metrics :
        (id : String) (b : Bool) (latency now : ℤ) (k : Key T)
        → R k
        → Keeps I (exec_update pf (id_is id ∷ []) (metrics_update b latency now k))
    pub cooling :
        (id : String) (k : Key T) (coolings : Assoc ModelCooling) (model : String)
        (now duration_secs : ℕ)
        → Keeps I
            (exec_update pf (id_is id ∷ []) (cooldown_update pf k coolings model now duration_secs))
    pub ends :
        (id : String) (k : Key T) (model : String) (duration_secs now later : ℕ)
        → Keeps I (exec_update pf (id_is id ∷ []) (ends_update pf k model duration_secs now later))

  module _ {I : World S C P → Type 0} {R : Key T → Type 0} (updates : UpdateRules I R) where
    pub Keeps-update_key_metrics :
        (key_id : String) (b : Bool) (latency now : ℤ)
        → Keeps I (update_key_metrics pf key_id b latency now)
    unfolding update_key_metrics
    Keeps-update_key_metrics key_id b latency now =
        Ensures-bind (exec_first pf (id_is key_id ∷ [])) (update_found pf b latency now key_id)
          (updates.first (id_is key_id ∷ [])) update
      where
        update :
            (found : Option (Key T))
            → ((k : Key T) → found ≡ some k → R k)
            → Keeps I (update_found pf b latency now key_id found)
        update none h = Keeps-pure tt
        update (some k) h = updates.metrics key_id b latency now k (h k refl)

    pub Keeps-set_key_model_cooldown_if_available :
        (id model : String) (duration_secs now : ℕ)
        → Keeps I (set_key_model_cooldown_if_available pf id model duration_secs now)
    unfolding set_key_model_cooldown_if_available
    Keeps-set_key_model_cooldown_if_available id model duration_secs now =
        Ensures-bind (exec_first pf (id_is id ∷ [])) (cool_found pf id model now duration_secs)
          (updates.first (id_is id ∷ [])) (λ found h. cool found)
      where
        cool_parsed :
            (k : Key T) (coolings : Assoc ModelCooling)
            → Keeps I (cool_key pf id k model now duration_secs coolings)
        cool_parsed k coolings =
            Keeps-if (is_cooling now (lookup model coolings)) _ _ (Keeps-pure false) (
              Ensures-bind _ (λ _. pure true)
                (updates.cooling id k coolings model now duration_secs) (λ _ _. Keeps-pure true))

        cool : (found : Option (Key T)) → Keeps I (cool_found pf id model now duration_secs found)
        cool none = Keeps-pure false
        cool (some k) =
            Ensures-bind (lift (get_model_coolings pf.json k)) _ (Keeps-lift _)
              (λ coolings _. cool_parsed k (coolings_or_default coolings))

    pub Keeps-set_cooldown :
        (id model : String) (duration_secs now later : ℕ)
        → Keeps I (set_cooldown pf id model duration_secs now later)
    unfolding set_cooldown
    Keeps-set_cooldown id model duration_secs now later =
        Ensures-bind (exec_first pf (id_is id ∷ [])) (set_found pf id model duration_secs now later)
          (updates.first (id_is id ∷ [])) (λ found h. set found)
      where
        set :
            (found : Option (Key T)) → Keeps I (set_found pf id model duration_secs now later found)
        set none = Keeps-pure tt
        set (some k) = updates.ends id k model duration_secs now later
