-- ===== src/Storage/Invariant/Operations/Writes.antt =====
-- The pages' add, delete and block, and the statements behind metrics and cooldowns, for a guard on
-- rows and cached keys.
use thebalance.Prelude.{ℕ, suc, ◌≡◌, String, Option, none, some, List, [], ◌∷◌, arith, eq_iff}
use thebalance.Prelude.Int.{ℤ}
use thebalance.Storage.Model.{Key, ApiKey, ApiKeyStatus}
use thebalance.Storage.Metrics.{metrics_update}
use thebalance.Storage.Cooldowns.{cooldown_update, ends_update}
use thebalance.Storage.Admin
use thebalance.Storage.Admin.{
  new_row, insert_keys, new_keys, parse_keys, add_parsed, add_keys, invalidate_all, delete_keys,
  delete_all_blocked, status_text, update_status,
}
use thebalance.Storage.Platform.{Platform, exec_query, exec_first, exec_insert, invalidate}
use thebalance.Storage.Platform.Binding.{bind_condition, id_is, id_in, provider_is, matching}
use thebalance.Storage.Platform.Sql.{matches, holds}
use thebalance.Storage.Platform.Lawful.{LawfulDb, LawfulCache}
use thebalance.Storage.Ensures.{Keeps, Ensures-bind, Keeps-pure}
use thebalance.Storage.Invariant.{Guarded}
use thebalance.Storage.Invariant.Operations.Updates.{UpdateRules}
use thebalance.Storage.Invariant.Rules.{Rules, AddsOnly, SetsOnly}
use thebalance.Storage.Invariant.Statements.{
  Keeps-exec_query, Ensures-exec_first, Keeps-exec_insert, Keeps-exec_update, Keeps-exec_delete,
  Keeps-invalidate,
}

module _ {S T C P : Type 0} (pf : Platform S T C P) (db : LawfulDb pf) {R : Key T → Type 0}
    {G : String → ApiKey → Type 0} (rules : Rules pf R G) where
  pub Guarded-updates : UpdateRules pf (Guarded pf db R G) R
  Guarded-updates = record {
    first = Ensures-exec_first pf db;
    metrics = λ id b latency now k h.
        Keeps-exec_update pf db (id_is id ∷ []) (metrics_update b latency now k)
          (λ r m u. rules.metrics b latency now k r h u);
    cooling = λ id k coolings model now duration_secs.
        Keeps-exec_update pf db (id_is id ∷ [])
          (cooldown_update pf k coolings model now duration_secs)
          (λ r m u. rules.cooling k r coolings model now duration_secs u);
    ends = λ id k model duration_secs now later.
        Keeps-exec_update pf db (id_is id ∷ []) (ends_update pf k model duration_secs now later)
          (λ r m u. rules.ends k r model duration_secs now later u);
  }

  module _ (cache : LawfulCache pf) where
    module _ (provider : String) (uuid : ℕ → String) (now : ℤ)
        (fresh : AddsOnly pf R provider uuid now) where
      Keeps-insert_keys :
          (n : ℕ) (keys : List String)
          → Keeps (Guarded pf db R G) (insert_keys pf provider uuid now n keys)
      unfolding insert_keys
      Keeps-insert_keys n [] = Keeps-pure tt
      Keeps-insert_keys n (key ∷ keys) =
          Ensures-bind (exec_insert pf (new_row pf provider (uuid n) now key)) _
            (Keeps-exec_insert pf db _ (fresh n key)) (λ _ _. Keeps-insert_keys (suc n) keys)

      Keeps-add_parsed :
          (keys : List String) → Keeps (Guarded pf db R G) (add_parsed pf provider uuid now keys)
      Keeps-add_parsed [] = Keeps-pure tt
      Keeps-add_parsed (key ∷ keys) =
          Ensures-bind (exec_query pf (matching (provider_is provider ∷ []))) _
            (Keeps-exec_query pf db _)
            λ existing _.
              Ensures-bind (insert_keys pf provider uuid now 0 _) _ (Keeps-insert_keys 0 _)
                (λ _ _. Keeps-invalidate pf db cache provider)

      pub Keeps-add_keys :
          (keys_str : String) → Keeps (Guarded pf db R G) (add_keys pf provider keys_str uuid now)
      unfolding add_keys
      Keeps-add_keys keys_str = Keeps-add_parsed (parse_keys keys_str)

    Keeps-invalidate_all :
        (providers : List String) → Keeps (Guarded pf db R G) (invalidate_all pf providers)
    unfolding invalidate_all
    Keeps-invalidate_all [] = Keeps-pure tt
    Keeps-invalidate_all (p ∷ ps) =
        Ensures-bind (invalidate pf p) _ (Keeps-invalidate pf db cache p)
          (λ _ _. Keeps-invalidate_all ps)

    pub Keeps-delete_keys : (ids : List String) → Keeps (Guarded pf db R G) (delete_keys pf ids)
    unfolding delete_keys
    Keeps-delete_keys [] = Keeps-pure tt
    Keeps-delete_keys (id ∷ ids) =
        Ensures-bind (exec_query pf (matching (id_in (id ∷ ids) ∷ []))) _ (Keeps-exec_query pf db _)
          λ gone _.
            Ensures-bind (invalidate_all pf _) _ (Keeps-invalidate_all _)
              (λ _ _. Keeps-exec_delete pf db _)

    pub Keeps-delete_all_blocked :
        (provider : String) → Keeps (Guarded pf db R G) (delete_all_blocked pf provider)
    unfolding delete_all_blocked
    Keeps-delete_all_blocked provider =
        Ensures-bind (invalidate pf provider) _ (Keeps-invalidate pf db cache provider)
          (λ _ _. Keeps-exec_delete pf db _)

    pub Keeps-update_status :
        (id : String) (new_status : ApiKeyStatus) (now : ℤ)
        → SetsOnly R id new_status now
        → Keeps (Guarded pf db R G) (update_status pf id new_status now)
    unfolding update_status matches holds bind_condition
    Keeps-update_status id new_status now only =
        Ensures-bind (exec_first pf (id_is id ∷ [])) _ (Ensures-exec_first pf db (id_is id ∷ []))
          set
      where
        set :
            (found : Option (Key T))
            → ((k : Key T) → found ≡ some k → R k)
            → Keeps (Guarded pf db R G) (Admin.update_found pf id new_status now found)
        set none h = Keeps-pure tt
        set (some k) h =
            Ensures-bind (invalidate pf k.provider) _ (Keeps-invalidate pf db cache k.provider)
              λ _ _.
                Keeps-exec_update pf db (id_is id ∷ []) _
                  (λ r m u. only r (ground (arith, eq_iff r.id id)) u)
