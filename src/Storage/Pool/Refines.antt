-- ===== src/Storage/Pool/Refines.antt =====
-- Any sequence of calls of d1_storage.rs, on the pool.
use thebalance.Prelude.{ℕ, ◌≡◌, refl, ap, ◌∙◌, String, Option, none, some, List, [], ◌∷◌}
use thebalance.Prelude.Int.{ℤ}
use thebalance.Prelude.Text.{is_empty_text}
use thebalance.Prelude.Result.{ok}
use thebalance.Errors.{GoogleJson}
use thebalance.Storage.Model.{ApiKey}
use thebalance.Storage.Cooldowns.{flag_key_with_cooldown}
use thebalance.Storage.Reads.{
  get_active_keys, get_healthy_sorted_keys, store_in_cache, cache_lookup, cached_or_read,
  keep_usable, get_healthy_sorted_keys_via_cache,
}
use thebalance.Storage.Admin.{add_keys, delete_keys, delete_all_blocked, update_status}
use thebalance.Storage.Platform.{World, Platform}
use thebalance.Storage.Platform.Lawful.{LawfulDb}
use thebalance.Storage.Ensures.{Keeps, Ensures-bind, Keeps-pure, Keeps-lift, Keeps-if}
use thebalance.Storage.Cleanup.Deletes.{Untouched-entry}
use thebalance.Storage.Invariant.Names.{Holds, Holds-query, Holds-updates}
use thebalance.Storage.Invariant.Operations.{
  Keeps-update_key_metrics, Keeps-set_key_model_cooldown_if_available, Keeps-set_cooldown,
  Keeps-delete_permanently_failed_keys,
}
use thebalance.Storage.Invariant.History.{
  Call, update_metrics, cool_model, cool_plain, flag, add, delete, delete_blocked, set_status,
  read_keys, clean_up, run_call, run_calls,
}
use thebalance.Storage.Pool.{Entry, entry, step, steps}
use thebalance.Storage.Pool.Statements.{pool}
use thebalance.Storage.Pool.Edits.{
  Makes-add_keys, Makes-delete_keys, Makes-delete_all_blocked, Makes-update_status,
}

module _ {S T C P : Type 0} (pf : Platform S T C P) (db : LawfulDb pf) where
  module _ (before : List Entry) where
    abbrev HoldsPool : World S C P → Type 0
    HoldsPool = Holds pf entry db before

    pub Keeps-via_cache :
        (threshold : ℤ) (provider : String) (now : ℕ)
        → Keeps HoldsPool (get_healthy_sorted_keys_via_cache pf threshold provider now)
    unfolding get_healthy_sorted_keys_via_cache cache_lookup store_in_cache keep_usable
        get_healthy_sorted_keys get_active_keys
    Keeps-via_cache threshold provider now =
        Ensures-bind (cache_lookup pf provider now) _
          record { keeps = λ w h. h; gives = λ w h a e. tt }
          λ found _.
            Ensures-bind (cached_or_read pf threshold provider now found) _ (read found)
              (λ keys _. record { keeps = λ w h. h; gives = λ w h a e. tt })
      where
        active : Keeps HoldsPool (get_active_keys pf provider now)
        active =
            Keeps-if (is_empty_text provider) _ _ (Keeps-lift _)
              (Ensures-bind _ _ (Holds-query pf entry db before _) (λ rows _. Keeps-pure _))

        read :
            (found : Option (List ApiKey))
            → Keeps HoldsPool (cached_or_read pf threshold provider now found)
        read (some keys) = Keeps-pure keys
        read none =
            Ensures-bind _ _ (Ensures-bind _ _ active (λ keys _. Keeps-pure _))
              (λ keys _. record { keeps = λ w h. h; gives = λ w h a e. tt })

  module _ (google : GoogleJson) where
    -- The call succeeds, if it edits the pool.
    abbrev pub Succeeds : Call T → World S C P → Type 0
    Succeeds (add provider text uuid now) w = (add_keys pf provider text uuid now w).0 ≡ ok tt
    Succeeds (delete ids) w = (delete_keys pf ids w).0 ≡ ok tt
    Succeeds (delete_blocked provider) w = (delete_all_blocked pf provider w).0 ≡ ok tt
    Succeeds (set_status id s now) w = (update_status pf id s now w).0 ≡ ok tt
    Succeeds _ w = Unit

    abbrev pub AllSucceed : List (Call T) → World S C P → Type 0
    AllSucceed [] w = Unit
    AllSucceed (c ∷ cs) w = Succeeds c w × AllSucceed cs (run_call pf google c w)

    pub run_call-step :
        (c : Call T) (w : World S C P)
        → Succeeds c w
        → pool pf db (run_call pf google c w) ≡ step pf.set_order c (pool pf db w)
    unfolding run_call step flag_key_with_cooldown
    run_call-step (update_metrics id b latency now) w done =
        (Keeps-update_key_metrics pf (Holds-updates pf entry db _ (Untouched-entry pf)) id b latency
            now).keeps
          w refl
    run_call-step (cool_model id model seconds now) w done =
        (Keeps-set_key_model_cooldown_if_available pf
            (Holds-updates pf entry db _ (Untouched-entry pf)) id model seconds now).keeps
          w refl
    run_call-step (cool_plain id model seconds now later) w done =
        (Keeps-set_cooldown pf (Holds-updates pf entry db _ (Untouched-entry pf)) id model seconds
            now later).keeps
          w refl
    run_call-step (flag id seconds now) w done = refl
    run_call-step (add provider text uuid now) w done =
        Makes-add_keys pf db provider text uuid now w tt done
    run_call-step (delete ids) w done = Makes-delete_keys pf db ids w tt done
    run_call-step (delete_blocked provider) w done =
        Makes-delete_all_blocked pf db provider w tt done
    run_call-step (set_status id s now) w done = Makes-update_status pf db id s now w tt done
    run_call-step (read_keys threshold provider now) w done =
        (Keeps-via_cache _ threshold provider now).keeps w refl
    run_call-step (clean_up answer threshold now provider) w done =
        (Keeps-delete_permanently_failed_keys pf google (Holds pf entry db (pool pf db w))
            (Holds-query pf entry db _)
            (Keeps-update_key_metrics pf (Holds-updates pf entry db _ (Untouched-entry pf))) answer
            threshold now provider).keeps
          w refl

    -- Calls in any order, of which those that edit the pool succeed, do to the table what the pool's
    -- own steps say: an addition appends the pasted keys that the provider has not got, in the order
    -- that a set gives them, active and with fresh ids; a deletion removes the ids or the provider's blocked keys; a status is set for
    -- the id; and metrics, cooldowns, reads and cleanups, failing or not, change nothing.
    pub run_calls-steps :
        (cs : List (Call T)) (w : World S C P)
        → AllSucceed cs w
        → pool pf db (run_calls pf google cs w) ≡ steps pf.set_order cs (pool pf db w)
    unfolding run_calls steps
    run_calls-steps [] w done = refl
    run_calls-steps (c ∷ cs) w done =
        run_calls-steps cs (run_call pf google c w) done.1
        ∙ ap (steps pf.set_order cs) (run_call-step c w done.0)
