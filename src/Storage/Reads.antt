-- ===== src/Storage/Reads.antt =====
-- The reading functions of d1_storage.rs: lists of keys, and the list that a request fails over.
use mathlib.Core.Option
use thebalance.Prelude.{
  ℕ, ◌-◌, ◌*◌, ◌+◌, ◌%◌, ◌^◌, String, Bool, false, not, ◌||◌, Option, none, some, List, [], ◌∷◌,
  map, ltb, if◌then◌else◌, str_eq, filter, length,
}
use thebalance.Prelude.Int.{ℤ, pos, as_u64, as_i32}
use thebalance.Prelude.Text.{is_empty_text}
use thebalance.Prelude.Assoc.{Assoc}
use thebalance.Prelude.Result.{Result, ok, err}
use thebalance.Storage.Model.{
  Key, ApiKey, StorageError, ModelCooling, worker, get_model_coolings, db_key_to_api_key,
}
use thebalance.Storage.Platform.{World, Platform, Action, pure, lift, exec_query, exec_first, ◌>>=◌}
use thebalance.Storage.Platform.Binding.{
  Query, provider_is, status_is, id_is, id_in, matching, SortField, by_created_at,
  by_total_cooling_seconds, by_updated_at, Direction, asc, desc,
}
use thebalance.Storage.Health.{healthy_sorted}

-- The arms of `match sort_by`; any other name sorts by the last update.
abbrev sort_field : String → SortField
sort_field sort_by =
    if str_eq sort_by "createdAt"
    then by_created_at
    else if str_eq sort_by "totalCoolingSeconds"
    then by_total_cooling_seconds
    else by_updated_at

abbrev direction : String → Direction
direction sort_order = if str_eq sort_order "asc" then asc else desc

-- `usize` has 32 bits in the worker, and wraps in the release build.
unfoldable pub page_offset : ℕ → ℕ → ℕ
page_offset page page_size = ((page + 2 ^ 32 - 1) % 2 ^ 32 * page_size) % 2 ^ 32

unfoldable pub list_query : String → String → ℕ → ℕ → String → String → Query
unfolding page_offset
list_query provider status page page_size sort_by sort_order = record {
  conditions = provider_is provider ∷ status_is status ∷ [];
  order = some (sort_field sort_by, direction sort_order);
  limit = some (pos page_size);
  offset = some (pos (page_offset page page_size));
}

-- `cooling.end_at as u64 > now` for some model.
unfoldable pub any_cooling : ℕ → Assoc ModelCooling → Bool
unfolding as_u64
any_cooling now [] = false
any_cooling now ((model, c) ∷ m) = ltb now (as_u64 c.end_at) || any_cooling now m

abbrev not_cooling : ℕ → Result StorageError (Option (Assoc ModelCooling)) → Bool
not_cooling now (err e) = false
not_cooling now (ok none) = false
not_cooling now (ok (some m)) = not (any_cooling now m)

module _ {S T C P : Type 0} (pf : Platform S T C P) where
  unfoldable pub list_keys :
      String → String → ℕ → ℕ → String → String → Action (World S C P) (List ApiKey × ℤ)
  unfolding list_query
  list_keys provider status page page_size sort_by sort_order = do
    all_results ← exec_query pf (matching (provider_is provider ∷ status_is status ∷ []))
    rows ← exec_query pf (list_query provider status page page_size sort_by sort_order)
    pure (map (db_key_to_api_key pf.json) rows, as_i32 (pos (length all_results)))

  unfoldable pub get_key_coolings : String → Action (World S C P) (Option ApiKey)
  get_key_coolings key_id = do
    found ← exec_first pf (id_is key_id ∷ [])
    pure (Option.map (db_key_to_api_key pf.json) found)

  unfoldable pub get_keys_by_ids : List String → Action (World S C P) (List ApiKey)
  get_keys_by_ids [] = pure []
  get_keys_by_ids (id ∷ ids) = do
    rows ← exec_query pf (matching (id_in (id ∷ ids) ∷ []))
    pure (map (db_key_to_api_key pf.json) rows)

  -- The closure of `filter_map`: the coolings are there, they parse, and none lasts.
  unfoldable pub is_available : ℕ → Key T → Bool
  unfolding get_model_coolings any_cooling
  is_available now k = not_cooling now (get_model_coolings pf.json k)

  unfoldable pub available_keys : ℕ → List (Key T) → List ApiKey
  unfolding filter is_available
  available_keys now rows = map (db_key_to_api_key pf.json) (filter (is_available now) rows)

  unfoldable pub get_active_keys : String → ℕ → Action (World S C P) (List ApiKey)
  unfolding available_keys
  get_active_keys provider now =
      if is_empty_text provider then lift (err (worker "Provider not specified")) else do
        rows ← exec_query pf (matching (provider_is provider ∷ status_is "active" ∷ []))
        pure (available_keys now rows)

  -- An empty list is returned before the sort; the sort of it is empty too.
  unfoldable pub get_healthy_sorted_keys : ℤ → String → ℕ → Action (World S C P) (List ApiKey)
  unfolding healthy_sorted
  get_healthy_sorted_keys threshold provider now = do
    keys ← get_active_keys provider now
    pure (healthy_sorted threshold now keys)

  unfoldable pub store_in_cache : String → ℕ → List ApiKey → Action (World S C P) (List ApiKey)
  store_in_cache provider now keys w =
      (ok keys, record w { api_key_cache = pf.cache_insert provider keys now w.api_key_cache })

  -- `API_KEY_CACHE.get(provider)`.
  unfoldable pub cache_lookup : String → ℕ → Action (World S C P) (Option (List ApiKey))
  cache_lookup provider now w = (ok (pf.cache_get provider now w.api_key_cache), w)

  abbrev pub cached_or_read :
      ℤ → String → ℕ → Option (List ApiKey) → Action (World S C P) (List ApiKey)
  cached_or_read threshold provider now (some keys) = pure keys
  cached_or_read threshold provider now none = do
    keys ← get_healthy_sorted_keys threshold provider now
    store_in_cache provider now keys

  -- The filter of step 2, against the penalty box.
  unfoldable pub keep_usable : ℕ → List ApiKey → Action (World S C P) (List ApiKey)
  unfolding filter
  keep_usable now keys w =
      (ok (filter (λ k. not (pf.cooldown_contains k.id now w.cooldown_cache)) keys), w)

  unfoldable pub get_healthy_sorted_keys_via_cache :
      ℤ → String → ℕ → Action (World S C P) (List ApiKey)
  unfolding cache_lookup store_in_cache keep_usable
  get_healthy_sorted_keys_via_cache threshold provider now = do
    cached ← cache_lookup provider now
    all_cached_keys ← cached_or_read threshold provider now cached
    keep_usable now all_cached_keys
