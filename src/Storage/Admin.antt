-- ===== src/Storage/Admin.antt =====
-- The writing functions of d1_storage.rs that the web pages call: adding, deleting and blocking keys.
use thebalance.Prelude.{
  ℕ, suc, String, Bool, not, ◌||◌, ◌==◌, Option, none, some, List, [], ◌∷◌, map, filter,
}
use thebalance.Prelude.Int.{ℤ, pos}
use thebalance.Prelude.Assoc.{mem, dedup}
use thebalance.Prelude.Text.{is_empty_text, split, trim}
use thebalance.Storage.Model.{Key, ApiKeyStatus, active, blocked}
use thebalance.Storage.Platform.{
  World, Platform, Action, pure, exec_query, exec_first, exec_insert, exec_update, exec_delete,
  invalidate, ◌>>=◌, ◌>>◌,
}
use thebalance.Storage.Platform.Binding.{
  provider_is, status_is, id_is, id_in, matching, status, updated_at,
}

abbrev pub is_separator : ℕ → Bool
is_separator c = c == b'\n' || c == b','

-- The keys that a text names: split at newlines and commas, trimmed, without the empty ones.
unfoldable pub parse_keys : String → List String
unfolding split trim filter dedup
parse_keys text = dedup (filter (λ s. not (is_empty_text s)) (map trim (split is_separator text)))

-- The set without the keys that the provider has.
unfoldable pub new_keys : List String → List String → List String
unfolding mem filter
new_keys keys existing = filter (λ key. not (mem key existing)) keys

abbrev pub status_text : ApiKeyStatus → String
status_text active = "active"
status_text blocked = "blocked"

module _ {S T C P : Type 0} (pf : Platform S T C P) where
  -- A row as `add_keys` creates it; `id` is a fresh UUID.
  unfoldable pub new_row : String → String → ℤ → String → Key T
  new_row provider id now key = record {
    id = id;
    key = key;
    provider = provider;
    model_coolings = pf.json.empty_object;
    total_cooling_seconds = pos 0;
    status = "active";
    created_at = now;
    updated_at = now;
    latency_ms = pos 0;
    success_rate = pos 1000;
    consecutive_failures = pos 0;
    last_checked_at = pos 0;
    last_succeeded_at = pos 0;
  }

  -- The loop of inserts; `uuid n` is the n-th UUID drawn.
  unfoldable pub insert_keys :
      String → (ℕ → String) → ℤ → ℕ → List String → Action (World S C P) (Unit {0})
  unfolding new_row
  insert_keys provider uuid now n [] = pure tt
  insert_keys provider uuid now n (key ∷ keys) =
      exec_insert pf (new_row provider (uuid n) now key)
      >> insert_keys provider uuid now (suc n) keys

  abbrev pub add_parsed : String → (ℕ → String) → ℤ → List String → Action (World S C P) (Unit {0})
  add_parsed provider uuid now [] = pure tt
  add_parsed provider uuid now (key ∷ keys) = do
    existing ← exec_query pf (matching (provider_is provider ∷ []))
    insert_keys provider uuid now 0
        (pf.set_order (new_keys (key ∷ keys) (map (λ k. k.key) existing)))
    invalidate pf provider

  unfoldable pub add_keys : String → String → (ℕ → String) → ℤ → Action (World S C P) (Unit {0})
  unfolding insert_keys new_keys parse_keys
  add_keys provider keys_str uuid now = add_parsed provider uuid now (parse_keys keys_str)

  unfoldable pub invalidate_all : List String → Action (World S C P) (Unit {0})
  unfolding invalidate
  invalidate_all [] = pure tt
  invalidate_all (provider ∷ providers) = invalidate pf provider >> invalidate_all providers

  -- The caches are invalidated before the rows go.
  unfoldable pub delete_keys : List String → Action (World S C P) (Unit {0})
  unfolding invalidate_all dedup
  delete_keys [] = pure tt
  delete_keys (id ∷ ids) = do
    keys_to_delete ← exec_query pf (matching (id_in (id ∷ ids) ∷ []))
    invalidate_all (dedup (map (λ k. k.provider) keys_to_delete))
    exec_delete pf (id_in (id ∷ ids) ∷ [])

  unfoldable pub delete_all_blocked : String → Action (World S C P) (Unit {0})
  unfolding invalidate
  delete_all_blocked provider =
      invalidate pf provider >> exec_delete pf (provider_is provider ∷ status_is "blocked" ∷ [])

  abbrev pub update_found :
      String → ApiKeyStatus → ℤ → Option (Key T) → Action (World S C P) (Unit {0})
  update_found id new_status now none = pure tt
  update_found id new_status now (some k) =
      invalidate pf k.provider
      >> exec_update pf (id_is id ∷ []) (status (status_text new_status) ∷ updated_at now ∷ [])

  unfoldable pub update_status : String → ApiKeyStatus → ℤ → Action (World S C P) (Unit {0})
  unfolding invalidate
  update_status id new_status now = exec_first pf (id_is id ∷ []) >>= update_found id new_status now
