-- ===== src/Storage/Invariant/Operations/Serving.antt =====
-- The list that a request fails over: it keeps the invariant, and each key in it may serve.
use mathlib.Core.Path.{subst, subst₂}
use thebalance.Prelude.{
  ℕ, ◌≡◌, refl, sym, ◌∙◌, inl, inr, String, true, Option, none, some, List, [], ◌∷◌, map, All,
  arith, Bool-cases,
}
use thebalance.Prelude.Int.{ℤ}
use thebalance.Prelude.Text.{is_empty_text}
use thebalance.Storage.Model.{Key, ApiKey}
use thebalance.Storage.Health.{
  healthy_sorted, sort_descending, insert_sorted, is_allowed, calculate_health_score,
}
use thebalance.Storage.Reads.{
  available_keys, is_available, get_active_keys, get_healthy_sorted_keys, store_in_cache,
  cache_lookup, cached_or_read, keep_usable, get_healthy_sorted_keys_via_cache,
}
use thebalance.Storage.Platform.{World, Platform}
use thebalance.Storage.Platform.Binding.{provider_is, status_is, bind_condition}
use thebalance.Storage.Platform.Sql.{matches}
use thebalance.Storage.Platform.Lawful.{LawfulDb, LawfulCache}
use thebalance.Storage.Ensures.{
  Ensures, Ensures-bind, Ensures-pure, Ensures-fail, Ensures-if, ok-injective,
}
use thebalance.Storage.Invariant.{Guarded}
use thebalance.Storage.Invariant.Rules.{Rules}
use thebalance.Storage.Invariant.Statements.{All-keep, Ensures-exec_query}

module _ {A : Type 0} (P : A → Type 0) (score : A → ℤ) where
  All-insert_sorted : (x : A) (xs : List A) → P x → All P xs → All P (insert_sorted score x xs)
  unfolding insert_sorted
  All-insert_sorted x [] p h = (p, tt)
  All-insert_sorted x (y ∷ ys) p h = ground (arith, All-insert_sorted x ys p h.1)

  All-sort_descending : (xs : List A) → All P xs → All P (sort_descending score xs)
  unfolding sort_descending
  All-sort_descending [] h = tt
  All-sort_descending (x ∷ xs) h =
      All-insert_sorted x (sort_descending score xs) h.0 (All-sort_descending xs h.1)

All-healthy_sorted :
    (P : ApiKey → Type 0) (threshold : ℤ) (now : ℕ) (keys : List ApiKey)
    → All P keys
    → All P (healthy_sorted threshold now keys)
unfolding healthy_sorted
All-healthy_sorted P threshold now keys h =
    All-sort_descending P (calculate_health_score now) _
      (All-keep P (is_allowed threshold now) keys h)

module _ {S T C P : Type 0} (pf : Platform S T C P) {R : Key T → Type 0}
    {G : String → ApiKey → Type 0} (rules : Rules pf R G) where
  rows-Serve :
      (provider : String) (now : ℕ) (ks : List (Key T))
      → All R ks
      → All
          (λ k.
            matches (map bind_condition (provider_is provider ∷ status_is "active" ∷ [])) k ≡ true)
          ks
      → All (G provider) (available_keys pf now ks)
  unfolding available_keys
  rows-Serve provider now [] v m = tt
  rows-Serve provider now (k ∷ ks) v m = elim (Bool-cases (is_available pf now k)) [
    | inl e ↦ rw e (rules.serves provider k v.0 m.0, rows-Serve provider now ks v.1 m.1)
    | inr e ↦ rw e (rows-Serve provider now ks v.1 m.1)
  ]

module _ {S T C P : Type 0} (pf : Platform S T C P) (db : LawfulDb pf) {R : Key T → Type 0}
    {G : String → ApiKey → Type 0} (rules : Rules pf R G) where
  pub Ensures-get_active_keys :
      (provider : String) (now : ℕ)
      → Ensures (Guarded pf db R G) (get_active_keys pf provider now) (All (G provider))
  unfolding get_active_keys
  Ensures-get_active_keys provider now = Ensures-if (is_empty_text provider) _ _ (Ensures-fail _) (
      Ensures-bind _ _ (Ensures-exec_query pf db (provider_is provider ∷ status_is "active" ∷ []))
        (λ ks h. Ensures-pure _ (rows-Serve pf rules provider now ks h.0 h.1)))

  pub Ensures-get_healthy_sorted_keys :
      (threshold : ℤ) (provider : String) (now : ℕ)
      → Ensures
          (Guarded pf db R G)
          (get_healthy_sorted_keys pf threshold provider now)
          (All (G provider))
  unfolding get_healthy_sorted_keys
  Ensures-get_healthy_sorted_keys threshold provider now =
      Ensures-bind _ _ (Ensures-get_active_keys provider now)
        (λ keys h. Ensures-pure _ (All-healthy_sorted (G provider) threshold now keys h))

  module _ (cache : LawfulCache pf) where
    stored-Serve :
        (w : World S C P) (provider q : String) (now later : ℕ) (keys ks : List ApiKey)
        → Guarded pf db R G w
        → All (G provider) keys
        → pf.cache_get q later (pf.cache_insert provider keys now w.api_key_cache) ≡ some ks
        → All (G q) ks
    stored-Serve w provider q now later keys ks h s e =
        elim (cache.get-insert provider q now later w.api_key_cache keys ks e) [
          | inl same ↦ subst₂ (λ p xs. All (G p) xs) same.0 (sym same.1) s
          | inr old ↦ h.sound_cache q later ks old
        ]

    Ensures-store_in_cache :
        (provider : String) (now : ℕ) (keys : List ApiKey)
        → All (G provider) keys
        → Ensures (Guarded pf db R G) (store_in_cache pf provider now keys) (All (G provider))
    unfolding store_in_cache
    Ensures-store_in_cache provider now keys s = record {
      keeps = λ w h. record {
        valid_rows = h.valid_rows;
        sound_cache = λ q later ks e. stored-Serve w provider q now later keys ks h s e;
      };
      gives = λ w h ks e. subst (All (G provider)) (ok-injective keys ks e) s;
    }

    Ensures-cache_lookup :
        (provider : String) (now : ℕ)
        → Ensures
            (Guarded pf db R G)
            (cache_lookup pf provider now)
            (λ found. (ks : List ApiKey) → found ≡ some ks → All (G provider) ks)
    unfolding cache_lookup
    Ensures-cache_lookup provider now = record {
      keeps = λ w h. h;
      gives = λ w h found e ks x.
          h.sound_cache provider now ks
            (ok-injective (pf.cache_get provider now w.api_key_cache) found e ∙ x);
    }

    Ensures-cached_or_read :
        (threshold : ℤ) (provider : String) (now : ℕ) (found : Option (List ApiKey))
        → ((ks : List ApiKey) → found ≡ some ks → All (G provider) ks)
        → Ensures
            (Guarded pf db R G)
            (cached_or_read pf threshold provider now found)
            (All (G provider))
    Ensures-cached_or_read threshold provider now none h =
        Ensures-bind _ _ (Ensures-get_healthy_sorted_keys threshold provider now)
          (λ keys s. Ensures-store_in_cache provider now keys s)
    Ensures-cached_or_read threshold provider now (some ks) h = Ensures-pure ks (h ks refl)

    Ensures-keep_usable :
        (provider : String) (now : ℕ) (keys : List ApiKey)
        → All (G provider) keys
        → Ensures (Guarded pf db R G) (keep_usable pf now keys) (All (G provider))
    unfolding keep_usable
    Ensures-keep_usable provider now keys s = record {
      keeps = λ w h. h;
      gives = λ w h ks e.
          subst (All (G provider)) (ok-injective _ ks e) (All-keep (G provider) _ keys s);
    }

    -- Run where the invariant holds, the list for a provider holds active keys of that provider
    -- alone, whether it comes from the cache or from the database; and the invariant stays.
    pub Ensures-via_cache :
        (threshold : ℤ) (provider : String) (now : ℕ)
        → Ensures
            (Guarded pf db R G)
            (get_healthy_sorted_keys_via_cache pf threshold provider now)
            (All (G provider))
    unfolding get_healthy_sorted_keys_via_cache
    Ensures-via_cache threshold provider now =
        Ensures-bind _ _ (Ensures-cache_lookup provider now) λ found h.
          Ensures-bind _ _ (Ensures-cached_or_read threshold provider now found h)
            (λ keys s. Ensures-keep_usable provider now keys s)
