-- ===== src/Storage/Invariant.antt =====
-- Invariants of the storage component: what each row has and each cached key has. In the first of them
-- the rows are well formed, and a cached list holds keys of its own provider alone.
pub mod Rules
pub mod Rows
pub mod Statements
pub mod Operations
pub mod Names
pub mod History
pub mod Blocked
use thebalance.Prelude.{ℕ, ◌≡◌, ◌⊎◌, String, Bool, true, some, List, All, str_eq}
use thebalance.Storage.Model.{Key, ApiKey, ApiKeyStatus, active}
use thebalance.Storage.Metrics.Rate.{IsRate}
use thebalance.Storage.Platform.{World, Platform}
use thebalance.Storage.Platform.Lawful.{LawfulDb}

-- A row: the success rate is one, and the status is a known word.
pub record IsValidRow {T : Type 0} (k : Key T) : Type 0 where
  pub rate : IsRate k.success_rate
  pub known : (k.status ≡ "active") ⊎ (k.status ≡ "blocked")

-- A key that may serve a request for `provider`.
pub record Serves (provider : String) (k : ApiKey) : Type 0 where
  pub provider_eq : k.provider ≡ provider
  pub is_active : k.status ≡ active
  pub rate : IsRate k.success_rate

module _ {S T C P : Type 0} (pf : Platform S T C P) (db : LawfulDb pf) where
  -- Each row has `R`, and each key that the cache gives for a provider has `G` of it.
  pub record Guarded (R : Key T → Type 0) (G : String → ApiKey → Type 0) (w : World S C P)
      : Type 0 where
    pub valid_rows : All R (db.rows w.db)
    pub sound_cache :
        (provider : String) (now : ℕ) (ks : List ApiKey)
        → pf.cache_get provider now w.api_key_cache ≡ some ks
        → All (G provider) ks

  abbrev pub Inv : World S C P → Type 0
  Inv w = Guarded IsValidRow Serves w
