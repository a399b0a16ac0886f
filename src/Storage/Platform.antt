-- ===== src/Storage/Platform.antt =====
-- What the storage code calls and does not implement: the D1 database behind toasty's statements,
-- and the two `mini_moka` caches; with hybrid/d1_executor.rs and hybrid/sql_converter.rs, which bind
-- the parameters of a statement.
pub mod Binding
pub mod Sql
pub mod Lawful
use thebalance.Prelude.{ℕ, String, Bool, Option, List, [], ◌∷◌, map}
use thebalance.Prelude.Int.{ℤ}
use thebalance.Prelude.Result.{Result, ok, err}
use thebalance.Storage.Model.{Key, ApiKey, StorageError, CoolingsJson}
use Binding.{Condition, Query, Assignment, bind_condition, bind_query, bind_assignment, bind_row}

-- The state of the worker: the database and the two statics of d1_storage.rs.
pub record World (S C P : Type 0) : Type 0 where
  pub db : S
  pub api_key_cache : C
  pub cooldown_cache : P

-- `S` is the database, `T` the JSON texts, `C` and `P` the caches. A statement may fail, and times
-- are arguments.
pub record Platform (S T C P : Type 0) : Type 0 where
  pub json : CoolingsJson T
  pub all : Query → S → Result StorageError (List (Key T)) × S
  pub first : List Condition → S → Result StorageError (Option (Key T)) × S
  pub run_insert : Key T → S → Result StorageError (Unit {0}) × S
  pub run_update : List Condition → List (Assignment T) → S → Result StorageError (Unit {0}) × S
  pub run_delete : List Condition → S → Result StorageError (Unit {0}) × S
  pub cache_get : String → ℕ → C → Option (List ApiKey)
  pub cache_insert : String → List ApiKey → ℕ → C → C
  pub cache_invalidate : String → C → C
  -- The order in which a `HashSet` of these texts gives them.
  pub set_order : List String → List String
  pub cooldown_contains : String → ℕ → P → Bool
  pub cooldown_insert_with_ttl : String → ℕ → ℕ → P → P

-- A storage function: it may fail, and what it wrote before stays written.
abbrev pub Action : Type 0 → Type 0 → Type 0
Action W A = W → Result StorageError A × W

module _ {W A : Type 0} where
  unfoldable pub pure : A → Action W A
  pure a w = (ok a, w)

  unfoldable pub lift : Result StorageError A → Action W A
  lift r w = (r, w)

module _ {W A B : Type 0} where
  abbrev continue : Result StorageError A → (A → Action W B) → Action W B
  continue (ok a) f w = f a w
  continue (err e) f w = (err e, w)

  infixl 5 ◌>>=◌ ◌>>◌
  unfoldable pub ◌>>=◌ : Action W A → (A → Action W B) → Action W B
  unfolding pure lift
  ◌>>=◌ m f w = let (r, w') = m w in continue r f w'

  abbrev pub ◌>>◌ : Action W A → Action W B → Action W B
  m >> n = m >>= λ _. n

module _ {S T C P : Type 0} (pf : Platform S T C P) where
  -- Runs a statement on the database.
  abbrev pub on_db : {A : Type 0} → (S → Result StorageError A × S) → Action (World S C P) A
  on_db run w = let (r, s) = run w.db in (r, record w { db = s })

  unfoldable pub exec_query : Query → Action (World S C P) (List (Key T))
  exec_query q = on_db (pf.all (bind_query q))

  unfoldable pub exec_first : List Condition → Action (World S C P) (Option (Key T))
  exec_first conditions = on_db (pf.first (map bind_condition conditions))

  unfoldable pub exec_insert : Key T → Action (World S C P) (Unit {0})
  exec_insert row = on_db (pf.run_insert (bind_row row))

  unfoldable pub exec_update :
      List Condition → List (Assignment T) → Action (World S C P) (Unit {0})
  exec_update conditions assignments =
      on_db (pf.run_update (map bind_condition conditions) (map bind_assignment assignments))

  unfoldable pub exec_delete : List Condition → Action (World S C P) (Unit {0})
  exec_delete conditions = on_db (pf.run_delete (map bind_condition conditions))

  -- `API_KEY_CACHE.invalidate(provider)`.
  unfoldable pub invalidate : String → Action (World S C P) (Unit {0})
  invalidate provider w =
      (ok tt, record w { api_key_cache = pf.cache_invalidate provider w.api_key_cache })
