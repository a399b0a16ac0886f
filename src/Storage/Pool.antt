-- ===== src/Storage/Pool.antt =====
-- The pool of keys as the pages show it: who is in the table and who is blocked, without metrics and
-- cooldowns; and what each call of d1_storage.rs promises to do to it.
pub mod Statements
pub mod Edits
pub mod Refines
pub mod Failures
pub mod Unique
mod Tests
use thebalance.Prelude.{
  ℕ, suc, String, Bool, not, ◌&&◌, List, [], ◌∷◌, ◌++◌, map, filter, str_eq, if◌then◌else◌,
}
use thebalance.Prelude.Assoc.{mem}
use thebalance.Storage.Model.{Key, ApiKeyStatus}
use thebalance.Storage.Admin.{parse_keys, new_keys, status_text}
use thebalance.Storage.Invariant.History.{Call, add, delete, delete_blocked, set_status}

pub record Entry : Type 0 where
  pub id : String
  pub key : String
  pub provider : String
  pub status : String

abbrev pub entry : {T : Type 0} → Key T → Entry
entry k = record { id = k.id; key = k.key; provider = k.provider; status = k.status }

-- The keys of a provider.
unfoldable pub keys_of : String → List Entry → List String
unfolding filter
keys_of provider pool = map (λ e. e.key) (filter (λ e. str_eq e.provider provider) pool)

-- An active entry for each key, with the UUIDs drawn from the n-th on.
unfoldable pub fresh : String → (ℕ → String) → ℕ → List String → List Entry
fresh provider uuid n [] = []
fresh provider uuid n (key ∷ keys) =
    record { id = uuid n; key = key; provider = provider; status = "active" }
    ∷ fresh provider uuid (suc n) keys

-- The keys that the provider has not got are added, active, at the end; `order` is that of a set of keys.
unfoldable pub add_new :
    (List String → List String) → String → (ℕ → String) → List String → List Entry → List Entry
unfolding keys_of fresh new_keys
add_new order provider uuid keys pool =
    pool ++ fresh provider uuid 0 (order (new_keys keys (keys_of provider pool)))

unfoldable pub remove : (Entry → Bool) → List Entry → List Entry
unfolding filter
remove test pool = filter (λ e. not (test e)) pool

unfoldable pub set_entry : String → ApiKeyStatus → Entry → Entry
set_entry id s e = if str_eq e.id id then record e { status = status_text s } else e

-- What a call that succeeds makes of the pool.
unfoldable pub step : {T : Type 0} → (List String → List String) → Call T → List Entry → List Entry
unfolding add_new remove set_entry parse_keys mem
step order (add provider text uuid now) pool = add_new order provider uuid (parse_keys text) pool
step order (delete ids) pool = remove (λ e. mem e.id ids) pool
step order (delete_blocked provider) pool =
    remove (λ e. str_eq e.provider provider && str_eq e.status "blocked") pool
step order (set_status id s now) pool = map (set_entry id s) pool
step order _ pool = pool

unfoldable pub steps :
    {T : Type 0} → (List String → List String) → List (Call T) → List Entry → List Entry
unfolding step
steps order [] pool = pool
steps order (c ∷ cs) pool = steps order cs (step order c pool)
