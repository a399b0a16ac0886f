-- ===== src/Storage/Platform/Lawful.antt =====
-- What the storage code relies on in the services that it calls: a database that runs each statement
-- as SQL says or fails and changes nothing, caches that give back what was put in or nothing, and a
-- `serde_json` that reads back what it wrote.
use thebalance.Prelude.{
  ℕ, ◌<◌, ◌+◌, ◌≡◌, ◌⊎◌, inl, inr, String, not, Option, none, some, List, [], ◌∷◌, ◌++◌, map,
  filter,
}
use thebalance.Prelude.Assoc.{mem, HasNone}
use thebalance.Prelude.Result.{Result, ok, err}
use thebalance.Storage.Model.{Key, ApiKey, StorageError}
use thebalance.Storage.Platform.{Platform}
use thebalance.Storage.Platform.Binding.{Condition, Query, Assignment, matching}
use thebalance.Storage.Platform.Sql.{matches, update_row}

-- `first` gives one of the selected rows, and none only if there is none.
abbrev pub IsFirstOf : {A : Type 0} → Option A → List A → Type 0
IsFirstOf {A} none rows = rows ≡ []
IsFirstOf {A} (some k) rows = (before : List A) × (after : List A) × (rows ≡ before ++ k ∷ after)

-- The effect of a writing statement: that of SQL if it succeeds, and none if it fails.
abbrev pub Writes : {A : Type 0} → Result StorageError (Unit {0}) → A → A → A → Type 0
Writes (ok _) written before after = after ≡ written
Writes (err _) written before after = after ≡ before

-- A writing statement has written or done nothing.
pub written-either :
    {A : Type 0} (r : Result StorageError (Unit {0})) (written before after : A)
    → Writes r written before after
    → (after ≡ written) ⊎ (after ≡ before)
written-either (ok u) written before after h = inl h
written-either (err x) written before after h = inr h

-- A writing statement that fails has done nothing.
pub written-err :
    {A : Type 0} (r : Result StorageError (Unit {0})) (written before after : A) (e : StorageError)
    → Writes r written before after
    → r ≡ err e
    → after ≡ before
written-err (ok u) written before after e h x = cc
written-err (err x) written before after e h y = h

-- A writing statement that succeeds has written.
pub written-ok :
    {A : Type 0} (r : Result StorageError (Unit {0})) (written before after : A)
    → Writes r written before after
    → r ≡ ok tt
    → after ≡ written
written-ok (ok u) written before after h e = h
written-ok (err x) written before after h e = cc

module _ {S T C P : Type 0} (pf : Platform S T C P) where
  pub record LawfulDb : Type 0 where
    -- A set gives its members, each once, in whatever order.
    pub set_members : (x : String) (xs : List String) → mem x (pf.set_order xs) ≡ mem x xs
    pub set_once : (xs : List String) → HasNone xs → HasNone (pf.set_order xs)
    pub rows : S → List (Key T)
    pub all_rows : (q : Query) (s : S) → rows (pf.all q s).1 ≡ rows s
    pub all_ok :
        (conditions : List Condition) (s : S) (ks : List (Key T))
        → (pf.all (matching conditions) s).0 ≡ ok ks
        → ks ≡ filter (matches conditions) (rows s)
    pub first_rows : (conditions : List Condition) (s : S) → rows (pf.first conditions s).1 ≡ rows s
    pub first_ok :
        (conditions : List Condition) (s : S) (found : Option (Key T))
        → (pf.first conditions s).0 ≡ ok found
        → IsFirstOf found (filter (matches conditions) (rows s))
    pub insert_lem :
        (k : Key T) (s : S)
        → Writes (pf.run_insert k s).0 (rows s ++ k ∷ []) (rows s) (rows (pf.run_insert k s).1)
    pub update_lem :
        (conditions : List Condition) (assignments : List (Assignment T)) (s : S)
        → Writes
            (pf.run_update conditions assignments s).0
            (map (update_row conditions assignments) (rows s))
            (rows s)
            (rows (pf.run_update conditions assignments s).1)
    pub delete_lem :
        (conditions : List Condition) (s : S)
        → Writes
            (pf.run_delete conditions s).0
            (filter (λ k. not (matches conditions k)) (rows s))
            (rows s)
            (rows (pf.run_delete conditions s).1)

  -- A cache may forget an entry at any time. It never answers with a list that was not put in for
  -- that provider, nor with one older than 60 seconds.
  pub record LawfulCache : Type 0 where
    pub get-invalidate :
        (p : String) (now : ℕ) (c : C) → pf.cache_get p now (pf.cache_invalidate p c) ≡ none
    pub invalidate_other :
        (p q : String) (now : ℕ) (c : C) (ks : List ApiKey)
        → pf.cache_get q now (pf.cache_invalidate p c) ≡ some ks
        → pf.cache_get q now c ≡ some ks
    pub get-insert :
        (p q : String) (now later : ℕ) (c : C) (ks js : List ApiKey)
        → pf.cache_get q later (pf.cache_insert p ks now c) ≡ some js
        → ((p ≡ q) × (js ≡ ks) × (later < now + 60)) ⊎ (pf.cache_get q later c ≡ some js)
