-- ===== src/Storage/Pool/Statements.antt =====
-- A statement that succeeds, on the pool.
use thebalance.Prelude.{
  ◌≡◌, refl, ap, ◌∙◌, inl, inr, Bool, not, List, [], ◌∷◌, ◌++◌, map, filter, Bool-cases,
}
use mathlib.Core.List.{map-append}
use thebalance.Prelude.Result.{ok}
use thebalance.Storage.Model.{Key}
use thebalance.Storage.Platform.{World, Platform, exec_query, exec_insert, exec_update, exec_delete}
use thebalance.Storage.Platform.Binding.{
  Condition, Assignment, matching, bind_condition, bind_query, bind_assignment, bind_row,
}
use thebalance.Storage.Platform.Sql.{matches, update_row}
use thebalance.Storage.Platform.Lawful.{LawfulDb, written-ok}
use thebalance.Storage.Pool.{Entry, entry, remove}

module _ {A B : Type 0} (f : A → B) where
  pub map-filter :
      (p : A → Bool) (q : B → Bool) (xs : List A)
      → ((x : A) → p x ≡ q (f x))
      → map f (filter p xs) ≡ filter q (map f xs)
  unfolding filter
  map-filter p q [] same = refl
  map-filter p q (x ∷ xs) same =
      let rest = map-filter p q xs same in
      elim (Bool-cases (q (f x))) [
        | inl e ↦ rw (same x, e) (ap (λ ys. f x ∷ ys) rest)
        | inr e ↦ rw (same x, e) rest
      ]

  pub map_commutes :
      (g : A → A) (h : B → B) (xs : List A)
      → ((x : A) → f (g x) ≡ h (f x))
      → map f (map g xs) ≡ map h (map f xs)
  map_commutes g h [] same = refl
  map_commutes g h (x ∷ xs) same = cc (same x, map_commutes g h xs same)

module _ {S T C P : Type 0} (pf : Platform S T C P) (db : LawfulDb pf) where
  -- The pool that a world holds.
  abbrev pub pool : World S C P → List Entry
  pool w = map entry (db.rows w.db)

  pub insert-ok :
      (k : Key T) (w : World S C P)
      → (exec_insert pf k w).0 ≡ ok tt
      → pool (exec_insert pf k w).1 ≡ pool w ++ entry k ∷ []
  unfolding exec_insert bind_row
  insert-ok k w e =
      ap (map entry) (written-ok _ _ _ _ (db.insert_lem (bind_row k) w.db) e)
      ∙ map-append entry (db.rows w.db) (bind_row k ∷ [])

  pub delete-ok :
      (conditions : List Condition) (test : Entry → Bool) (w : World S C P)
      → ((k : Key T) → matches (map bind_condition conditions) k ≡ test (entry k))
      → (exec_delete pf conditions w).0 ≡ ok tt
      → pool (exec_delete pf conditions w).1 ≡ remove test (pool w)
  unfolding exec_delete remove
  delete-ok conditions test w same e =
      ap (map entry) (written-ok _ _ _ _ (db.delete_lem (map bind_condition conditions) w.db) e)
      ∙ map-filter entry _ (λ x. not (test x)) (db.rows w.db) (λ k. ap not (same k))

  pub update-ok :
      (conditions : List Condition) (assignments : List (Assignment T)) (change : Entry → Entry)
      (w : World S C P)
      → ((k : Key T)
          → entry (update_row (map bind_condition conditions) (map bind_assignment assignments) k)
            ≡ change (entry k))
      → (exec_update pf conditions assignments w).0 ≡ ok tt
      → pool (exec_update pf conditions assignments w).1 ≡ map change (pool w)
  unfolding exec_update
  update-ok conditions assignments change w same e =
      ap (map entry) (written-ok _ _ _ _ (db.update_lem _ _ w.db) e)
      ∙ map_commutes entry _ change (db.rows w.db) same

  pub query-ok :
      (conditions : List Condition) (test : Entry → Bool) (w : World S C P) (ks : List (Key T))
      → ((k : Key T) → matches (map bind_condition conditions) k ≡ test (entry k))
      → (exec_query pf (matching conditions) w).0 ≡ ok ks
      → map entry ks ≡ filter test (pool w)
  unfolding exec_query bind_query
  query-ok conditions test w ks same e =
      ap (map entry) (db.all_ok (map bind_condition conditions) w.db ks e)
      ∙ map-filter entry _ test (db.rows w.db) same
