-- ===== src/Storage/Invariant/Statements.antt =====
-- What each statement and cache operation does to the invariant.
use mathlib.Core.Path.{subst}
use thebalance.Prelude.{
  ◌≡◌, sym, inl, inr, String, Bool, true, not, Option, none, some, List, [], ◌∷◌, ◌++◌, map, All,
  filter, All-filter, Bool-cases,
}
use thebalance.Prelude.Result.{Result, ok, err}
use thebalance.Storage.Model.{Key, ApiKey, StorageError}
use thebalance.Storage.Platform.{
  Platform, on_db, exec_query, exec_first, exec_insert, exec_update, exec_delete, invalidate,
}
use thebalance.Storage.Platform.Binding.{
  Condition, Query, Assignment, matching, bind_condition, bind_query, bind_assignment, bind_row,
}
use thebalance.Storage.Platform.Sql.{matches, assign_all, update_row}
use thebalance.Storage.Platform.Lawful.{LawfulDb, LawfulCache, Writes, IsFirstOf}
use thebalance.Storage.Ensures.{Ensures, Keeps}
use thebalance.Storage.Invariant.{Guarded}

module _ {A : Type 0} (P : A → Type 0) where
  pub All-append : (xs ys : List A) → All P xs → All P ys → All P (xs ++ ys)
  All-append [] ys p q = q
  All-append (x ∷ xs) ys p q = (p.0, All-append xs ys p.1 q)

  pub All-map : (f : A → A) (xs : List A) → ((x : A) → P x → P (f x)) → All P xs → All P (map f xs)
  All-map f [] h p = tt
  All-map f (x ∷ xs) h p = (h x p.0, All-map f xs h p.1)

  pub All-keep : (test : A → Bool) (xs : List A) → All P xs → All P (filter test xs)
  unfolding filter
  All-keep test [] p = tt
  All-keep test (x ∷ xs) p = elim (Bool-cases (test x)) [
    | inl e ↦ rw e (p.0, All-keep test xs p.1)
    | inr e ↦ rw e (All-keep test xs p.1)
  ]

  -- The member in the middle.
  pub All-middle : (xs ys : List A) (x : A) → All P (xs ++ x ∷ ys) → P x
  All-middle [] ys x p = p.0
  All-middle (y ∷ xs) ys x p = All-middle xs ys x p.1

-- A writing statement leaves what both of its outcomes have.
Writes-All :
    {A : Type 0} (P : A → Type 0) (r : Result StorageError (Unit {0}))
    (written before after : List A)
    → Writes r written before after
    → All P written
    → All P before
    → All P after
Writes-All P (ok u) written before after h p q = subst (All P) (sym h) p
Writes-All P (err e) written before after h p q = subst (All P) (sym h) q

pub some_eq : {A : Type 0} (a b : A) → some a ≡ some b → a ≡ b
some_eq a b e = cc

module _ {S T C P : Type 0} (pf : Platform S T C P) (db : LawfulDb pf) (R : Key T → Type 0) where
  all-valid : (q : Query) (s : S) → All R (db.rows s) → All R (db.rows (pf.all q s).1)
  all-valid q s h = subst (All R) (sym (db.all_rows q s)) h

  first-valid :
      (conditions : List Condition) (s : S)
      → All R (db.rows s)
      → All R (db.rows (pf.first conditions s).1)
  first-valid conditions s h = subst (All R) (sym (db.first_rows conditions s)) h

  first_row :
      (test : Key T → Bool) (rows : List (Key T)) (found : Option (Key T)) (k : Key T)
      → IsFirstOf found (filter test rows)
      → All R rows
      → found ≡ some k
      → R k
  first_row test rows none k h v e = cc
  first_row test rows (some j) k (before, after, h) v e =
      subst R (some_eq j k e)
        (All-middle R before after j (subst (All R) h (All-keep R test rows v)))

  update_row-valid :
      (conditions : List Condition) (assignments : List (Assignment T))
      → ((k : Key T) → matches conditions k ≡ true → R k → R (assign_all assignments k))
      → (k : Key T) → R k
      → R (update_row conditions assignments k)
  unfolding update_row
  update_row-valid conditions assignments valid k v = elim (Bool-cases (matches conditions k)) [
    | inl e ↦ rw e (valid k e v)
    | inr e ↦ rw e v
  ]

module _ {S T C P : Type 0} (pf : Platform S T C P) (db : LawfulDb pf) {R : Key T → Type 0}
    {G : String → ApiKey → Type 0} where
  -- A statement that leaves valid rows valid keeps the invariant.
  Keeps-on_db :
      {A : Type 0} (run : S → Result StorageError A × S)
      → ((s : S) → All R (db.rows s) → All R (db.rows (run s).1))
      → Keeps (Guarded pf db R G) (on_db pf run)
  Keeps-on_db run valid = record {
    keeps = λ w h. record { valid_rows = valid w.db h.valid_rows; sound_cache = h.sound_cache };
    gives = λ w h a e. tt;
  }

  pub Keeps-exec_query : (q : Query) → Keeps (Guarded pf db R G) (exec_query pf q)
  unfolding exec_query
  Keeps-exec_query q = Keeps-on_db (pf.all (bind_query q)) (all-valid pf db R (bind_query q))

  -- The rows of a plain query are valid, and they match.
  pub Ensures-exec_query :
      (conditions : List Condition)
      → Ensures
          (Guarded pf db R G)
          (exec_query pf (matching conditions))
          (λ ks. All R ks × All (λ k. matches (map bind_condition conditions) k ≡ true) ks)
  unfolding exec_query bind_query
  Ensures-exec_query conditions = record {
    keeps = (Keeps-exec_query (matching conditions)).keeps;
    gives = λ w h ks e.
        let bound = map bind_condition conditions in
        subst (λ xs. All R xs × All (λ k. matches bound k ≡ true) xs)
          (sym (db.all_ok bound w.db ks e))
          (
            All-keep R (matches bound) (db.rows w.db) h.valid_rows,
            All-filter (matches bound) (db.rows w.db),
          );
  }

  pub Ensures-exec_first :
      (conditions : List Condition)
      → Ensures
          (Guarded pf db R G)
          (exec_first pf conditions)
          (λ found. (k : Key T) → found ≡ some k → R k)
  unfolding exec_first
  Ensures-exec_first conditions =
      let bound = map bind_condition conditions in
      let kept = Keeps-on_db (pf.first bound) (first-valid pf db R bound) in
      record {
        keeps = kept.keeps;
        gives = λ w h found e k.
            first_row pf db R (matches bound) (db.rows w.db) found k
              (db.first_ok bound w.db found e) h.valid_rows;
      }

  pub Keeps-exec_insert :
      (k : Key T) → R (bind_row k) → Keeps (Guarded pf db R G) (exec_insert pf k)
  unfolding exec_insert
  Keeps-exec_insert k v = Keeps-on_db (pf.run_insert (bind_row k)) λ s h.
      Writes-All R _ _ _ _ (db.insert_lem (bind_row k) s)
        (All-append R (db.rows s) (bind_row k ∷ []) h (v, tt)) h

  pub Keeps-exec_update :
      (conditions : List Condition) (assignments : List (Assignment T))
      → ((k : Key T)
          → matches (map bind_condition conditions) k ≡ true
          → R k
          → R (assign_all (map bind_assignment assignments) k))
      → Keeps (Guarded pf db R G) (exec_update pf conditions assignments)
  unfolding exec_update
  Keeps-exec_update conditions assignments valid =
      let cs = map bind_condition conditions in
      let as_ = map bind_assignment assignments in
      Keeps-on_db (pf.run_update cs as_) λ s h.
        Writes-All R _ _ _ _ (db.update_lem cs as_ s)
          (All-map R (update_row cs as_) (db.rows s) (update_row-valid pf db R cs as_ valid) h) h

  pub Keeps-exec_delete :
      (conditions : List Condition) → Keeps (Guarded pf db R G) (exec_delete pf conditions)
  unfolding exec_delete
  Keeps-exec_delete conditions =
      let cs = map bind_condition conditions in
      Keeps-on_db (pf.run_delete cs) λ s h.
        Writes-All R _ _ _ _ (db.delete_lem cs s)
          (All-keep R (λ k. not (matches cs k)) (db.rows s) h) h

  module _ (cache : LawfulCache pf) where
    pub Keeps-invalidate : (provider : String) → Keeps (Guarded pf db R G) (invalidate pf provider)
    unfolding invalidate
    Keeps-invalidate provider = record {
      keeps = λ w h. record {
        valid_rows = h.valid_rows;
        sound_cache = λ q now ks e.
            h.sound_cache q now ks (cache.invalidate_other provider q now w.api_key_cache ks e);
      };
      gives = λ w h a e. tt;
    }
