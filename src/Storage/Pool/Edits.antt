-- ===== src/Storage/Pool/Edits.antt =====
-- The storage functions do to the pool what the pool's steps say.
use mathlib.Core.Path.{subst}
use mathlib.Core.List.{append-nil, append_assoc}
use thebalance.Prelude.{
  ℕ, suc, ◌≡◌, refl, sym, ap, ◌∙◌, inl, inr, String, Bool, true, false, ◌&&◌, Option, none, some,
  List, [], ◌∷◌, ◌++◌, map, filter, str_eq, Bool-cases, eq_iff, arith, ◌||◌,
}
use thebalance.Prelude.Int.{ℤ}
use thebalance.Prelude.Assoc.{mem}
use thebalance.Storage.Model.{Key, ApiKeyStatus}
use thebalance.Storage.Admin
use thebalance.Storage.Admin.{
  parse_keys, new_keys, new_row, insert_keys, add_parsed, add_keys, invalidate_all, delete_keys,
  delete_all_blocked, status_text, update_status,
}
use thebalance.Storage.Platform.{
  World, Platform, Action, exec_query, exec_first, invalidate, pure, ◌>>=◌,
}
use thebalance.Storage.Platform.Binding.{
  Condition, matching, bind_condition, bind_assignment, id_is, id_in, provider_is, status_is,
  status, updated_at,
}
use thebalance.Storage.Platform.Sql.{matches, holds, assign_all, update_row}
use thebalance.Storage.Platform.Lawful.{LawfulDb, IsFirstOf}
use thebalance.Storage.Ensures.{Done, Done-bind}
use thebalance.Storage.Pool.{Entry, entry, keys_of, fresh, add_new, remove, set_entry}
use thebalance.Storage.Pool.Statements.{pool, insert-ok, delete-ok, update-ok, query-ok}

pub remove_none : (xs : List Entry) → remove (λ e. false) xs ≡ xs
unfolding remove filter
remove_none [] = refl
remove_none (x ∷ xs) = cc (remove_none xs)

empty-members : (xs : List String) → ((x : String) → mem x xs ≡ mem x []) → xs ≡ []
unfolding mem
empty-members [] h = refl
empty-members (x ∷ xs) h = absurd_head (h x)
  where
    absurd_head : (str_eq x x || mem x xs) ≡ false → x ∷ xs ≡ []
    absurd_head e = ground (arith, eq_iff x x)

pub and_true : (b : Bool) → b && true ≡ b
and_true true = refl
and_true false = refl

pub keys_of-entries :
    {T : Type 0} (ks : List (Key T)) → map (λ k. k.key) ks ≡ map (λ e. e.key) (map entry ks)
keys_of-entries [] = refl
keys_of-entries (k ∷ ks) = ap (λ xs. k.key ∷ xs) (keys_of-entries ks)

module _ {S T C P : Type 0} (pf : Platform S T C P) (db : LawfulDb pf) where
  pub set_order-nil : pf.set_order [] ≡ []
  set_order-nil = empty-members (pf.set_order []) (λ x. db.set_members x [])

  pub query_keeps :
      (conditions : List Condition) (w : World S C P)
      → pool pf db (exec_query pf (matching conditions) w).1 ≡ pool pf db w
  unfolding exec_query
  query_keeps conditions w = ap (map entry) (db.all_rows _ w.db)

  pub invalidate_keeps :
      (providers : List String) (w : World S C P)
      → pool pf db (invalidate_all pf providers w).1 ≡ pool pf db w
  unfolding invalidate_all ◌>>=◌ invalidate
  invalidate_keeps [] w = refl
  invalidate_keeps (p ∷ ps) w = invalidate_keeps ps _

  -- The world holds that pool.
  abbrev Pool : {A : Type 0} → List Entry → A → World S C P → Type 0
  Pool es a v = pool pf db v ≡ es

  -- The action makes of the pool what `change` does, if it succeeds.
  abbrev pub Makes : {A : Type 0} → Action (World S C P) A → (List Entry → List Entry) → Type 0
  Makes m change = (w : World S C P) → Done m w (Pool (change (pool pf db w)))

  Makes-insert_keys :
      (provider : String) (uuid : ℕ → String) (now : ℤ) (n : ℕ) (keys : List String)
      → Makes (insert_keys pf provider uuid now n keys) (λ es. es ++ fresh provider uuid n keys)
  unfolding insert_keys fresh new_row pure
  Makes-insert_keys provider uuid now n [] = λ w u e. sym (append-nil (pool pf db w))
  Makes-insert_keys provider uuid now n (key ∷ keys) = λ w.
      let row = new_row pf provider (uuid n) now key in
      Done-bind (Pool (pool pf db w ++ entry row ∷ []))
        (Pool (pool pf db w ++ fresh provider uuid n (key ∷ keys))) _ _ w
        (λ u e. insert-ok pf db row w e)
        λ u v h a e.
          Makes-insert_keys provider uuid now (suc n) keys v a e
          ∙ ap (λ es. es ++ fresh provider uuid (suc n) keys) h
          ∙ append_assoc (pool pf db w) (entry row ∷ []) (fresh provider uuid (suc n) keys)

  Makes-add_parsed :
      (provider : String) (uuid : ℕ → String) (now : ℤ) (keys : List String)
      → Makes (add_parsed pf provider uuid now keys) (add_new pf.set_order provider uuid keys)
  unfolding add_new keys_of matches holds bind_condition pure new_keys filter invalidate
  Makes-add_parsed provider uuid now [] =
      λ w u e. rw (set_order-nil) (sym (append-nil (pool pf db w)))
  Makes-add_parsed provider uuid now (key ∷ keys) = λ w.
      let grown = add_new pf.set_order provider uuid (key ∷ keys) (pool pf db w) in
      Done-bind
        (λ existing v.
          (map (λ k. k.key) existing ≡ keys_of provider (pool pf db w))
          × (pool pf db v ≡ pool pf db w))
        (Pool grown) _ _ w
        (λ existing e. (
          keys_of-entries existing
              ∙ ap (map (λ x. x.key)) (
                  query-ok pf db (provider_is provider ∷ []) (λ x. str_eq x.provider provider) w
                    existing (λ k. and_true _) e),
          query_keeps (provider_is provider ∷ []) w,
        ))
        λ existing v h.
          Done-bind (Pool grown) (Pool grown) _ _ v
            (λ u e.
              Makes-insert_keys provider uuid now 0
                (pf.set_order (new_keys (key ∷ keys) (map (λ k. k.key) existing))) v u e
              ∙ cc (h.0, h.1))
            (λ u v' h' a e. h')

  pub Makes-add_keys :
      (provider text : String) (uuid : ℕ → String) (now : ℤ)
      → Makes
          (add_keys pf provider text uuid now)
          (add_new pf.set_order provider uuid (parse_keys text))
  unfolding add_keys
  Makes-add_keys provider text uuid now = Makes-add_parsed provider uuid now (parse_keys text)

  pub Makes-delete_keys :
      (ids : List String) → Makes (delete_keys pf ids) (remove (λ e. mem e.id ids))
  unfolding delete_keys mem matches holds bind_condition pure
  Makes-delete_keys [] = λ w u e. sym (remove_none (pool pf db w))
  Makes-delete_keys (id ∷ ids) = λ w.
      let test = λ (x : Entry). mem x.id (id ∷ ids) in
      let left = remove test (pool pf db w) in
      Done-bind (Pool (pool pf db w)) (Pool left) _ _ w
        (λ gone e. query_keeps (id_in (id ∷ ids) ∷ []) w)
        λ gone v h.
          Done-bind (Pool (pool pf db w)) (Pool left) _ _ v (λ u e. invalidate_keeps _ v ∙ h)
            λ u v' h' a e.
              delete-ok pf db (id_in (id ∷ ids) ∷ []) test v' (λ k. and_true _) e
              ∙ ap (remove test) h'

  pub Makes-delete_all_blocked :
      (provider : String)
      → Makes
          (delete_all_blocked pf provider)
          (remove (λ e. str_eq e.provider provider && str_eq e.status "blocked"))
  unfolding delete_all_blocked matches holds bind_condition ◌>>=◌ invalidate
  Makes-delete_all_blocked provider = λ w u e.
      delete-ok pf db (provider_is provider ∷ status_is "blocked" ∷ [])
        (λ x. str_eq x.provider provider && str_eq x.status "blocked") _
        (λ k. ap (λ b. str_eq k.provider provider && b) (and_true _)) e

  pub set_none :
      (id : String) (s : ApiKeyStatus) (rows : List (Key T))
      → filter (matches (id_is id ∷ [])) rows ≡ []
      → map (set_entry id s) (map entry rows) ≡ map entry rows
  unfolding filter matches holds set_entry
  set_none id s [] = λ e. refl
  set_none id s (k ∷ rows) = elim (Bool-cases (str_eq k.id id)) [
    | inl same ↦ rw same (λ e. cc)
    | inr other ↦ rw other (λ e. ap (λ es. entry k ∷ es) (set_none id s rows e))
  ]

  pub set_row :
      (id : String) (s : ApiKeyStatus) (now : ℤ) (k : Key T)
      → entry (
          update_row
            (map bind_condition (id_is id ∷ []))
            (map bind_assignment (status (status_text s) ∷ updated_at now ∷ []))
            k)
        ≡ set_entry id s (entry k)
  unfolding update_row matches holds bind_condition bind_assignment assign_all set_entry
  set_row id s now k = elim (Bool-cases (str_eq k.id id)) [
    | inl same ↦ rw same refl
    | inr other ↦ rw other refl
  ]

  Makes-update_found :
      (id : String) (s : ApiKeyStatus) (now : ℤ) (found : Option (Key T)) (w : World S C P)
      → IsFirstOf found (filter (matches (id_is id ∷ [])) (db.rows w.db))
      → Done (Admin.update_found pf id s now found) w (Pool (map (set_entry id s) (pool pf db w)))
  unfolding ◌>>=◌ invalidate pure
  Makes-update_found id s now none w first = λ u e. sym (set_none id s (db.rows w.db) first)
  Makes-update_found id s now (some k) w first = λ u e.
      update-ok pf db (id_is id ∷ []) (status (status_text s) ∷ updated_at now ∷ [])
        (set_entry id s) _ (set_row id s now) e

  pub Makes-update_status :
      (id : String) (s : ApiKeyStatus) (now : ℤ)
      → Makes (update_status pf id s now) (map (set_entry id s))
  unfolding update_status exec_first bind_condition
  Makes-update_status id s now = λ w.
      Done-bind
        (λ found v.
          IsFirstOf found (filter (matches (id_is id ∷ [])) (db.rows v.db))
          × (pool pf db v ≡ pool pf db w))
        (Pool (map (set_entry id s) (pool pf db w))) _ _ w
        (λ found e.
          let same = db.first_rows (id_is id ∷ []) w.db in
          (
            subst (λ rows. IsFirstOf found (filter (matches (id_is id ∷ [])) rows)) (sym same)
                (db.first_ok (id_is id ∷ []) w.db found e),
            ap (map entry) same,
          ))
        λ found v h u e. Makes-update_found id s now found v h.0 u e ∙ ap (map (set_entry id s)) h.1
