-- ===== src/Storage/Pool/Failures.antt =====
-- What a call does to the pool where it may fail.
use mathlib.Core.List.{append-nil, append_assoc}
use thebalance.Prelude.{
  ℕ, suc, ◌≡◌, ◌⊎◌, refl, sym, ap, ◌∙◌, inl, inr, String, Bool, not, ◌&&◌, Option, none, some, List,
  [], ◌∷◌, ◌++◌, map, str_eq, take,
}
use thebalance.Prelude.Int.{ℤ}
use thebalance.Prelude.Assoc.{mem}
use thebalance.Errors.{GoogleJson}
use thebalance.Storage.Model.{Key, ApiKeyStatus}
use thebalance.Storage.Admin
use thebalance.Storage.Admin.{
  parse_keys, new_keys, new_row, insert_keys, add_parsed, add_keys, invalidate_all, delete_keys,
  delete_all_blocked, status_text, update_status,
}
use thebalance.Storage.Platform.{
  World, Platform, exec_query, exec_first, exec_insert, exec_update, exec_delete, invalidate, pure,
  ◌>>=◌,
}
use thebalance.Storage.Platform.Binding.{
  Condition, Assignment, matching, bind_condition, bind_assignment, bind_row, id_is, id_in,
  provider_is, status_is, status, updated_at,
}
use thebalance.Storage.Platform.Sql.{matches, holds, update_row}
use thebalance.Storage.Platform.Lawful.{LawfulDb, written-either, written-err}
use thebalance.Storage.Ensures.{bind-either}
use thebalance.Storage.Invariant.History.{
  Call, update_metrics, cool_model, cool_plain, flag, add, delete, delete_blocked, set_status,
  read_keys, clean_up, run_call,
}
use thebalance.Storage.Pool.{Entry, entry, keys_of, fresh, remove, set_entry, step}
use thebalance.Storage.Pool.Statements.{pool, insert-ok, map-filter, map_commutes, query-ok}
use thebalance.Storage.Pool.Edits.{
  query_keeps, invalidate_keeps, keys_of-entries, and_true, set_row,
}
use thebalance.Storage.Pool.Refines.{run_call-step}

module _ {S T C P : Type 0} (pf : Platform S T C P) (db : LawfulDb pf) where
  -- All or nothing.
  abbrev Either : (List Entry → List Entry) → List Entry → World S C P → Type 0
  Either change before v = (pool pf db v ≡ change before) ⊎ (pool pf db v ≡ before)

  delete-Either :
      (conditions : List Condition) (test : Entry → Bool) (before : List Entry) (w : World S C P)
      → ((k : Key T) → matches (map bind_condition conditions) k ≡ test (entry k))
      → pool pf db w ≡ before
      → Either (remove test) before (exec_delete pf conditions w).1
  unfolding exec_delete remove
  delete-Either conditions test before w same h =
      elim (written-either _ _ _ _ (db.delete_lem (map bind_condition conditions) w.db)) [
        | inl e ↦ inl (
            ap (map entry) e
            ∙ map-filter entry _ (λ x. not (test x)) (db.rows w.db) (λ k. ap not (same k))
            ∙ ap (remove test) h)
        | inr e ↦ inr (ap (map entry) e ∙ h)
      ]

  update-Either :
      (conditions : List Condition) (assignments : List (Assignment T)) (change : Entry → Entry)
      (before : List Entry) (w : World S C P)
      → ((k : Key T)
          → entry (update_row (map bind_condition conditions) (map bind_assignment assignments) k)
            ≡ change (entry k))
      → pool pf db w ≡ before
      → Either (map change) before (exec_update pf conditions assignments w).1
  unfolding exec_update
  update-Either conditions assignments change before w same h =
      elim (written-either _ _ _ _ (db.update_lem _ _ w.db)) [
        | inl e ↦
            inl (
              ap (map entry) e
              ∙ map_commutes entry _ change (db.rows w.db) same
              ∙ ap (map change) h)
        | inr e ↦ inr (ap (map entry) e ∙ h)
      ]

  delete_keys-Either :
      (ids : List String) (w : World S C P)
      → Either (remove (λ e. mem e.id ids)) (pool pf db w) (delete_keys pf ids w).1
  unfolding delete_keys mem matches holds bind_condition pure
  delete_keys-Either [] w = inr refl
  delete_keys-Either (id ∷ ids) w =
      let test = λ (x : Entry). mem x.id (id ∷ ids) in
      let left = Either (remove test) (pool pf db w) in
      let kept = query_keeps pf db (id_in (id ∷ ids) ∷ []) w in
      bind-either left _ _ w (λ x e. inr kept)
        λ gone e.
          bind-either left _ _ _ (λ x e'. inr (invalidate_keeps pf db _ _ ∙ kept))
            λ u e'.
              delete-Either (id_in (id ∷ ids) ∷ []) test _ _ (λ k. and_true _)
                (invalidate_keeps pf db _ _ ∙ kept)

  delete_all_blocked-Either :
      (provider : String) (w : World S C P)
      → Either
          (remove (λ e. str_eq e.provider provider && str_eq e.status "blocked"))
          (pool pf db w)
          (delete_all_blocked pf provider w).1
  unfolding delete_all_blocked matches holds bind_condition ◌>>=◌ invalidate
  delete_all_blocked-Either provider w =
      delete-Either (provider_is provider ∷ status_is "blocked" ∷ [])
        (λ x. str_eq x.provider provider && str_eq x.status "blocked") _ _
        (λ k. ap (λ b. str_eq k.provider provider && b) (and_true _)) refl

  update_found-Either :
      (id : String) (s : ApiKeyStatus) (now : ℤ) (found : Option (Key T)) (before : List Entry)
      (w : World S C P)
      → pool pf db w ≡ before
      → Either (map (set_entry id s)) before (Admin.update_found pf id s now found w).1
  unfolding ◌>>=◌ invalidate pure
  update_found-Either id s now none before w h = inr h
  update_found-Either id s now (some k) before w h =
      update-Either (id_is id ∷ []) (status (status_text s) ∷ updated_at now ∷ []) (set_entry id s)
        before _ (set_row pf db id s now) h

  update_status-Either :
      (id : String) (s : ApiKeyStatus) (now : ℤ) (w : World S C P)
      → Either (map (set_entry id s)) (pool pf db w) (update_status pf id s now w).1
  unfolding update_status exec_first
  update_status-Either id s now w =
      let kept = ap (map entry) (db.first_rows _ w.db) in
      bind-either (Either (map (set_entry id s)) (pool pf db w)) _ _ w (λ x e. inr kept)
        (λ found e. update_found-Either id s now found (pool pf db w) _ kept)

  -- A first part of the keys is added.
  abbrev AddedPart : List Entry → List Entry → World S C P → Type 0
  AddedPart added before v = (n : ℕ) × (pool pf db v ≡ before ++ take n added)

  insert_keys-part :
      (provider : String) (uuid : ℕ → String) (now : ℤ) (n : ℕ) (keys : List String)
      (before : List Entry) (w : World S C P)
      → pool pf db w ≡ before
      → AddedPart (fresh provider uuid n keys) before (insert_keys pf provider uuid now n keys w).1
  unfolding insert_keys fresh new_row pure exec_insert
  insert_keys-part provider uuid now n [] before w h = (0, h ∙ sym (append-nil before))
  insert_keys-part provider uuid now n (key ∷ keys) before w h =
      let row = new_row pf provider (uuid n) now key in
      bind-either (AddedPart (fresh provider uuid n (key ∷ keys)) before) (exec_insert pf row) _ w
        (λ x e. (
          0,
          ap (map entry) (written-err _ _ _ _ x (db.insert_lem (bind_row row) w.db) e)
              ∙ h
              ∙ sym (append-nil before),
        ))
        λ u e.
          let grown = insert-ok pf db row w e ∙ ap (λ es. es ++ entry row ∷ []) h in
          let (m, rest) =
            insert_keys-part provider uuid now (suc n) keys (before ++ entry row ∷ []) _ grown in
          (
            suc m,
            rest ∙ append_assoc before (entry row ∷ []) (take m (fresh provider uuid (suc n) keys)),
          )

  add_parsed-part :
      (provider : String) (uuid : ℕ → String) (now : ℤ) (keys : List String) (w : World S C P)
      → AddedPart
          (fresh provider uuid 0 (pf.set_order (new_keys keys (keys_of provider (pool pf db w)))))
          (pool pf db w)
          (add_parsed pf provider uuid now keys w).1
  unfolding keys_of matches holds bind_condition pure invalidate
  add_parsed-part provider uuid now [] w = (0, sym (append-nil (pool pf db w)))
  add_parsed-part provider uuid now (key ∷ keys) w =
      let before = pool pf db w in
      let kept = query_keeps pf db (provider_is provider ∷ []) w in
      let part =
        AddedPart
          (fresh provider uuid 0 (pf.set_order (new_keys (key ∷ keys) (keys_of provider before))))
          before in
      bind-either part _ _ w (λ x e. (0, kept ∙ sym (append-nil before)))
        λ existing e.
          let same : map (λ k. k.key) existing ≡ keys_of provider before =
            keys_of-entries existing
            ∙ ap (map (λ x. x.key)) (
                query-ok pf db (provider_is provider ∷ []) (λ x. str_eq x.provider provider) w
                  existing (λ k. and_true _) e) in
          let (n, grown) =
            insert_keys-part provider uuid now 0
              (pf.set_order (new_keys (key ∷ keys) (map (λ k. k.key) existing))) before
              (exec_query pf (matching (provider_is provider ∷ [])) w).1 kept in
          let renamed =
            ap
              (λ ks.
                before ++ take n (fresh provider uuid 0 (pf.set_order (new_keys (key ∷ keys) ks))))
              same in
          bind-either part (insert_keys pf provider uuid now 0 _) _ _ (λ x e'. (n, grown ∙ renamed))
            (λ u e'. (n, grown ∙ renamed))

  -- What a call may leave of the pool: an addition has added a first part of its keys, maybe none or
  -- all; a deletion and a status have done all that they do, or nothing; and the others nothing.
  abbrev pub Leaves : Call T → List Entry → World S C P → Type 0
  Leaves (add provider text uuid now) before v =
      AddedPart
        (fresh provider uuid 0
          (pf.set_order (new_keys (parse_keys text) (keys_of provider before))))
        before v
  Leaves (delete ids) before v = Either (step {T = T} pf.set_order (delete ids)) before v
  Leaves (delete_blocked provider) before v =
      Either (step {T = T} pf.set_order (delete_blocked provider)) before v
  Leaves (set_status id s now) before v =
      Either (step {T = T} pf.set_order (set_status id s now)) before v
  Leaves _ before v = pool pf db v ≡ before

  -- Whether a call succeeds or fails, and wherever it fails: an addition has appended a first part of
  -- the keys that the provider has not got, in the order that a set gives them, a deletion and a change of a status have been done in full
  -- or not at all, and every other call leaves ids, keys, providers and statuses as they were.
  pub run_call-Leaves :
      (google : GoogleJson) (c : Call T) (w : World S C P)
      → Leaves c (pool pf db w) (run_call pf google c w)
  unfolding run_call step add_keys
  run_call-Leaves google (add provider text uuid now) w =
      add_parsed-part provider uuid now (parse_keys text) w
  run_call-Leaves google (delete ids) w = delete_keys-Either ids w
  run_call-Leaves google (delete_blocked provider) w = delete_all_blocked-Either provider w
  run_call-Leaves google (set_status id s now) w = update_status-Either id s now w
  run_call-Leaves google (update_metrics id b latency now) w =
      run_call-step pf db google (update_metrics id b latency now) w tt
  run_call-Leaves google (cool_model id model seconds now) w =
      run_call-step pf db google (cool_model id model seconds now) w tt
  run_call-Leaves google (cool_plain id model seconds now later) w =
      run_call-step pf db google (cool_plain id model seconds now later) w tt
  run_call-Leaves google (flag id seconds now) w =
      run_call-step pf db google (flag id seconds now) w tt
  run_call-Leaves google (read_keys threshold provider now) w =
      run_call-step pf db google (read_keys threshold provider now) w tt
  run_call-Leaves google (clean_up answer threshold now provider) w =
      run_call-step pf db google (clean_up answer threshold now provider) w tt
