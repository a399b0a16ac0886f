-- ===== src/Web/Form/Keeps.antt =====
-- The forms over the invariant of the storage component.
use thebalance.Prelude.{
  ℕ, String, Bool, true, false, Option, none, some, List, [], ◌∷◌, if◌then◌else◌, str_eq, not,
}
use thebalance.Prelude.Int.{ℤ}
use thebalance.Prelude.Text.{is_empty_text}
use thebalance.Prelude.Result.{Result, ok, err}
use thebalance.Storage.Platform.{World, Platform}
use thebalance.Storage.Platform.Lawful.{LawfulDb, LawfulCache}
use thebalance.Storage.Platform.Binding.{matching, id_in}
use thebalance.Storage.Reads.{get_keys_by_ids}
use thebalance.Storage.Ensures.{Keeps, Ensures-bind, Keeps-pure}
use thebalance.Storage.Invariant.{Inv}
use thebalance.Storage.Invariant.Statements.{Keeps-exec_query}
use thebalance.Storage.Invariant.Rows.{row_rules, new_row-valid}
use thebalance.Storage.Invariant.Operations.{
  Keeps-add_keys, Keeps-delete_keys, Keeps-delete_all_blocked,
}
use thebalance.Web.Form.{
  KeysListForm, empty_form, read_fields, Answer, test_keys, test_form, add_form, delete_form,
  run_form, post_keys_list_handler, post_add_keys_api_handler,
}

module _ {R W : Type 0} (I : W → Type 0) where
  -- An invariant behind a test, whichever way it goes.
  Either-if : (b : Bool) (x y : R × W) → I x.1 → I y.1 → I (if b then x else y).1
  Either-if true x y hx hy = hx
  Either-if false x y hx hy = hy

module _ {S T C P : Type 0} (pf : Platform S T C P) (db : LawfulDb pf) (cache : LawfulCache pf)
    (ask : String → String → Answer) where
  Keeps-get_keys_by_ids : (ids : List String) → Keeps (Inv pf db) (get_keys_by_ids pf ids)
  unfolding get_keys_by_ids
  Keeps-get_keys_by_ids [] = Keeps-pure []
  Keeps-get_keys_by_ids (id ∷ ids) =
      Ensures-bind _ _ (Keeps-exec_query pf db (matching (id_in (id ∷ ids) ∷ [])))
        (λ rows _. Keeps-pure _)

  test_form-Inv :
      (provider model : String) (ids : List String) (w : World S C P)
      → Inv pf db w
      → Inv pf db (test_form pf ask provider model ids w).1
  unfolding test_keys
  test_form-Inv provider model [] w h = h
  test_form-Inv provider model (id ∷ ids) w h = (Keeps-get_keys_by_ids (id ∷ ids)).keeps w h

  add_form-Inv :
      (provider : String) (uuid : ℕ → String) (now : ℤ) (keys : Option String) (w : World S C P)
      → Inv pf db w
      → Inv pf db (add_form pf ask provider uuid now keys w).1
  add_form-Inv provider uuid now none w h = h
  add_form-Inv provider uuid now (some keys_str) w h =
      (Keeps-add_keys pf db (row_rules pf) cache provider uuid now
          (new_row-valid pf provider uuid now) keys_str).keeps
        w h

  delete_form-Inv :
      (provider : String) (ids : List String) (w : World S C P)
      → Inv pf db w
      → Inv pf db (delete_form pf ask provider ids w).1
  delete_form-Inv provider [] w h = h
  delete_form-Inv provider (id ∷ ids) w h =
      (Keeps-delete_keys pf db (row_rules pf) cache (id ∷ ids)).keeps w h

  run_form-Inv :
      (provider : String) (uuid : ℕ → String) (now : ℤ) (form : KeysListForm) (w : World S C P)
      → Inv pf db w
      → Inv pf db (run_form pf ask provider uuid now form w).1
  unfolding run_form
  run_form-Inv provider uuid now form w h =
      Either-if (Inv pf db) (is_empty_text form.action) _ _ h (
        Either-if (Inv pf db) (str_eq form.action "add") _ _
          (add_form-Inv provider uuid now form.keys w h)
          (Either-if (Inv pf db) (str_eq form.action "delete") _ _
            (delete_form-Inv provider form.key_id w h)
            (Either-if (Inv pf db) (str_eq form.action "test") _ _
              (Either-if (Inv pf db) (not (str_eq provider "google-ai-studio")) _ _ h
                (test_form-Inv provider _ form.key_id w h))
              (Either-if (Inv pf db) (str_eq form.action "delete-all-blocked") _ _
                ((Keeps-delete_all_blocked pf db (row_rules pf) cache provider).keeps w h) h))))

  -- Whatever is posted, by form or to the API for keys, and whatever the tests answer: the invariant of
  -- the storage component holds afterwards.
  post_keys_list_handler-Inv :
      (provider : String) (uuid : ℕ → String) (now : ℤ)
      (body : Result String (List (String × String))) (text : String) (w : World S C P)
      → Inv pf db w
      → Inv pf db (post_keys_list_handler pf ask provider uuid now body w).1
        × Inv pf db (post_add_keys_api_handler pf ask provider uuid now text w).1
  unfolding post_keys_list_handler post_add_keys_api_handler
  post_keys_list_handler-Inv provider uuid now body text w h = (
    posted body,
    (Keeps-add_keys pf db (row_rules pf) cache provider uuid now
          (new_row-valid pf provider uuid now) text).keeps
        w h,
  )
    where
      posted :
          (body : Result String (List (String × String)))
          → Inv pf db (post_keys_list_handler pf ask provider uuid now body w).1
      posted (err e) = h
      posted (ok pairs) = run_form-Inv provider uuid now (read_fields empty_form pairs) w h
