-- ===== src/Web/Form.antt =====
-- The form of the list of keys: post_keys_list_handler and post_add_keys_api_handler of web.rs, and
-- the key tests of testing.rs.
pub mod Fields
pub mod Keeps
use Prim.Native.String
use thebalance.Prelude.{
  ℕ, String, Bool, true, false, not, Option, none, some, List, [], ◌∷◌, ◌++◌, map, ◌==◌, str_eq,
  if◌then◌else◌,
}
use thebalance.Prelude.Int.{ℤ}
use thebalance.Prelude.Text.{is_empty_text, decimal}
use thebalance.Prelude.Result.{Result, ok, err}
use thebalance.Storage.Model.{error_text, ApiKey, StorageError, toasty, worker}
use thebalance.Storage.Platform.{World, Platform, Action}
use thebalance.Storage.Admin.{add_keys, delete_keys, delete_all_blocked}
use thebalance.Storage.Reads.{get_keys_by_ids}

-- `KeysListForm`, with the field `model` that the handler keeps beside it.
pub record KeysListForm : Type 0 where
  pub action : String
  pub keys : Option String
  pub key_id : List String
  pub model : Option String

abbrev pub empty_form : KeysListForm
empty_form = record { action = ""; keys = none; key_id = []; model = none }

-- The arms of the loop over the fields.
unfoldable pub read_field : KeysListForm → String × String → KeysListForm
read_field form (key, value) =
    if str_eq key "action"
    then record form { action = value }
    else if str_eq key "keys"
    then record form { keys = some value }
    else if str_eq key "key_id[]"
    then record form { key_id = form.key_id ++ value ∷ [] }
    else if str_eq key "model"
    then record form { model = some value }
    else form

unfoldable pub read_fields : KeysListForm → List (String × String) → KeysListForm
unfolding read_field
read_fields form [] = form
read_fields form (field ∷ fields) = read_fields (read_field form field) fields

pub record TestResult : Type 0 where
  pub key : String
  pub passed : Bool
  pub details : String

-- The answer to a test request: an error, or a status and the body, which may be unreadable.
abbrev pub Answer : Type 0
Answer = Result String (ℕ × Result String String)

unfoldable pub test_single_key : Answer → Result String (Unit {0})
unfolding decimal
test_single_key (err e) = err e
test_single_key (ok (status, body)) = if status == 200 then ok tt else elim body [
  | err e ↦ err e
  | ok text ↦ err (
      String.◌++◌ "Test request failed with status "
        (String.◌++◌ (decimal status) (String.◌++◌ ": " text)))
]

abbrev judge_test : String → Result String (Unit {0}) → TestResult
judge_test key (ok u) = record { key = key; passed = true; details = "OK" }
judge_test key (err e) = record { key = key; passed = false; details = e }

-- The answer to the form, with the value of the cookie `test_results`, if it is set.
pub data PageReply : Type 0 where
  bad_request : String → PageReply
  server_error : String → PageReply
  redirect : String → Option (List TestResult) → PageReply
  done : String → PageReply

abbrev keys_page : String → Option (List TestResult) → PageReply
keys_page provider results = redirect (String.◌++◌ "/keys/" provider) results

abbrev or_failure : String → PageReply → Result StorageError (Unit {0}) → PageReply
or_failure what reply (ok u) = reply
or_failure what reply (err e) = server_error (String.◌++◌ what (error_text e))

abbrev pub reply_of :
    {W : Type 0} → String → PageReply → Result StorageError (Unit {0}) × W → PageReply × W
reply_of what reply (r, w) = (or_failure what reply r, w)

abbrev pub or_default : Option String → String → String
or_default none text = text
or_default (some text) other = text

-- `ask model key` is what the provider answers to the test of a key.
module _ {S T C P : Type 0} (pf : Platform S T C P) (ask : String → String → Answer) where
  abbrev results_of : String → Result StorageError (List ApiKey) → List TestResult
  results_of model (ok keys) = map (λ k. judge_test k.key (test_single_key (ask model k.key))) keys
  results_of model (err e) =
      record {
        key = "";
        passed = false;
        details = String.◌++◌ "Failed to run tests: " (error_text e);
      }
      ∷ []

  -- test_keys, and what the handler makes of its error.
  unfoldable pub test_keys : String → List String → World S C P → List TestResult × World S C P
  unfolding test_single_key
  test_keys model ids w = let (found, w') = get_keys_by_ids pf ids w in (results_of model found, w')

  abbrev pub test_form : String → String → List String → World S C P → PageReply × World S C P
  test_form provider model [] w = (keys_page provider none, w)
  test_form provider model (id ∷ ids) w =
      let (results, w') = test_keys model (id ∷ ids) w in (keys_page provider (some results), w')

  abbrev pub add_form :
      String → (ℕ → String) → ℤ → Option String → World S C P → PageReply × World S C P
  add_form provider uuid now none w = (keys_page provider none, w)
  add_form provider uuid now (some keys_str) w =
      reply_of "Failed to add keys: " (keys_page provider none)
        (add_keys pf provider keys_str uuid now w)

  abbrev pub delete_form : String → List String → World S C P → PageReply × World S C P
  delete_form provider [] w = (keys_page provider none, w)
  delete_form provider (id ∷ ids) w =
      reply_of "Failed to delete keys: " (keys_page provider none) (delete_keys pf (id ∷ ids) w)

  unfoldable pub run_form :
      String → (ℕ → String) → ℤ → KeysListForm → World S C P → PageReply × World S C P
  unfolding test_keys
  run_form provider uuid now form w =
      if is_empty_text form.action
      then (bad_request "Form is missing 'action' field", w)
      else if str_eq form.action "add"
      then add_form provider uuid now form.keys w
      else if str_eq form.action "delete"
      then delete_form provider form.key_id w
      else if str_eq form.action "test"
      then (if not (str_eq provider "google-ai-studio")
          then (keys_page provider none, w)
          else test_form provider (or_default form.model "gemini-2.5-pro") form.key_id w)
      else if str_eq form.action "delete-all-blocked"
      then reply_of "Failed to delete all blocked keys: " (keys_page provider none)
          (delete_all_blocked pf provider w)
      else (keys_page provider none, w)

  -- `pairs` is what `serde_urlencoded` reads of the body.
  unfoldable pub post_keys_list_handler :
      String
      → (ℕ → String)
      → ℤ
      → Result String (List (String × String))
      → World S C P
      → PageReply × World S C P
  unfolding run_form read_fields
  post_keys_list_handler provider uuid now (err e) w =
      (bad_request (String.◌++◌ "Failed to deserialize form body into pairs: " e), w)
  post_keys_list_handler provider uuid now (ok pairs) w =
      run_form provider uuid now (read_fields empty_form pairs) w

  unfoldable pub post_add_keys_api_handler :
      String → (ℕ → String) → ℤ → String → World S C P → PageReply × World S C P
  post_add_keys_api_handler provider uuid now body w =
      reply_of "Failed to add keys: " (done "Keys added successfully")
        (add_keys pf provider body uuid now w)
