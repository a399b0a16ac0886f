-- ===== src/Manager/Sqlite.antt =====
-- state_do_sqlite.rs: the object that keeps a row for each key in its own SQLite database.
use thebalance.Prelude.{ℕ, String, List, [], ◌∷◌, filter, str_eq, if◌then◌else◌}
use thebalance.Prelude.Int.{ℤ, pos, as_u64}
use thebalance.Prelude.Assoc.{Assoc}
use thebalance.Prelude.Result.{Result, ok, err}
use thebalance.Prelude.Text.{is_empty_text}
use thebalance.Storage.Model.{ApiKeyStatus, active, blocked}
use thebalance.Manager
use thebalance.Manager.{
  StoredKey, AddKeyRequest, SetCooldownRequest, Request, Reply, Response, key_json, keys_json, text,
  error, failed, panicked, Route, route, provider_of, id_of, is_active, is_cool,
}
use thebalance.Manager.Kv.{cooled, no_active}

-- `T` is the type of the JSON texts in the column `model_coolings`.
pub record ApiKeyDbRow (T : Type 0) : Type 0 where
  pub id : String
  pub key : String
  pub provider : String
  pub status : String
  pub model_coolings : T
  pub last_used : ℤ

-- The statements, with the values that are bound to them.
pub data Statement (T : Type 0) : Type 0 where
  insert_row : ApiKeyDbRow T → Statement T
  select_all : Statement T
  select_id : (id : String) → Statement T
  select_active : (provider : String) → Statement T
  update_status_of : (status id : String) → Statement T
  update_coolings_of : T → (id : String) → Statement T

-- `exec`, and `to_array` on what it gives.
pub record SqlStorage (T S : Type 0) : Type 0 where
  pub exec : Statement T → S → Result String (List (ApiKeyDbRow T)) × S

-- `serde_json` on the column.
pub record CoolingsText (T : Type 0) : Type 0 where
  pub empty_object : T
  pub from_str : T → Result String (Assoc ℕ)
  pub to_string : Assoc ℕ → T

abbrev pub status_text : ApiKeyStatus → String
status_text active = "Active"
status_text blocked = "Blocked"

module _ {T : Type 0} (json : CoolingsText T) where
  abbrev pub with_coolings : ApiKeyDbRow T → Result String (Assoc ℕ) → Result String StoredKey
  with_coolings row (err e) = err e
  with_coolings row (ok coolings) = ok (record {
    id = row.id;
    key = row.key;
    provider = row.provider;
    status = if str_eq row.status "Active" then active else blocked;
    model_coolings = coolings;
    last_used = as_u64 row.last_used;
  })

  unfoldable pub try_from : ApiKeyDbRow T → Result String StoredKey
  unfolding as_u64
  try_from row = with_coolings row (json.from_str row.model_coolings)

  -- `filter_map(|row| row.try_into().ok())`.
  abbrev pub keep_ok : Result String StoredKey → List StoredKey → List StoredKey
  keep_ok (ok k) keys = k ∷ keys
  keep_ok (err e) keys = keys

  unfoldable pub keys_of : List (ApiKeyDbRow T) → List StoredKey
  unfolding try_from
  keys_of [] = []
  keys_of (row ∷ rows) = keep_ok (try_from row) (keys_of rows)

  unfoldable pub new_row : String → AddKeyRequest → ApiKeyDbRow T
  new_row uuid add_req = record {
    id = uuid;
    key = add_req.key;
    provider = add_req.provider;
    status = "Active";
    model_coolings = json.empty_object;
    last_used = pos 0;
  }

  module _ {S : Type 0} (sql : SqlStorage T S) where
    -- A call with `?` behind it.
    abbrev pub after :
        Result String (List (ApiKeyDbRow T)) × S
        → (List (ApiKeyDbRow T) → S → Reply × S)
        → Reply × S
    after (err e, s) next = (err (failed e), s)
    after (ok rows, s) next = next rows s

    abbrev pub answer_key : Result String StoredKey → S → Reply × S
    answer_key (err e) s = (err panicked, s)
    answer_key (ok k) s = (ok (key_json k), s)

    abbrev pub answer_first : List (ApiKeyDbRow T) → S → Reply × S
    answer_first [] s = (err panicked, s)
    answer_first (row ∷ rows) s = answer_key (try_from row) s

    unfoldable pub add_key : Result String AddKeyRequest → String → S → Reply × S
    unfolding new_row try_from
    add_key (err e) uuid s = (err (failed e), s)
    add_key (ok add_req) uuid s =
        after (sql.exec (insert_row (new_row uuid add_req)) s)
          (λ _ s'. after (sql.exec (select_id uuid) s') answer_first)

    unfoldable pub list_keys : S → Reply × S
    unfolding keys_of
    list_keys s = after (sql.exec select_all s) (λ rows s'. (ok (keys_json (keys_of rows)), s'))

    unfoldable pub get_active_keys : String → ℕ → S → Reply × S
    unfolding is_cool filter keys_of provider_of
    get_active_keys path now s =
        let provider = provider_of path in
        if is_empty_text provider
        then (ok (error "Provider not specified" 400), s)
        else after (sql.exec (select_active provider) s)
            (λ rows s'. (ok (no_active (filter (is_cool now) (keys_of rows))), s'))

    unfoldable pub update_status : Result String ApiKeyStatus → String → S → Reply × S
    unfolding id_of
    update_status (err e) path s = (err (failed e), s)
    update_status (ok new_status) path s =
        after (sql.exec (update_status_of (status_text new_status) (id_of path "/status")) s)
          (λ _ s'. (ok (text "Status updated"), s'))

    abbrev pub store_cooled :
        String → Result String StoredKey → ℕ → SetCooldownRequest → S → Reply × S
    store_cooled id (err e) now req s = (err panicked, s)
    store_cooled id (ok k) now req s =
        after
          (sql.exec (update_coolings_of (json.to_string (cooled now req k).model_coolings) id) s)
          (λ _ s'. (ok (key_json (cooled now req k)), s'))

    abbrev pub cool_first : String → ℕ → SetCooldownRequest → List (ApiKeyDbRow T) → S → Reply × S
    cool_first id now req [] s = (ok (error "Key not found" 404), s)
    cool_first id now req (row ∷ rows) s = store_cooled id (try_from row) now req s

    unfoldable pub set_cooldown : Result String SetCooldownRequest → String → ℕ → S → Reply × S
    unfolding try_from cooled id_of
    set_cooldown (err e) path now s = (err (failed e), s)
    set_cooldown (ok req) path now s =
        let id = id_of path "/cooldown" in after (sql.exec (select_id id) s) (cool_first id now req)

    abbrev pub handle : Route → Request → String → ℕ → S → Reply × S
    handle Manager.add_key req uuid now s = add_key req.as_add uuid s
    handle Manager.list_keys req uuid now s = list_keys s
    handle Manager.get_active_keys req uuid now s = get_active_keys req.path now s
    handle Manager.update_status req uuid now s = update_status req.as_status req.path s
    handle Manager.set_cooldown req uuid now s = set_cooldown req.as_cooldown req.path now s
    handle Manager.not_found req uuid now s = (ok (error "Not Found" 404), s)

    unfoldable pub fetch : Request → String → ℕ → S → Reply × S
    unfolding route add_key list_keys get_active_keys update_status set_cooldown
    fetch req uuid now s = handle (route req.method req.path) req uuid now s
