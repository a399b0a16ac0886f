-- ===== src/Manager/Kv.antt =====
-- state_do_kv.rs: the object that keeps all keys under one name of its key-value storage.
use thebalance.Prelude.{
  ℕ, String, Option, none, some, List, [], ◌∷◌, ◌++◌, ◌&&◌, filter, str_eq, if◌then◌else◌,
}
use thebalance.Prelude.Int.{add_u64}
use thebalance.Prelude.Assoc.{insert}
use thebalance.Prelude.Result.{Result, ok, err}
use thebalance.Prelude.Text.{is_empty_text}
use thebalance.Storage.Model.{ApiKeyStatus, active}
use thebalance.Manager
use thebalance.Manager.{
  StoredKey, AddKeyRequest, SetCooldownRequest, Request, Reply, Response, key_json, keys_json, text,
  error, failed, Route, route, provider_of, id_of, is_active, is_cool,
}

-- `state.storage().get(KEYS_STORAGE_KEY)` and `put`; a call may fail for a time, so a read, too, leaves
-- a state behind.
pub record KvStorage (S : Type 0) : Type 0 where
  pub get : S → Result String (List StoredKey) × S
  pub put : List StoredKey → S → Result String (Unit {0}) × S

-- `unwrap_or_default()`: an error reads as no keys.
abbrev pub or_no_keys : Result String (List StoredKey) → List StoredKey
or_no_keys (ok keys) = keys
or_no_keys (err e) = []

-- `position(|k| k.id == id)` and the change at that index: the changed key, and all keys.
abbrev pub behind :
    StoredKey → Option (StoredKey × List StoredKey) → Option (StoredKey × List StoredKey)
behind k none = none
behind k (some (changed, keys)) = some (changed, k ∷ keys)

unfoldable pub change_first :
    String → (StoredKey → StoredKey) → List StoredKey → Option (StoredKey × List StoredKey)
change_first id change [] = none
change_first id change (k ∷ keys) =
    let later = behind k (change_first id change keys) in
    if str_eq k.id id then some (change k, change k ∷ keys) else later

unfoldable pub new_key : String → AddKeyRequest → StoredKey
new_key uuid add_req = record {
  id = uuid;
  key = add_req.key;
  provider = add_req.provider;
  status = active;
  model_coolings = [];
  last_used = 0;
}

unfoldable pub cooled : ℕ → SetCooldownRequest → StoredKey → StoredKey
unfolding add_u64 insert
cooled now req k = record k {
  model_coolings = insert req.model (add_u64 now req.duration_secs) k.model_coolings;
}

abbrev pub no_active : List StoredKey → Response
no_active [] = error "No active keys available" 404
no_active (k ∷ keys) = keys_json (k ∷ keys)

module _ {S : Type 0} (kv : KvStorage S) where
  abbrev pub answer_after : Result String (Unit {0}) × S → Response → Reply × S
  answer_after (ok u, s) r = (ok r, s)
  answer_after (err e, s) r = (err (failed e), s)

  unfoldable pub add_key : Result String AddKeyRequest → String → S → Reply × S
  unfolding new_key
  add_key (err e) uuid s = (err (failed e), s)
  add_key (ok add_req) uuid s =
      let key = new_key uuid add_req in
      let (keys, s') = kv.get s in
      answer_after (kv.put (or_no_keys keys ++ key ∷ []) s') (key_json key)

  unfoldable pub list_keys : S → Reply × S
  list_keys s = let (keys, s') = kv.get s in (ok (keys_json (or_no_keys keys)), s')

  unfoldable pub get_active_keys : String → ℕ → S → Reply × S
  unfolding is_cool filter provider_of
  get_active_keys path now s =
      let provider = provider_of path in
      let (keys, s') = kv.get s in
      if is_empty_text provider then (ok (error "Provider not specified" 400), s) else (
        ok (
            no_active (
              filter (is_cool now) (
                filter (λ k. str_eq k.provider provider && is_active k.status) (or_no_keys keys)))),
        s',
      )

  abbrev pub store_changed : Option (StoredKey × List StoredKey) → S → Reply × S
  store_changed none s = (ok (error "Key not found" 404), s)
  store_changed (some (changed, keys)) s = answer_after (kv.put keys s) (key_json changed)

  unfoldable pub update_status : Result String ApiKeyStatus → String → S → Reply × S
  unfolding change_first id_of
  update_status (err e) path s = (err (failed e), s)
  update_status (ok new_status) path s =
      let (keys, s') = kv.get s in
      store_changed
        (change_first (id_of path "/status") (λ k. record k { status = new_status })
          (or_no_keys keys))
        s'

  unfoldable pub set_cooldown : Result String SetCooldownRequest → String → ℕ → S → Reply × S
  unfolding change_first cooled id_of
  set_cooldown (err e) path now s = (err (failed e), s)
  set_cooldown (ok req) path now s =
      let (keys, s') = kv.get s in
      store_changed (change_first (id_of path "/cooldown") (cooled now req) (or_no_keys keys)) s'

  abbrev pub handle : Route → Request → String → ℕ → S → Reply × S
  handle Manager.add_key req uuid now s = add_key req.as_add uuid s
  handle Manager.list_keys req uuid now s = list_keys s
  handle Manager.get_active_keys req uuid now s = get_active_keys req.path now s
  handle Manager.update_status req uuid now s = update_status req.as_status req.path s
  handle Manager.set_cooldown req uuid now s = set_cooldown req.as_cooldown req.path now s
  handle Manager.not_found req uuid now s = (ok (error "Not Found" 404), s)

  -- `uuid` is what `Uuid::new_v4` draws, and `now` the clock in seconds.
  unfoldable pub fetch : Request → String → ℕ → S → Reply × S
  unfolding route add_key list_keys get_active_keys update_status set_cooldown
  fetch req uuid now s = handle (route req.method req.path) req uuid now s
