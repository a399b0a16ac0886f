-- ===== src/Manager.antt =====
-- state_do_kv.rs and state_do_sqlite.rs: the durable object ApiKeyManager, in its two builds. What
-- they share stands here: the requests, the routes and the keys.
pub mod Kv
pub mod Sqlite
pub mod Paths
pub mod Samples
use thebalance.Prelude.{
  ℕ, String, Bool, true, false, List, [], ◌∷◌, ◌&&◌, leb, all, str_eq, if◌then◌else◌,
}
use thebalance.Prelude.Assoc.{Assoc}
use thebalance.Prelude.Result.{Result, ok, err}
use thebalance.Prelude.Text.{starts_with, ends_with}
use thebalance.Prelude.Trim.{trim_start_matches_text, trim_end_matches_text}
use thebalance.Storage.Model.{ApiKeyStatus, active, blocked}

-- The key with the field `last_used`, which both files give it and strategy.rs has not got.
pub record StoredKey : Type 0 where
  pub id : String
  pub key : String
  pub provider : String
  pub status : ApiKeyStatus
  pub model_coolings : Assoc ℕ
  pub last_used : ℕ

pub record AddKeyRequest : Type 0 where
  pub key : String
  pub provider : String

pub record SetCooldownRequest : Type 0 where
  pub model : String
  pub duration_secs : ℕ

pub data Method : Type 0 where
  get post put other_method : Method

-- A request, with what `req.json()` gives at each of the types that the handlers ask for.
pub record Request : Type 0 where
  pub method : Method
  pub path : String
  pub as_add : Result String AddKeyRequest
  pub as_status : Result String ApiKeyStatus
  pub as_cooldown : Result String SetCooldownRequest

pub data Response : Type 0 where
  key_json : StoredKey → Response
  keys_json : List StoredKey → Response
  text : String → Response
  error : String → ℕ → Response

-- An error that the handler passes on, or an `unwrap` of nothing.
pub data Fault : Type 0 where
  failed : String → Fault
  panicked : Fault

abbrev pub Reply : Type 0
Reply = Result Fault Response

-- The arms of `match (req.method(), path.as_str())`.
pub data Route : Type 0 where
  add_key list_keys get_active_keys update_status set_cooldown not_found : Route

unfoldable pub route : Method → String → Route
unfolding starts_with ends_with
route post path =
    if str_eq path "/keys"
    then add_key
    else if ends_with path "/cooldown"
    then set_cooldown
    else not_found
route get path =
    if str_eq path "/keys"
    then list_keys
    else if starts_with path "/keys/active/"
    then get_active_keys
    else not_found
route put path = if ends_with path "/status" then update_status else not_found
route other_method path = not_found

unfoldable pub provider_of : String → String
unfolding trim_start_matches_text
provider_of path = trim_start_matches_text path "/keys/active/"

-- The id between `/keys/` and the last part.
unfoldable pub id_of : String → String → String
unfolding trim_start_matches_text trim_end_matches_text
id_of path last_part = trim_end_matches_text (trim_start_matches_text path "/keys/") last_part

abbrev pub is_active : ApiKeyStatus → Bool
is_active active = true
is_active blocked = false

-- `model_coolings.values().all(|&cooldown_end| now >= cooldown_end)`.
unfoldable pub is_cool : ℕ → StoredKey → Bool
unfolding all
is_cool now k = all (λ entry. leb entry.1 now) k.model_coolings
