-- ===== src/Storage/Model.antt =====
-- dbmodels.rs and state/strategy.rs: a row of the table `keys`, and the key that the gateway uses.
use Prim.Native.String
use thebalance.Prelude.{ℕ, String, Bool, Option, none, some, [], str_eq, if◌then◌else◌}
use thebalance.Prelude.Int.{ℤ, as_u64}
use thebalance.Prelude.Assoc.{Assoc, lookup}
use thebalance.Prelude.Result.{Result, ok, err}

pub data ApiKeyStatus : Type 0 where
  active blocked : ApiKeyStatus

pub record ModelCooling : Type 0 where
  pub total_seconds : ℤ
  pub end_at : ℤ

-- `T` is the type of the JSON text in the column `model_coolings`, which the program reads and
-- writes through `serde_json` alone. The success rate is in thousandths.
pub record Key (T : Type 0) : Type 0 where
  pub id : String
  pub key : String
  pub provider : String
  pub model_coolings : T
  pub total_cooling_seconds : ℤ
  pub status : String
  pub created_at : ℤ
  pub updated_at : ℤ
  pub latency_ms : ℤ
  pub success_rate : ℤ
  pub consecutive_failures : ℤ
  pub last_checked_at : ℤ
  pub last_succeeded_at : ℤ

-- The success rate stays in thousandths: for 0 to 1000 the source's division by 1000.0 and its
-- product by 1000.0 give the integer back.
pub record ApiKey : Type 0 where
  pub id : String
  pub key : String
  pub provider : String
  pub status : ApiKeyStatus
  pub model_coolings : Assoc ℕ
  pub total_cooling_seconds : ℕ
  pub created_at : ℕ
  pub updated_at : ℕ
  pub latency_ms : ℤ
  pub success_rate : ℤ
  pub consecutive_failures : ℤ
  pub last_checked_at : ℕ
  pub last_succeeded_at : ℕ

unfoldable pub get_cooldown_end : ApiKey → String → Option ℕ
get_cooldown_end k model = lookup model k.model_coolings

pub data StorageError : Type 0 where
  toasty : String → StorageError
  worker : String → StorageError

-- An error as it is displayed.
abbrev pub error_text : StorageError → String
error_text (toasty e) = String.◌++◌ "Toasty error: " e
error_text (worker e) = String.◌++◌ "Worker error: " e

-- `serde_json` on the column, at the types that the sources name. `none` is an error.
pub record CoolingsJson (T : Type 0) : Type 0 where
  pub is_empty_or_null : T → Bool
  pub empty_object : T
  pub parse_coolings : T → Option (Assoc ModelCooling)
  pub parse_ends : T → Option (Assoc ℕ)
  pub parse_signed_ends : T → Option (Assoc ℤ)
  pub print_coolings : Assoc ModelCooling → T
  pub print_ends : Assoc ℤ → T

module _ {T : Type 0} (json : CoolingsJson T) where
  abbrev parsed : Option (Assoc ModelCooling) → Result StorageError (Option (Assoc ModelCooling))
  parsed none = err (toasty "serde_json")
  parsed (some m) = ok (some m)

  unfoldable pub get_model_coolings : Key T → Result StorageError (Option (Assoc ModelCooling))
  get_model_coolings k =
      if json.is_empty_or_null k.model_coolings
      then ok none
      else parsed (json.parse_coolings k.model_coolings)

  unfoldable pub set_model_coolings : Key T → Assoc ModelCooling → Key T
  set_model_coolings k coolings = record k { model_coolings = json.print_coolings coolings }

  abbrev ends_or_default : Option (Assoc ℕ) → Assoc ℕ
  ends_or_default none = []
  ends_or_default (some m) = m

  unfoldable pub db_key_to_api_key : Key T → ApiKey
  unfolding as_u64
  db_key_to_api_key k = record {
    id = k.id;
    key = k.key;
    provider = k.provider;
    status = if str_eq k.status "active" then active else blocked;
    model_coolings = ends_or_default (json.parse_ends k.model_coolings);
    total_cooling_seconds = as_u64 k.total_cooling_seconds;
    created_at = as_u64 k.created_at;
    updated_at = as_u64 k.updated_at;
    latency_ms = k.latency_ms;
    success_rate = k.success_rate;
    consecutive_failures = k.consecutive_failures;
    last_checked_at = as_u64 k.last_checked_at;
    last_succeeded_at = as_u64 k.last_succeeded_at;
  }
