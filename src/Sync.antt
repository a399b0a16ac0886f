-- ===== src/Sync.antt =====
-- bin/sync_cli.rs and bin/cli/ of crates/theone-balance/src: the command that copies the active keys of
-- one deployment to another, over its form for adding keys.
pub mod Counts
pub mod Arrives
mod Tests
use Prim.Native.String
use thebalance.Prelude.{
  ℕ, ◌+◌, ◌-◌, String, Bool, true, false, ◌&&◌, ◌||◌, Option, none, some, List, [], ◌∷◌, ◌++◌,
  length, leb, ltb, ◌==◌, last, if◌then◌else◌,
}
use thebalance.Prelude.Assoc.{Assoc, lookup, insert}
use thebalance.Prelude.Text.{trim_end_matches, join, decimal}
use thebalance.Prelude.Result.{Result, ok, err, ◌>>=◌}

pub data ConfigSource : Type 0 where
  one_balance the_one : ConfigSource

pub record SyncArgs : Type 0 where
  pub source : ConfigSource
  pub target : ConfigSource
  pub source_name : Option String
  pub target_name : Option String

-- `cli::types::ApiKey`.
pub record SourceKey : Type 0 where
  pub key : String
  pub provider : String

pub record SyncResult : Type 0 where
  pub success : Bool
  pub synced_count : ℕ
  pub failed_count : ℕ
  pub errors : List String

abbrev required : Option String → String → Result String String
required none message = err message
required (some text) message = ok text

-- `Source::from_config`: the name of the database.
unfoldable pub source_from_config : ConfigSource → Option String → Result String String
source_from_config one_balance name =
    required name "Database name for the source is required. Use --source-name."
source_from_config the_one name = err "Unsupported source type"

-- The variables THE_ONE_WORKER_URL and THE_ONE_AUTH_KEY.
pub record TargetEnv : Type 0 where
  pub worker_url : Option String
  pub auth_key : Option String

-- The worker's address, without the slashes at its end. `{provider}` in it would be replaced by the
-- source; here an address has none.
pub record TheOneTarget : Type 0 where
  pub base_url : String
  pub auth_key : String

unfoldable pub new_target : TargetEnv → Result String TheOneTarget
unfolding trim_end_matches
new_target env = do
  worker_url ←
      required env.worker_url
        "THE_ONE_WORKER_URL environment variable not set. e.g., https://my-worker.example.com"
  auth_key ← required env.auth_key "THE_ONE_AUTH_KEY environment variable not set"
  ok (record { base_url = trim_end_matches worker_url b'/'; auth_key = auth_key })

unfoldable pub target_from_config : ConfigSource → TargetEnv → Result String TheOneTarget
unfolding new_target
target_from_config one_balance env = err "Unsupported target type"
target_from_config the_one env = new_target env

-- What the command `wrangler` ends with, and its output as `serde_json` reads it: a list of results.
pub data CommandEnd : Type 0 where
  not_started : String → CommandEnd
  failed : String → CommandEnd
  malformed : String → CommandEnd
  printed : List (List SourceKey) → CommandEnd

abbrev results_or_none : Option (List SourceKey) → List SourceKey
results_or_none none = []
results_or_none (some keys) = keys

unfoldable pub fetch_keys : CommandEnd → Result String (List SourceKey)
fetch_keys (not_started e) = err e
fetch_keys (failed e) = err e
fetch_keys (malformed e) = err e
fetch_keys (printed results) = ok (results_or_none (last results))

abbrev list_or_empty : Option (List String) → List String
list_or_empty none = []
list_or_empty (some keys) = keys

-- `entry(provider).or_default().push(key)`.
unfoldable pub push_key : SourceKey → Assoc (List String) → Assoc (List String)
unfolding lookup insert
push_key k groups =
    insert k.provider (list_or_empty (lookup k.provider groups) ++ k.key ∷ []) groups

-- The loop over the keys.
unfoldable pub group_keys : List SourceKey → Assoc (List String) → Assoc (List String)
unfolding push_key
group_keys [] groups = groups
group_keys (k ∷ ks) groups = group_keys ks (push_key k groups)

pub record FormPost : Type 0 where
  pub url : String
  pub cookie : String
  pub keys : String

unfoldable pub form_post : TheOneTarget → String → List String → FormPost
unfolding join
form_post target provider key_list = record {
  url = String.◌++◌ target.base_url (String.◌++◌ "/keys/" provider);
  cookie = String.◌++◌ "auth_key=" target.auth_key;
  keys = join "\n" key_list;
}

-- An answer: its status, the status as it is displayed, and its body, which may fail to be read.
abbrev pub FormAnswer : Type 0
FormAnswer = ℕ × String × Result String String

abbrev accepted : ℕ → Bool
accepted status = leb 200 status && ltb status 400

abbrev no_result : SyncResult
no_result = record { success = true; synced_count = 0; failed_count = 0; errors = [] }

abbrev failure_text : String → ℕ → String → String → String
failure_text provider count status body = String.◌++◌ "Provider '" (
    String.◌++◌ provider (
      String.◌++◌ "': Failed to sync " (
        String.◌++◌ (decimal count)
          (String.◌++◌ " keys (status " (String.◌++◌ status (String.◌++◌ "): " body))))))

-- The counts after the answer to one provider's keys; a body that cannot be read ends the loop.
unfoldable pub counted : SyncResult → String → List String → FormAnswer → Result String SyncResult
unfolding decimal
counted r provider key_list (status, displayed, body) =
    if accepted status
    then ok (record r { synced_count = r.synced_count + length key_list })
    else (do
      error_body ← body
      ok (record r {
        failed_count = r.failed_count + length key_list;
        errors = r.errors ++ failure_text provider (length key_list) displayed error_body ∷ [];
      }))

abbrev or_stop :
    SyncResult → String → List String → Result String (FormAnswer) → Result String SyncResult
or_stop r provider key_list (err e) = err e
or_stop r provider key_list (ok answer) = counted r provider key_list answer

-- `send post h` is what the network makes of a post, `h` being its state.
module _ {H : Type 0} (send : FormPost → H → Result String (FormAnswer) × H) where
  abbrev go_on :
      Result String SyncResult
      → (SyncResult → H → Result String SyncResult × H)
      → H
      → Result String SyncResult × H
  go_on (err e) next h = (err e, h)
  go_on (ok r) next h = next r h

  -- The loop over the providers.
  unfoldable pub send_groups :
      TheOneTarget → Assoc (List String) → SyncResult → H → Result String SyncResult × H
  unfolding form_post counted
  send_groups target [] r h = (ok (record r { success = r.failed_count == 0 }), h)
  send_groups target ((provider, key_list) ∷ groups) r h =
      let (sent, h') = send (form_post target provider key_list) h in
      go_on (or_stop r provider key_list sent) (send_groups target groups) h'

  -- `order` is the order in which a `HashMap` gives its entries.
  module _ (order : Assoc (List String) → Assoc (List String)) where
    unfoldable pub sync_keys : TheOneTarget → List SourceKey → H → Result String SyncResult × H
    unfolding send_groups group_keys
    sync_keys target [] h = (ok no_result, h)
    sync_keys target (k ∷ ks) h = send_groups target (order (group_keys (k ∷ ks) [])) no_result h

    abbrev synced :
        TheOneTarget → Result String (List SourceKey) → H → Result String (Option SyncResult) × H
    synced target (err e) h = (err e, h)
    synced target (ok []) h = (ok none, h)
    synced target (ok (k ∷ ks)) h =
        let (r, h') = sync_keys target (k ∷ ks) h in (r >>= (λ result. ok (some result)), h')

    abbrev with_target :
        Result String TheOneTarget → CommandEnd → H → Result String (Option SyncResult) × H
    with_target (err e) fetched h = (err e, h)
    with_target (ok target) fetched h = synced target (fetch_keys fetched) h

    abbrev with_source :
        Result String String
        → Result String TheOneTarget
        → (String → CommandEnd)
        → H
        → Result String (Option SyncResult) × H
    with_source (err e) target wrangler h = (err e, h)
    with_source (ok db_name) target wrangler h = with_target target (wrangler db_name) h

    -- `App::sync`; `wrangler db_name` is the end of the command on that database.
    unfoldable pub sync :
        SyncArgs → TargetEnv → (String → CommandEnd) → H → Result String (Option SyncResult) × H
    unfolding source_from_config target_from_config fetch_keys sync_keys
    sync args env wrangler h =
        with_source (source_from_config args.source args.source_name)
          (target_from_config args.target env) wrangler h
