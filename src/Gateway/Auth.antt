-- ===== src/Gateway/Auth.antt =====
-- util.rs: the caller's key, the provider and model of a request, and redaction.
pub mod Extract
pub mod Parts
mod Tests
use Prim.Native.String.{len}
use Prim.Native.String
use text.Mathlib.Text.{get?}
use thebalance.Prelude.{
  ℕ, ◌-◌, String, Bool, true, false, Option, none, some, List, [], ◌∷◌, ◌==◌, ltb, str_eq,
  if◌then◌else◌,
}
use thebalance.Prelude.Result.{Result, ok, err}
use thebalance.Prelude.Text.{is_empty_text, strip_prefix, split, join}

abbrev or_empty : Option String → String
or_empty none = ""
or_empty (some s) = s

abbrev bearer : Option String → Option String
bearer none = none
bearer (some value) = strip_prefix value "Bearer "

-- The key behind `Bearer ` in the header `Authorization`, or the empty text. `header` is none if it is
-- missing or not readable as text.
unfoldable pub get_auth_key : Option String → String
unfolding strip_prefix
get_auth_key header = or_empty (bearer header)

-- `secret` is `AUTH_KEY`, if it is set.
unfoldable pub is_valid_auth_key : String → Option String → Bool
is_valid_auth_key key none = false
is_valid_auth_key key (some secret) = if is_empty_text key then false else str_eq key secret

abbrev pub is_slash : ℕ → Bool
is_slash c = c == b'/'

-- The first two parts of `model`, or nothing if there are fewer.
abbrev two_parts : List String → Option (String × String)
two_parts [] = none
two_parts (provider ∷ []) = none
two_parts (provider ∷ (model ∷ rest)) = some (provider, model)

abbrev from_body : Option String → Option (String × String)
from_body none = none
from_body (some model) = two_parts (split is_slash model)

abbrev from_path : List String → Result String (String × String)
from_path [] = err "Could not determine provider and model from request."
from_path (provider ∷ []) = err "Could not determine provider and model from request."
from_path (provider ∷ (model ∷ rest)) = ok (provider, join "/" (model ∷ rest))

abbrev or_path : Option (String × String) → String → Result String (String × String)
or_path (some found) rest_resource = ok found
or_path none rest_resource = from_path (split is_slash rest_resource)

-- `model_field` is the text under `model` in the body, if the body is JSON and has one.
unfoldable pub extract_provider_and_model : Option String → String → Result String (String × String)
unfolding split join
extract_provider_and_model model_field rest_resource = or_path (from_body model_field) rest_resource

abbrev ends_of : Option String → Option String → Option String
ends_of (some first) (some last) = some (String.◌++◌ first (String.◌++◌ "..." last))
ends_of (some first) none = none
ends_of none last = none

-- Slices count bytes; `none` is the panic where a slice cuts a character.
unfoldable pub partially_redact_key : String → Option String
partially_redact_key key =
    if ltb (len key) 8
    then some "key-too-short"
    else ends_of (get? key 0 4) (get? key (len key - 4) (len key))
