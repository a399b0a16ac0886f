-- ===== src/Gateway/Target/Headers.antt =====
-- What the provider reads in the headers of make_gateway_request.
use Prim.Native.String
use thebalance.Prelude.{
  ◌≡◌, String, true, false, Option, none, some, List, [], ◌∷◌, ◌++◌, if◌then◌else◌,
}
use thebalance.Prelude.Result.{Result}
use thebalance.Prelude.Text.{eq_ignore_case, split}
use thebalance.Gateway.Target.{head_or_empty, is_slash}

-- `worker::Headers`: `set` replaces the values of a name, and names do not tell cases apart.
pub record Headers (H : Type 0) : Type 0 where
  pub empty : H
  pub set : String → String → H → H
  pub get : String → H → Option String

module _ {H : Type 0} (headers : Headers H) where
  pub record LawfulHeaders : Type 0 where
    pub get-set :
        (set_name name value : String) (h : H)
        → eq_ignore_case set_name name ≡ true
        → headers.get name (headers.set set_name value h) ≡ some value
    pub get-set_other :
        (set_name name value : String) (h : H)
        → eq_ignore_case set_name name ≡ false
        → headers.get name (headers.set set_name value h) ≡ headers.get name h
    pub get-empty : (name : String) → headers.get name headers.empty ≡ none

  abbrev pub set_all : List (String × String) → H → H
  set_all [] h = h
  set_all ((name, value) ∷ calls) h = set_all calls (headers.set name value h)

  -- The value of a name once the calls are made.
  abbrev pub effective : String → List (String × String) → Option String
  effective name calls = headers.get name (set_all calls headers.empty)

abbrev or_before : Option String → Option String → Option String
or_before (some value) before = some value
or_before none before = before

-- The last value under a name, in any case, of those that `to_str` reads.
abbrev pub last_readable : String → List (String × Option String) → Option String
last_readable name [] = none
last_readable name ((sent, none) ∷ headers) = last_readable name headers
last_readable name ((sent, some value) ∷ headers) =
    or_before (last_readable name headers) (if eq_ignore_case sent name then some value else none)

-- The provider that a path names.
abbrev pub provider_of : String → String
provider_of rest_resource = head_or_empty (split is_slash rest_resource)

-- The token, or else what the caller sent under that name.
abbrev pub token_or : Option String → Option String → Option String
token_or none sent = sent
token_or (some token) sent = some (String.◌++◌ "Bearer " token)

-- A name that is none of the other two that the gateway sets, in either order of comparison.
record IsApart (name : String) : Type 0 where
  before_id : eq_ignore_case name "X-OneBalance-Request-ID" ≡ false
  before_token : eq_ignore_case name "cf-aig-authorization" ≡ false
  behind_id : eq_ignore_case "X-OneBalance-Request-ID" name ≡ false
  behind_token : eq_ignore_case "cf-aig-authorization" name ≡ false
  itself : eq_ignore_case name name ≡ true
