-- ===== src/Queue/Object/Tests.antt =====
-- Two messages to an object with one key, of which the second names another key.
use thebalance.Prelude.{String, Option, none, some, List, [], ◌∷◌}
use thebalance.Prelude.Text.{strip_prefix}
use thebalance.Prelude.Result.{Result, ok, err}
use thebalance.Storage.Model.{ApiKeyStatus, blocked}
use thebalance.Manager.{SetCooldownRequest, Method, Request}
use thebalance.Queue.{set_status, set_key_cooldown, Message}
use thebalance.Queue.Object.{Body, status_body, cooldown_body, Requests}

abbrev status_in : Body → Result String ApiKeyStatus
status_in (status_body status) = ok status
status_in (cooldown_body model duration_secs) = err "missing field"

abbrev cooldown_in : Body → Result String SetCooldownRequest
cooldown_in (status_body status) = err "missing field"
cooldown_in (cooldown_body model duration_secs) =
    ok (record { model = model; duration_secs = duration_secs })

abbrev request_at : Method → Body → Option String → Result String Request
request_at method body none = err "another host"
request_at method body (some path) = ok (record {
  method = method;
  path = path;
  as_add = err "missing field";
  as_status = status_in body;
  as_cooldown = cooldown_in body;
})

-- Requests to the one host, with no escapes.
abbrev requests : Requests
requests = record {
  new_request = λ method url body. request_at method body (strip_prefix url "https://fake-host");
}

abbrev messages : List Message
messages =
    record { body = set_status "k1" blocked; now = 1700000000; later = 1700000000 }
    ∷ record { body = set_key_cooldown "k2" "gemini" 65; now = 1700000001; later = 1700000002 }
    ∷ []
