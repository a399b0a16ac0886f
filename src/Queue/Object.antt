-- ===== src/Queue/Object.antt =====
-- queue.rs in the build without `raw_d1`: the consumer sends each update to the durable object.
pub mod Reaches
mod Tests
use Prim.Native.String
use thebalance.Prelude.{ℕ, String, List}
use thebalance.Prelude.Result.{Result, ok, err, ◌>>=◌}
use thebalance.Storage.Model.{ApiKeyStatus}
use thebalance.Manager.{Method, put, post, Request, Response}
use thebalance.Queue.{StateUpdate, set_status, set_key_cooldown, Message, Delivery, process}

-- The JSON that a request carries.
pub data Body : Type 0 where
  status_body : ApiKeyStatus → Body
  cooldown_body : (model : String) → (duration_secs : ℕ) → Body

-- `worker::Request::new_with_init`, of a URL.
pub record Requests : Type 0 where
  pub new_request : Method → String → Body → Result String Request

abbrev pub key_url : String → String → String
key_url key_id last_part =
    String.◌++◌ "https://fake-host" (String.◌++◌ "/keys/" (String.◌++◌ key_id last_part))

-- The response is dropped, whatever its status is.
abbrev pub dropped : {W : Type 0} → Result String Response × W → Result String (Unit {0}) × W
dropped (ok response, w) = (ok tt, w)
dropped (err e, w) = (err e, w)

-- `stub` is what `get_do_stub` comes to, and `object` is `fetch_with_request`, with the clock at the
-- time of the message.
module _ {W : Type 0} (requests : Requests) (stub : Result String (Unit {0}))
    (object : ℕ → Request → W → Result String Response × W) where
  abbrev pub sent : ℕ → Result String Request → W → Result String (Unit {0}) × W
  sent now (err e) w = (err e, w)
  sent now (ok req) w = dropped (object now req w)

  unfoldable pub set_key_status : String → ApiKeyStatus → ℕ → W → Result String (Unit {0}) × W
  set_key_status key_id status now w =
      sent now
        (stub >>= (λ _. requests.new_request put (key_url key_id "/status") (status_body status))) w

  unfoldable pub set_key_cooldown_of : String → String → ℕ → ℕ → W → Result String (Unit {0}) × W
  set_key_cooldown_of key_id model duration_secs now w =
      sent now
        (stub >>= (λ _.
          requests.new_request post (key_url key_id "/cooldown")
            (cooldown_body model duration_secs)))
        w

  abbrev pub send_body : StateUpdate → ℕ → W → Result String (Unit {0}) × W
  send_body (set_status key_id status) now w = set_key_status key_id status now w
  send_body (set_key_cooldown key_id model duration_secs) now w =
      set_key_cooldown_of key_id model duration_secs now w

  abbrev pub send : Message → W → Result String (Unit {0}) × W
  send m w = send_body m.body m.now w

  abbrev sent_all : Result String (List Message) → W → Result String (List Delivery) × W
  sent_all (err e) w = (err e, w)
  sent_all (ok ms) w = let (ds, w') = process send ms w in (ok ds, w')

  unfoldable pub main_with_object :
      Result String (List Message) → W → Result String (List Delivery) × W
  unfolding process set_key_status set_key_cooldown_of
  main_with_object messages w = sent_all messages w
