-- ===== src/Queue/Object/Reaches.antt =====
-- What an update comes to at the object in its build with the key-value storage.
use Prim.Native.String
use thebalance.Prelude.{ℕ, ◌≡◌, String, true, Option, none, some, List, [], ◌∷◌}
use thebalance.Prelude.Result.{Result, ok, err}
use thebalance.Storage.Model.{ApiKeyStatus}
use thebalance.Manager
use thebalance.Manager.{
  StoredKey, Method, put, Request, Response, Reply, Fault, failed, panicked, Route, id_of,
}
use thebalance.Manager.Kv
use thebalance.Manager.Kv.{KvStorage, or_no_keys, change_first, cooled}
use thebalance.Manager.Paths.{is_plain_path}
use thebalance.Queue.{StateUpdate, set_status, set_key_cooldown, Message, Delivery}
use thebalance.Queue.Batch.{told_of}
use thebalance.Queue.Object.{Body, status_body, cooldown_body, Requests}

-- The documented behaviour of a request: its method, the path of its URL, and the body as JSON.
pub record LawfulRequests (requests : Requests) : Type 0 where
  pub makes :
      (method : Method) (path : String) (body : Body)
      → is_plain_path path ≡ true
      → (req : Request) × (requests.new_request method (String.◌++◌ "https://fake-host" path) body
          ≡ ok req)
        × (req.method ≡ method)
        × (req.path ≡ path)
  pub status_json :
      (method : Method) (url : String) (status : ApiKeyStatus) (req : Request)
      → requests.new_request method url (status_body status) ≡ ok req
      → req.as_status ≡ ok status
  pub cooldown_json :
      (method : Method) (url model : String) (duration_secs : ℕ) (req : Request)
      → requests.new_request method url (cooldown_body model duration_secs) ≡ ok req
      → req.as_cooldown ≡ ok (record { model = model; duration_secs = duration_secs })

-- The fault of the object as the caller's error.
abbrev pub as_result : {W : Type 0} → Reply × W → Result String Response × W
as_result (ok r, w) = (ok r, w)
as_result (err (failed e), w) = (err e, w)
as_result (err panicked, w) = (err "panicked", w)

-- The change of a key that an update asks for.
abbrev pub change_of : StateUpdate → ℕ → StoredKey → StoredKey
change_of (set_status key_id status) now k = record k { status = status }
change_of (set_key_cooldown key_id model duration_secs) now k =
    cooled now (record { model = model; duration_secs = duration_secs }) k

abbrev pub key_of : StateUpdate → String
key_of (set_status key_id status) = key_id
key_of (set_key_cooldown key_id model duration_secs) = key_id

module _ {S : Type 0} (requests : Requests) (law : LawfulRequests requests) (kv : KvStorage S)
    (uuid : String) where
  abbrev pub object : ℕ → Request → S → Result String Response × S
  object now req s = as_result (Kv.fetch kv req uuid now s)

  abbrev pub told : Result String (Unit {0}) × S → Result String (Unit {0}) × S
  told (ok u, s) = (ok tt, s)
  told (err e, s) = (err e, s)

  -- The keys with the change are put back; with no such key nothing is done, and all is well.
  abbrev pub put_changed : Option (StoredKey × List StoredKey) → S → Result String (Unit {0}) × S
  put_changed none s = (ok tt, s)
  put_changed (some (changed, keys)) s = told (kv.put keys s)

  -- What one message comes to at the keys that the object holds.
  abbrev pub changed : Message → S → Result String (Unit {0}) × S
  changed m s =
      put_changed (change_first (key_of m.body) (change_of m.body m.now) (or_no_keys (kv.get s).0))
        (kv.get s).1

  -- The messages one after the other; each is acknowledged if it comes to no error, and comes again
  -- if not.
  unfoldable pub all_changed : List Message → S → List Delivery × S
  all_changed [] s = ([], s)
  all_changed (m ∷ ms) s =
      let (done, s1) = changed m s in
      let (rest, s2) = all_changed ms s1 in (told_of done ∷ rest, s2)
