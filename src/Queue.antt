-- ===== src/Queue.antt =====
-- queue.rs of crates/theone-balance/src: the consumer of the queue of state updates, in the build
-- with the feature `raw_d1`, where it calls d1_storage.rs itself.
pub mod Batch
pub mod Object
mod Tests
use thebalance.Prelude.{ℕ, String, List, [], ◌∷◌}
use thebalance.Prelude.Int.{pos}
use thebalance.Prelude.Result.{Result, ok, err}
use thebalance.Storage.Model.{ApiKeyStatus, StorageError}
use thebalance.Storage.Cooldowns.{set_cooldown}
use thebalance.Storage.Admin.{update_status}
use thebalance.Storage.Platform.{World, Platform, Action}

pub data StateUpdate : Type 0 where
  set_status : String → ApiKeyStatus → StateUpdate
  set_key_cooldown : String → String → ℕ → StateUpdate

-- A message, and the two readings of the clock while it is processed.
pub record Message : Type 0 where
  pub body : StateUpdate
  pub now : ℕ
  pub later : ℕ

-- What the queue is told of a message.
pub data Delivery : Type 0 where
  ack retry : Delivery

abbrev pub delivery : {E : Type 0} → Result E (Unit {0}) → Delivery
delivery (ok u) = ack
delivery (err e) = retry

-- The loop over the messages; `apply` is what an update comes to.
module _ {E W : Type 0} (apply : Message → W → Result E (Unit {0}) × W) where
  unfoldable pub process : List Message → W → List Delivery × W
  process [] w = ([], w)
  process (m ∷ ms) w =
      let (res, w') = apply m w in let (rest, w'') = process ms w' in (delivery res ∷ rest, w'')

module _ {S T C P : Type 0} (pf : Platform S T C P) where
  -- The arms of `match message.body()`.
  abbrev pub apply_body : StateUpdate → ℕ → ℕ → Action (World S C P) (Unit {0})
  apply_body (set_status key_id status) now later = update_status pf key_id status (pos now)
  apply_body (set_key_cooldown key_id model duration_secs) now later =
      set_cooldown pf key_id model duration_secs now later

  abbrev pub apply : Message → Action (World S C P) (Unit {0})
  apply m = apply_body m.body m.now m.later

  -- `batch.messages()?` fails when a body does not parse; then no message is told anything. The
  -- binding of the database may be missing too.
  abbrev started :
      {E : Type 0}
      → Result E (Unit {0})
      → Result E (List Message)
      → World S C P
      → Result E (List Delivery) × World S C P
  started (err e) messages w = (err e, w)
  started (ok u) (err e) w = (err e, w)
  started (ok u) (ok ms) w = let (ds, w') = process apply ms w in (ok ds, w')

  unfoldable pub main :
      {E : Type 0}
      → Result E (Unit {0})
      → Result E (List Message)
      → World S C P
      → Result E (List Delivery) × World S C P
  unfolding process
  main binding messages w = started binding messages w
