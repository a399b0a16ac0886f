-- ===== src/Gateway/Forward/Keeps.antt =====
-- The handlers over the invariant of the storage component.
use mathlib.Core.Path.{subst}
use thebalance.Prelude.{ℕ, sym, String, Option}
use thebalance.Errors.{GoogleJson}
use thebalance.Storage.Platform.{World, Platform}
use thebalance.Storage.Platform.Lawful.{LawfulDb, LawfulCache}
use thebalance.Storage.Invariant.{Inv}
use thebalance.Storage.Invariant.History.{run_calls-Inv}
use thebalance.Gateway.Target.{Incoming, BodyJson}
use thebalance.Gateway.Failover.{AnswerJson, Turn}
use thebalance.Gateway.Forward.{Settings, forward}
use thebalance.Gateway.Forward.Calls.{forward-run_calls}

module _ {S T C P : Type 0} (pf : Platform S T C P) (db : LawfulDb pf)
    (cache : LawfulCache pf) where
  module _ {F : Type 0} (google : GoogleJson) (bodies : BodyJson) (answers : AnswerJson F)
      (body_model : String → Option String) (settings : Settings) (turn : ℕ → Turn)
      (now later : ℕ) where
    -- A whole request, whatever the caller sends and whatever the upstream answers: when its background
    -- tasks are done, the invariant of the storage component still holds.
    forward-Inv :
        (authorization : Option String) (req : Incoming) (w : World S C P)
        → Inv pf db w
        → Inv pf db
            (forward pf google bodies answers body_model settings turn now later authorization req
              w).1
    forward-Inv authorization req w h =
        let (cs, asked, e) =
          forward-run_calls pf google bodies answers body_model settings turn now later
            authorization req w in
        subst (Inv pf db) (sym e) (run_calls-Inv pf google db cache cs w h)
