-- ===== src/Queue/Batch.antt =====
-- A batch is its updates, one after the other, each told of by its own outcome.
use thebalance.Prelude.{
  ◌≡◌, refl, ap, ◌∙◌, Option, none, some, List, [], ◌∷◌, ◌++◌, map, ℕ, zero, suc, length,
}
use thebalance.Prelude.Int.{pos}
use thebalance.Prelude.Result.{Result, ok, err}
use thebalance.Errors.{GoogleJson}
use thebalance.Queue.{
  StateUpdate, set_status, set_key_cooldown, Message, Delivery, ack, retry, delivery, apply_body,
  apply, process, main,
}
use thebalance.Storage.Platform.{World, Platform}
use thebalance.Storage.Invariant.History
use thebalance.Storage.Invariant.History.{Call, cool_plain, run_calls, run_call}

-- The storage call that an update asks for.
abbrev body_call : {T : Type 0} → StateUpdate → ℕ → ℕ → Call T
body_call (set_status key_id status) now later = History.set_status key_id status (pos now)
body_call (set_key_cooldown key_id model duration_secs) now later =
    cool_plain key_id model duration_secs now later

abbrev pub call : {T : Type 0} → Message → Call T
call m = body_call m.body m.now m.later

abbrev pub elem_at : {A : Type 0} → List A → ℕ → Option A
elem_at [] n = none
elem_at (x ∷ xs) zero = some x
elem_at (x ∷ xs) (suc n) = elem_at xs n

-- Success is acknowledged, and a failure is to come again.
abbrev pub told_of {ℓ} : {E : Type ℓ} → Result E (Unit {0}) → Delivery
told_of (ok u) = ack
told_of (err e) = retry

pub delivery-told : {E : Type 0} (r : Result E (Unit {0})) → delivery r ≡ told_of r
delivery-told (ok u) = refl
delivery-told (err e) = refl

module _ {S T C P : Type 0} (pf : Platform S T C P) where
  run_call-body :
      (google : GoogleJson) (b : StateUpdate) (now later : ℕ) (w : World S C P)
      → (apply_body pf b now later w).1 ≡ run_call pf google (body_call b now later) w
  unfolding run_call
  run_call-body google (set_status key_id status) now later w = refl
  run_call-body google (set_key_cooldown key_id model duration_secs) now later w = refl

  process-run_calls :
      (google : GoogleJson) (ms : List Message) (w : World S C P)
      → (process (apply pf) ms w).1 ≡ run_calls pf google (map call ms) w
  unfolding process run_calls
  process-run_calls google [] w = refl
  process-run_calls google (m ∷ ms) w =
      process-run_calls google ms (apply pf m w).1
      ∙ ap (run_calls pf google (map call ms)) (run_call-body google m.body m.now m.later w)

  process-delivery :
      (before after : List Message) (m : Message) (w : World S C P)
      → elem_at (process (apply pf) (before ++ m ∷ after) w).0 (length before)
        ≡ some (delivery (apply pf m (process (apply pf) before w).1).0)
  unfolding process
  process-delivery [] after m w = refl
  process-delivery (b ∷ before) after m w = process-delivery before after m (apply pf b w).1

  -- A batch leaves the world that its updates leave as storage calls in their order, whichever of
  -- them fail; and each message is acknowledged if its own update succeeds in the world that the
  -- messages before it leave, and retried if not. A batch that does not parse, or that has no
  -- database, changes nothing.
  pub main-run_calls :
      {E : Type 0} (google : GoogleJson) (before after : List Message) (m : Message) (e : E)
      (messages : Result E (List Message)) (w : World S C P)
      → (main pf {E = E} (ok tt) (ok (before ++ m ∷ after)) w ≡ (
        ok (process (apply pf) (before ++ m ∷ after) w).0,
        run_calls pf google (map call (before ++ m ∷ after)) w,
      ))
        × (elem_at (process (apply pf) (before ++ m ∷ after) w).0 (length before)
            ≡ some (told_of (apply pf m (run_calls pf google (map call before) w)).0))
        × (main pf (err e) messages w ≡ (err e, w))
        × (main pf (ok tt) (err e) w ≡ (err e, w))
  unfolding main
  main-run_calls google before after m e messages w = (
    ap (λ v. (ok (process (apply pf) (before ++ m ∷ after) w).0, v))
        (process-run_calls google (before ++ m ∷ after) w),
    process-delivery before after m w
        ∙ ap (λ v. some (delivery (apply pf m v).0)) (process-run_calls google before w)
        ∙ ap some (delivery-told _),
    refl,
    refl,
  )
