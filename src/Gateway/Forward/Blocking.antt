-- ===== src/Gateway/Forward/Blocking.antt =====
-- Requests, each with its background tasks, after a key has been blocked.
mod Tests
use mathlib.Core.Path.{subst}
use thebalance.Prelude.{ℕ, ◌≡◌, ◌≢◌, refl, sym, ap, ◌∙◌, String, Option, List, [], ◌∷◌, ◌++◌, All}
use thebalance.Prelude.Int.{ℤ}
use thebalance.Prelude.Result.{ok}
use thebalance.Errors.{GoogleJson}
use thebalance.Storage.Model.{Key, ApiKey, active, blocked}
use thebalance.Storage.Admin.{update_status}
use thebalance.Storage.Reads.{get_healthy_sorted_keys_via_cache}
use thebalance.Storage.Platform.{World, Platform}
use thebalance.Storage.Platform.Sql.{assign_all}
use thebalance.Storage.Platform.Binding.{bind_assignment}
use thebalance.Storage.Platform.Lawful.{LawfulDb, LawfulCache}
use thebalance.Storage.Invariant.Blocked.{IsBlocked, IsOwned, blocked_stays_out}
use thebalance.Storage.Invariant.History.{
  Call, update_metrics, cool_model, cool_plain, flag, add, delete, delete_blocked, set_status,
  read_keys, clean_up, Allowed, run_call, run_calls,
}
use thebalance.Gateway.Target.{Incoming, BodyJson}
use thebalance.Gateway.Failover.{AnswerJson, Turn}
use thebalance.Gateway.Forward.{Settings, forward}
use thebalance.Gateway.Forward.Calls.{IsRequestCall, forward-run_calls}

-- A request as it reaches `forward`, with what the clock reads and the providers answer during it.
pub record Request : Type 0 where
  pub authorization : Option String
  pub incoming : Incoming
  pub turn : ℕ → Turn
  pub now : ℕ
  pub later : ℕ

module _ {S T C P : Type 0} (pf : Platform S T C P) (google : GoogleJson) where
  run_calls-append :
      (cs ds : List (Call T)) (w : World S C P)
      → run_calls pf google (cs ++ ds) w ≡ run_calls pf google ds (run_calls pf google cs w)
  unfolding run_calls
  run_calls-append [] ds w = refl
  run_calls-append (c ∷ cs) ds w = run_calls-append cs ds (run_call pf google c w)

  All-append :
      {A : Type 0} (R : A → Type 0) (xs ys : List A) → All R xs → All R ys → All R (xs ++ ys)
  All-append R [] ys hx hy = hy
  All-append R (x ∷ xs) ys (h, hx) hy = (h, All-append R xs ys hx hy)

  request-Allowed : (id : String) (c : Call T) → IsRequestCall c → Allowed pf (IsBlocked id) c
  unfolding assign_all bind_assignment
  request-Allowed id (update_metrics key_id b latency now) h = tt
  request-Allowed id (cool_model key_id model seconds now) h = tt
  request-Allowed id (flag key_id seconds now) h = tt
  request-Allowed id (set_status key_id blocked now) h = λ r same keeps e. refl
  request-Allowed id (read_keys threshold provider now) h = tt
  request-Allowed id (cool_plain key_id model seconds now later) h = absurd h
  request-Allowed id (add provider text uuid now) h = absurd h
  request-Allowed id (delete ids) h = absurd h
  request-Allowed id (delete_blocked provider) h = absurd h
  request-Allowed id (set_status key_id active now) h = absurd h
  request-Allowed id (clean_up answer threshold now provider) h = absurd h

  All-Allowed :
      (id : String) (cs : List (Call T)) → All IsRequestCall cs → All (Allowed pf (IsBlocked id)) cs
  All-Allowed id [] h = tt
  All-Allowed id (c ∷ cs) (h, hs) = (request-Allowed id c h, All-Allowed id cs hs)

  module _ {F : Type 0} (bodies : BodyJson) (answers : AnswerJson F)
      (body_model : String → Option String) (settings : Settings) where
    -- The storage after requests one behind the other.
    unfoldable pub run_requests : List Request → World S C P → World S C P
    unfolding forward
    run_requests [] w = w
    run_requests (r ∷ rs) w =
        run_requests rs
          (forward pf google bodies answers body_model settings r.turn r.now r.later r.authorization
            r.incoming w).1

    requests-run_calls :
        (rs : List Request) (w : World S C P)
        → (cs : List (Call T)) × All IsRequestCall cs
          × (run_requests rs w ≡ run_calls pf google cs w)
    unfolding run_requests run_calls
    requests-run_calls [] w = ([], tt, refl)
    requests-run_calls (r ∷ rs) w =
        let (cs, asked, e) =
          forward-run_calls pf google bodies answers body_model settings r.turn r.now r.later
            r.authorization r.incoming w in
        let (ds, asked', e') =
          requests-run_calls rs
            (forward pf google bodies answers body_model settings r.turn r.now r.later
              r.authorization r.incoming w).1 in
        (
          cs ++ ds,
          All-append IsRequestCall cs ds asked asked',
          e' ∙ ap (run_calls pf google ds) e ∙ sym (run_calls-append cs ds w),
        )

    -- When the blocking of a key succeeds, then no later list of its owner gives that key, whatever
    -- requests are forwarded between, with their background tasks, and whatever they come to.
    pub requests-blocked :
        (db : LawfulDb pf) (cache : LawfulCache pf) (owner id : String) (now : ℤ) (w : World S C P)
        (rs : List Request) (threshold : ℤ) (later : ℕ) (ks : List ApiKey)
        → IsOwned pf db cache owner id w
        → (update_status pf id blocked now w).0 ≡ ok tt
        → (get_healthy_sorted_keys_via_cache pf threshold owner later
            (run_requests rs (update_status pf id blocked now w).1)).0
          ≡ ok ks
        → All (λ k. k.id ≢ id) ks
    requests-blocked db cache owner id now w rs threshold later ks owned e read =
        let (cs, asked, same) = requests-run_calls rs (update_status pf id blocked now w).1 in
        blocked_stays_out pf db cache owner id google now w cs threshold later ks owned e
          (All-Allowed id cs asked)
          (subst (λ v. (get_healthy_sorted_keys_via_cache pf threshold owner later v).0 ≡ ok ks)
            same read)
