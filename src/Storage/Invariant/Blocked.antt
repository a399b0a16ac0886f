-- ===== src/Storage/Invariant/Blocked.antt =====
-- A key that update_status has blocked, through whatever the storage functions do next.
use mathlib.Core.Path.{subst}
use thebalance.Prelude.{
  ℕ, ◌≡◌, ◌≢◌, refl, sym, inl, inr, String, Bool, true, false, Option, none, some, List, [], ◌∷◌,
  ◌++◌, map, All, arith, eq_iff, str_eq, filter, All-filter, Bool-cases, ◌&&◌,
}
use thebalance.Prelude.Int.{ℤ}
use thebalance.Prelude.Assoc.{mem}
use thebalance.Prelude.Result.{ok}
use thebalance.Errors.{GoogleJson}
use thebalance.Storage.Model.{Key, ApiKey, blocked, db_key_to_api_key}
use thebalance.Storage.Metrics.{metrics_update}
use thebalance.Storage.Cooldowns.{cooldown_update}
use thebalance.Storage.Reads.{get_healthy_sorted_keys_via_cache}
use thebalance.Storage.Admin
use thebalance.Storage.Admin.{update_status, status_text}
use thebalance.Storage.Platform.{World, Platform, exec_first, exec_update, invalidate}
use thebalance.Storage.Platform.Binding.{id_is, status, updated_at, bind_condition, bind_assignment}
use thebalance.Storage.Platform.Sql.{matches, holds, assign_all, update_row}
use thebalance.Storage.Platform.Lawful.{LawfulDb, LawfulCache, IsFirstOf, written-ok}
use thebalance.Storage.Ensures.{bind-ok}
use thebalance.Storage.Invariant.{Guarded}
use thebalance.Storage.Invariant.Rules.{Rules}
use thebalance.Storage.Invariant.Operations.{Ensures-via_cache}
use thebalance.Storage.Invariant.Statements.{All-middle, All-keep}
use thebalance.Storage.Invariant.History.{Call, Allowed, run_calls, run_calls-Guarded}

-- The row is blocked, if it is a row of that key.
abbrev pub IsBlocked : {T : Type 0} → String → Key T → Type 0
IsBlocked id k = k.id ≡ id → k.status ≡ "blocked"

-- It is another key, if it serves for the provider `owner`.
abbrev IsOther : String → String → String → ApiKey → Type 0
IsOther owner id provider k = provider ≡ owner → k.id ≢ id

blocked_unselected :
    (word : String) → word ≡ "blocked" → (p : Bool) → p && (str_eq word "active" && true) ≡ true → ⊥
blocked_unselected word e false m = cc
blocked_unselected word e true m = let f = subst (λ v. str_eq v "active" && true ≡ true) e m in cc

same_text : (a b : String) → str_eq a b ≡ true → a ≡ b
same_text a b e = ground (arith, eq_iff a b)

All-weaken :
    {A : Type 0} {Q R : A → Type 0} → ((x : A) → Q x → R x) → (xs : List A) → All Q xs → All R xs
All-weaken f [] h = tt
All-weaken f (x ∷ xs) h = (f x h.0, All-weaken f xs h.1)

All-each : {A : Type 0} {Q : A → Type 0} → ((x : A) → Q x) → (xs : List A) → All Q xs
All-each q [] = tt
All-each q (x ∷ xs) = (q x, All-each q xs)

module _ {T : Type 0} where
  update-IsBlocked :
      (id : String) (now : ℤ) (rows : List (Key T))
      → All (IsBlocked id) (
          map
            (update_row
              (id_is id ∷ [])
              (map bind_assignment (status (status_text blocked) ∷ updated_at now ∷ [])))
            rows)
  unfolding update_row matches holds assign_all bind_assignment
  update-IsBlocked id now [] = tt
  update-IsBlocked id now (k ∷ rows) = (
    elim (Bool-cases (str_eq k.id id)) [
      | inl same ↦ rw same (λ x. refl)
      | inr other ↦ rw other (λ x. absurd (ground (arith, eq_iff k.id id)))
    ],
    update-IsBlocked id now rows,
  )

  ids-filter :
      (id : String) (rows : List (Key T))
      → mem id (map (λ k. k.id) rows) ≡ true
      → filter (matches (id_is id ∷ [])) rows ≢ []
  unfolding mem filter matches holds
  ids-filter id [] e = λ f. cc
  ids-filter id (k ∷ rows) e = elim (Bool-cases (str_eq k.id id)) [
    | inl same ↦ rw same (λ f. cc)
    | inr other ↦ rw other (ids-filter id rows (ground (arith, other)))
  ]

module _ {S T C P : Type 0} (pf : Platform S T C P) where
  IsBlocked-rules : (owner id : String) → Rules pf (IsBlocked id) (IsOther owner id)
  unfolding assign_all bind_assignment cooldown_update metrics_update matches holds bind_condition
      db_key_to_api_key
  IsBlocked-rules owner id = record {
    metrics = λ b latency now k r v u e. u e;
    cooling = λ k r coolings model now duration_secs u e. u e;
    ends = λ k r model duration_secs now later u e. u e;
    serves = λ provider k u m p e. blocked_unselected k.status (u e) (str_eq k.provider provider) m;
  }

  module _ (db : LawfulDb pf) (cache : LawfulCache pf) (owner id : String) where
    abbrev Out : World S C P → Type 0
    Out w = Guarded pf db (IsBlocked id) (IsOther owner id) w

    -- The rows of the key are there, and they are its owner's.
    abbrev pub IsOwned : World S C P → Type 0
    IsOwned w =
        (mem id (map (λ k. k.id) (db.rows w.db)) ≡ true)
        × All (λ k. k.id ≡ id → k.provider ≡ owner) (db.rows w.db)

    owner_of :
        (rows : List (Key T)) (k : Key T) (before after : List (Key T))
        → filter (matches (id_is id ∷ [])) rows ≡ before ++ k ∷ after
        → All (λ r. r.id ≡ id → r.provider ≡ owner) rows
        → k.provider ≡ owner
    unfolding matches holds
    owner_of rows k before after e owned =
        let same =
          All-middle (λ r. str_eq r.id id && true ≡ true) before after k
            (subst (All (λ r. str_eq r.id id && true ≡ true)) e
              (All-filter (matches (id_is id ∷ [])) rows)) in
        All-middle (λ r. r.id ≡ id → r.provider ≡ owner) before after k
          (subst (All (λ r. r.id ≡ id → r.provider ≡ owner)) e (All-keep _ _ rows owned))
          (ground (arith, eq_iff k.id id))

    forgets :
        (w : World S C P) (provider : String) (later : ℕ)
        → provider ≡ owner
        → pf.cache_get owner later (invalidate pf provider w).1.api_key_cache ≡ none
    unfolding invalidate
    forgets w provider later e =
        subst (λ p. pf.cache_get p later (pf.cache_invalidate provider w.api_key_cache) ≡ none) e
          (cache.get-invalidate provider later w.api_key_cache)

    update-Out :
        (now : ℤ) (w : World S C P)
        → ((later : ℕ) → pf.cache_get owner later w.api_key_cache ≡ none)
        → (exec_update pf (id_is id ∷ []) (status (status_text blocked) ∷ updated_at now ∷ []) w).0
          ≡ ok tt
        → Out
            (exec_update pf
              (id_is id ∷ [])
              (status (status_text blocked) ∷ updated_at now ∷ [])
              w).1
    unfolding exec_update bind_condition
    update-Out now w forgotten e = record {
      valid_rows =
          subst (All (IsBlocked id)) (sym (written-ok _ _ _ _ (db.update_lem _ _ w.db) e))
            (update-IsBlocked id now (db.rows w.db));
      sound_cache = λ provider later ks hit. elim (Bool-cases (str_eq provider owner)) [
        | inl same ↦
            let gone =
              subst (λ p. pf.cache_get p later w.api_key_cache ≡ none)
                (sym (same_text provider owner same)) (forgotten later) in
            cc
        | inr other ↦ All-each (λ k p. absurd (ground (arith, eq_iff provider owner))) ks
      ];
    }

    found-Out :
        (now : ℤ) (w v : World S C P) (found : Option (Key T))
        → IsOwned w
        → IsFirstOf found (filter (matches (id_is id ∷ [])) (db.rows w.db))
        → (Admin.update_found pf id blocked now found v).0 ≡ ok tt
        → Out (Admin.update_found pf id blocked now found v).1
    found-Out now w v none owned first e = absurd (ids-filter id (db.rows w.db) owned.0 first)
    found-Out now w v (some k) owned (before, after, first) e =
        let (u, e1, e2, e3) =
          bind-ok (invalidate pf k.provider)
            (λ _.
              exec_update pf (id_is id ∷ []) (status (status_text blocked) ∷ updated_at now ∷ []))
            v tt e in
        subst Out (sym e3) (
          update-Out now _
            (λ later.
              forgets v k.provider later (owner_of (db.rows w.db) k before after first owned.1))
            e2)

    -- A key that has been blocked is out.
    blocked-Out :
        (now : ℤ) (w : World S C P)
        → IsOwned w
        → (update_status pf id blocked now w).0 ≡ ok tt
        → Out (update_status pf id blocked now w).1
    unfolding update_status exec_first bind_condition
    blocked-Out now w owned e =
        let (found, e1, e2, e3) =
          bind-ok (exec_first pf (id_is id ∷ [])) (Admin.update_found pf id blocked now) w tt e in
        subst Out (sym e3)
          (found-Out now w _ found owned (db.first_ok (id_is id ∷ []) w.db found e1) e2)

    -- When the blocking of a key succeeds, then whatever storage calls follow in whatever order,
    -- failing or not, no later read of its owner's list gives that key, from the cache or from the
    -- database; as long as no call sets its status back to active or draws its id for a new row.
    pub blocked_stays_out :
        (google : GoogleJson) (now : ℤ) (w : World S C P) (cs : List (Call T)) (threshold : ℤ)
        (later : ℕ) (ks : List ApiKey)
        → IsOwned w
        → (update_status pf id blocked now w).0 ≡ ok tt
        → All (Allowed pf (IsBlocked id)) cs
        → (get_healthy_sorted_keys_via_cache pf threshold owner later
            (run_calls pf google cs (update_status pf id blocked now w).1)).0
          ≡ ok ks
        → All (λ k. k.id ≢ id) ks
    blocked_stays_out google now w cs threshold later ks owned e allowed read =
        let behind =
          run_calls-Guarded pf google db cache (IsBlocked-rules owner id) cs _ allowed
            (blocked-Out now w owned e) in
        All-weaken (λ k other. other refl) ks
          ((Ensures-via_cache pf db (IsBlocked-rules owner id) cache threshold owner later).gives _
            behind ks read)
