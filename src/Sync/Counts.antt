-- ===== src/Sync/Counts.antt =====
-- What the command sends and counts.
use mathlib.Core.Path.{subst}
use mathlib.Core.Logic.{∥∥₁_elim}
use native.Mathlib.Nat.{ℕ_set}
use mathlib.Core.List.{append-nil, append_assoc, Perm, Permᴰ}
use mathlib.Core.List.Perm
use thebalance.Prelude.{
  ℕ, suc, ◌+◌, ◌≡◌, refl, sym, ap, ◌∙◌, inl, inr, String, Bool, true, false, Option, some, List, [],
  ◌∷◌, ◌++◌, map, filter, length, length-append, str_eq, eq_iff, arith, ◌==◌, ◌&&◌, ◌||◌, leb, ltb,
  Bool-cases, if◌then◌else◌,
}
use thebalance.Prelude.Assoc.{Assoc, lookup, insert}
use thebalance.Prelude.Result.{Result, ok, err}
use thebalance.Sync.{
  FormAnswer, SourceKey, SyncResult, TheOneTarget, FormPost, list_or_empty, push_key, group_keys,
  form_post, accepted, no_result, counted, or_stop, go_on, send_groups, sync_keys,
}

-- The keys in all groups.
abbrev total : Assoc (List String) → ℕ
total [] = 0
total ((provider, key_list) ∷ groups) = length key_list + total groups

total-Permᴰ : {gs hs : Assoc (List String)} → Permᴰ gs hs → total gs ≡ total hs
total-Permᴰ Permᴰ.nil = refl
total-Permᴰ (Permᴰ.cons e p) = omega (arith, ap (λ x. length x.1) e, total-Permᴰ p)
total-Permᴰ (Permᴰ.swap e e') = omega (arith, ap (λ x. length x.1) e, ap (λ x. length x.1) e')
total-Permᴰ (Permᴰ.trans p q) = total-Permᴰ p ∙ total-Permᴰ q

total-Perm : {gs hs : Assoc (List String)} → Perm gs hs → total gs ≡ total hs
total-Perm p = ∥∥₁_elim p (ℕ_set _ _) total-Permᴰ

total-insert :
    (provider : String) (key_list : List String) (groups : Assoc (List String))
    → total (insert provider key_list groups) + length (list_or_empty (lookup provider groups))
      ≡ total groups + length key_list
unfolding insert lookup
total-insert provider key_list [] = omega arith
total-insert provider key_list ((p, ks) ∷ groups) =
    let rest = total-insert provider key_list groups in
    elim (Bool-cases (str_eq p provider)) [
      | inl same ↦ rw same (omega arith)
      | inr other ↦ rw other (omega (arith, rest))
    ]

total-push_key :
    (k : SourceKey) (groups : Assoc (List String)) → total (push_key k groups) ≡ suc (total groups)
unfolding push_key
total-push_key k groups =
    let before = list_or_empty (lookup k.provider groups) in
    omega (
      arith,
      total-insert k.provider (before ++ k.key ∷ []) groups,
      length-append before (k.key ∷ []),
    )

total-group_keys :
    (keys : List SourceKey) (groups : Assoc (List String))
    → total (group_keys keys groups) ≡ length keys + total groups
unfolding group_keys
total-group_keys [] groups = omega arith
total-group_keys (k ∷ ks) groups =
    omega (arith, total-group_keys ks (push_key k groups), total-push_key k groups)

-- The keys of a provider, in their order.
abbrev pub keys_for : String → List SourceKey → List String
keys_for provider keys = map (λ k. k.key) (filter (λ k. str_eq k.provider provider) keys)

same_entry :
    (name provider : String) (key_list : List String) (p : String) (ks : List String)
    (behind : Option (List String))
    → str_eq p provider ≡ true
    → (if str_eq provider name then some key_list else behind) ≡ (
        if str_eq provider name then some key_list else (if str_eq p name then some ks else behind))
same_entry name provider key_list p ks behind same =
    ground (arith, eq_iff p provider, eq_iff p name, eq_iff provider name)

other_entry :
    (name provider : String) (key_list : List String) (p : String) (ks : List String)
    (behind : Option (List String))
    → str_eq p provider ≡ false
    → (if str_eq p name then some ks else (if str_eq provider name then some key_list else behind))
      ≡ (if str_eq provider name
          then some key_list
          else (if str_eq p name then some ks else behind))
other_entry name provider key_list p ks behind other =
    ground (arith, eq_iff p provider, eq_iff p name, eq_iff provider name)

lookup-insert :
    (name provider : String) (key_list : List String) (groups : Assoc (List String))
    → lookup name (insert provider key_list groups)
      ≡ (if str_eq provider name then some key_list else lookup name groups)
unfolding lookup insert
lookup-insert name provider key_list [] = refl
lookup-insert name provider key_list ((p, ks) ∷ groups) =
    let rest = lookup-insert name provider key_list groups in
    elim (Bool-cases (str_eq p provider)) [
      | inl same ↦ rw same (same_entry name provider key_list p ks (lookup name groups) same)
      | inr other ↦
          rw (other, rest) (other_entry name provider key_list p ks (lookup name groups) other)
    ]

-- The counts of a step.
abbrev Counts : SyncResult → ℕ → SyncResult → Type 0
Counts r n r' = r'.synced_count + r'.failed_count ≡ r.synced_count + r.failed_count + n

ok_eq : (a b : SyncResult) → ◌≡◌ {A = Result String SyncResult} (ok a) (ok b) → a ≡ b
ok_eq a b e = cc

counted-Counts :
    (r : SyncResult) (provider : String) (key_list : List String) (status : ℕ) (displayed : String)
    (body : Result String String) (r' : SyncResult)
    → counted r provider key_list (status, displayed, body) ≡ ok r'
    → Counts r (length key_list) r'
unfolding counted
counted-Counts r provider key_list status displayed (ok text) r' =
    elim (Bool-cases (accepted status)) [
      | inl taken ↦
          rw taken
            (λ done. let e = ok_eq _ r' done in subst (Counts r (length key_list)) e (omega arith))
      | inr refused ↦
          rw refused
            (λ done. let e = ok_eq _ r' done in subst (Counts r (length key_list)) e (omega arith))
    ]
counted-Counts r provider key_list status displayed (err x) r' =
    elim (Bool-cases (accepted status)) [
      | inl taken ↦
          rw taken
            (λ done. let e = ok_eq _ r' done in subst (Counts r (length key_list)) e (omega arith))
      | inr refused ↦ rw refused (λ done. cc)
    ]

or_stop-Counts :
    (r : SyncResult) (provider : String) (key_list : List String)
    (sent : Result String (FormAnswer)) (r' : SyncResult)
    → or_stop r provider key_list sent ≡ ok r'
    → Counts r (length key_list) r'
or_stop-Counts r provider key_list (err e) r' done = cc
or_stop-Counts r provider key_list (ok (status, displayed, body)) r' done =
    counted-Counts r provider key_list status displayed body r' done

module _ {H : Type 0} (send : FormPost → H → Result String (FormAnswer) × H) where
  abbrev IsSum : SyncResult → ℕ → SyncResult → Type 0
  IsSum r n result = Counts r n result × (result.success ≡ (result.failed_count == 0))

  go_on-IsSum :
      (target : TheOneTarget) (groups : Assoc (List String)) (r : SyncResult) (n : ℕ)
      (step : Result String SyncResult) (h : H) (result : SyncResult)
      → ((r' : SyncResult) → step ≡ ok r' → Counts r n r')
      → ((r' : SyncResult) (h' : H)
          → (send_groups send target groups r' h').0 ≡ ok result
          → IsSum r' (total groups) result)
      → (go_on send step (send_groups send target groups) h).0 ≡ ok result
      → IsSum r (n + total groups) result
  go_on-IsSum target groups r n (err e) h result stepped rest done = cc
  go_on-IsSum target groups r n (ok r') h result stepped rest done =
      let (sum, right) = rest r' h done in (omega (arith, stepped r' refl, sum), right)

  send_groups-IsSum :
      (target : TheOneTarget) (groups : Assoc (List String)) (r : SyncResult) (h : H)
      (result : SyncResult)
      → (send_groups send target groups r h).0 ≡ ok result
      → IsSum r (total groups) result
  unfolding send_groups
  send_groups-IsSum target [] r h result done =
      subst (IsSum r 0) (ok_eq _ result done) (omega arith, refl)
  send_groups-IsSum target ((provider, key_list) ∷ groups) r h result done =
      let sent = send (form_post target provider key_list) h in
      go_on-IsSum target groups r (length key_list) (or_stop r provider key_list sent.0) sent.1
        result (λ r'. or_stop-Counts r provider key_list sent.0 r')
        (λ r' h'. send_groups-IsSum target groups r' h' result) done

lookup-push_key :
    (name : String) (k : SourceKey) (groups : Assoc (List String))
    → list_or_empty (lookup name (push_key k groups))
      ≡ list_or_empty (lookup name groups) ++ (if str_eq k.provider name then k.key ∷ [] else [])
unfolding push_key
lookup-push_key name k groups =
    let before = list_or_empty (lookup k.provider groups) in
    elim (Bool-cases (str_eq k.provider name)) [
      | inl same ↦
          let e : k.provider ≡ name = ground (arith, eq_iff k.provider name) in
          rw (lookup-insert name k.provider (before ++ k.key ∷ []) groups, same)
            (ap (λ p. list_or_empty (lookup p groups) ++ k.key ∷ []) e)
      | inr other ↦
          rw (lookup-insert name k.provider (before ++ k.key ∷ []) groups, other)
            (sym (append-nil (list_or_empty (lookup name groups))))
    ]

lookup-group_keys :
    (name : String) (keys : List SourceKey) (groups : Assoc (List String))
    → list_or_empty (lookup name (group_keys keys groups))
      ≡ list_or_empty (lookup name groups) ++ keys_for name keys
unfolding group_keys filter
lookup-group_keys name [] groups = sym (append-nil (list_or_empty (lookup name groups)))
lookup-group_keys name (k ∷ ks) groups =
    let before = list_or_empty (lookup name groups) in
    let with_own = λ (b : Bool). (before ++ (if b then k.key ∷ [] else [])) ++ keys_for name ks in
    let step =
      lookup-group_keys name ks (push_key k groups)
      ∙ ap (λ found. found ++ keys_for name ks) (lookup-push_key name k groups) in
    elim (Bool-cases (str_eq k.provider name)) [
      | inl same ↦
          rw same (step ∙ ap with_own same ∙ append_assoc before (k.key ∷ []) (keys_for name ks))
      | inr other ↦
          rw other
            (step ∙ ap with_own other ∙ ap (λ xs. xs ++ keys_for name ks) (append-nil before))
    ]

-- A post that was answered with a success or a redirection.
abbrev was_taken : Result String FormAnswer → Bool
was_taken (err e) = false
was_taken (ok (status, displayed, body)) =
    (leb 200 status && ltb status 300) || (leb 300 status && ltb status 400)

module _ {H : Type 0} (send : FormPost → H → Result String (FormAnswer) × H) where
  -- The number of keys in the groups whose post is taken, where each group is posted once, in turn.
  unfoldable pub taken : TheOneTarget → Assoc (List String) → H → ℕ
  taken target [] h = 0
  taken target ((provider, key_list) ∷ groups) h =
      let (sent, h') = send (form_post target provider key_list) h in
      (if was_taken sent then length key_list else 0) + taken target groups h'

  same_status :
      (status : ℕ)
      → accepted status ≡ ((leb 200 status && ltb status 300) || (leb 300 status && ltb status 400))
  same_status status = ground arith

  counted-taken :
      (r : SyncResult) (provider : String) (key_list : List String) (status : ℕ)
      (displayed : String) (body : Result String String) (r' : SyncResult)
      → counted r provider key_list (status, displayed, body) ≡ ok r'
      → r'.synced_count
        ≡ r.synced_count + (if was_taken (ok (status, displayed, body)) then length key_list else 0)
  unfolding counted
  counted-taken r provider key_list status displayed (ok text) r' =
      let right = λ (x : SyncResult) (n : ℕ). x.synced_count ≡ r.synced_count + n in
      elim (Bool-cases (accepted status)) [
        | inl got ↦
            rw (sym (same_status status), got)
              (λ done. subst (λ x. right x (length key_list)) (ok_eq _ r' done) refl)
        | inr refused ↦
            rw (sym (same_status status), refused)
              (λ done. subst (λ x. right x 0) (ok_eq _ r' done) (omega arith))
      ]
  counted-taken r provider key_list status displayed (err x) r' =
      let right = λ (x : SyncResult) (n : ℕ). x.synced_count ≡ r.synced_count + n in
      elim (Bool-cases (accepted status)) [
        | inl got ↦
            rw (sym (same_status status), got)
              (λ done. subst (λ x. right x (length key_list)) (ok_eq _ r' done) refl)
        | inr refused ↦ rw (sym (same_status status), refused) (λ done. cc)
      ]

  or_stop-taken :
      (r : SyncResult) (provider : String) (key_list : List String)
      (sent : Result String (FormAnswer)) (r' : SyncResult)
      → or_stop r provider key_list sent ≡ ok r'
      → r'.synced_count ≡ r.synced_count + (if was_taken sent then length key_list else 0)
  or_stop-taken r provider key_list (err e) r' done = cc
  or_stop-taken r provider key_list (ok (status, displayed, body)) r' done =
      counted-taken r provider key_list status displayed body r' done

  go_on-taken :
      (target : TheOneTarget) (groups : Assoc (List String)) (r : SyncResult) (n : ℕ) (h : H)
      (result : SyncResult) (step : Result String SyncResult)
      → ((r' : SyncResult) → step ≡ ok r' → r'.synced_count ≡ r.synced_count + n)
      → ((r' : SyncResult)
          → (send_groups send target groups r' h).0 ≡ ok result
          → result.synced_count ≡ r'.synced_count + taken target groups h)
      → (go_on send step (send_groups send target groups) h).0 ≡ ok result
      → result.synced_count ≡ r.synced_count + (n + taken target groups h)
  go_on-taken target groups r n h result (err e) stepped rest done = cc
  go_on-taken target groups r n h result (ok r') stepped rest done =
      omega (arith, stepped r' refl, rest r' done)

  send_groups-taken :
      (target : TheOneTarget) (groups : Assoc (List String)) (r : SyncResult) (h : H)
      (result : SyncResult)
      → (send_groups send target groups r h).0 ≡ ok result
      → result.synced_count ≡ r.synced_count + taken target groups h
  unfolding send_groups taken
  send_groups-taken target [] r h result done =
      subst (λ x. x.synced_count ≡ r.synced_count + 0) (ok_eq _ result done) (omega arith)
  send_groups-taken target ((provider, key_list) ∷ groups) r h result done =
      let sent = send (form_post target provider key_list) h in
      go_on-taken target groups r (if was_taken sent.0 then length key_list else 0) sent.1 result
        (or_stop r provider key_list sent.0) (or_stop-taken r provider key_list sent.0)
        (λ r'. send_groups-taken target groups r' sent.1 result) done

  -- What a run that ends counts. With the keys grouped by provider, each group holding the keys of its
  -- provider in their order, each group is posted once, in whatever order a map gives them; the synced keys are those of the
  -- groups whose post was answered with a success or a redirection, the failed ones all others, and
  -- the run succeeded if there are none of these.
  pub sync_keys-counts :
      (order : Assoc (List String) → Assoc (List String)) (target : TheOneTarget)
      (keys : List SourceKey) (h : H) (result : SyncResult) (provider : String)
      → ((groups : Assoc (List String)) → Perm (order groups) groups)
      → (sync_keys send order target keys h).0 ≡ ok result
      → (result.synced_count + result.failed_count ≡ length keys)
        × (result.success ≡ (result.failed_count == 0))
        × (result.synced_count ≡ taken target (order (group_keys keys [])) h)
        × (list_or_empty (lookup provider (group_keys keys [])) ≡ keys_for provider keys)
  unfolding sync_keys taken group_keys
  sync_keys-counts order target [] h result provider any_order done =
      let (sum, right) =
        subst (IsSum send no_result 0) (ok_eq no_result result done) (omega arith, refl) in
      let count = subst (λ x. x.synced_count ≡ 0) (ok_eq no_result result done) refl in
      let none_sent = ap (λ groups. taken target groups h) (Perm.eq-nil (any_order [])) in
      (sum, right, count ∙ sym none_sent, lookup-group_keys provider [] [])
  sync_keys-counts order target (k ∷ ks) h result provider any_order done =
      let (sum, right) =
        send_groups-IsSum send target (order (group_keys (k ∷ ks) [])) no_result h result done in
      (
        omega (
          arith,
          sum,
          total-Perm (any_order (group_keys (k ∷ ks) [])),
          total-group_keys (k ∷ ks) [],
        ),
        right,
        omega (
          arith,
          send_groups-taken target (order (group_keys (k ∷ ks) [])) no_result h result done,
        ),
        lookup-group_keys provider (k ∷ ks) [],
      )
