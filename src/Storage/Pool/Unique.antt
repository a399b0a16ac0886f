-- ===== src/Storage/Pool/Unique.antt =====
-- No provider holds the same key twice.
use mathlib.Core.Path.{subst}
use mathlib.Core.List.{append_assoc, append-nil}
use thebalance.Prelude.{
  ℕ, zero, suc, ◌≡◌, refl, sym, ap, ◌∙◌, inl, inr, String, Bool, true, false, not, ◌&&◌, ◌||◌, List,
  [], ◌∷◌, ◌++◌, map, filter, All, str_eq, eq_iff, arith, take, Bool-cases,
}
use thebalance.Prelude.Assoc.{mem, dedup, HasNone}
use thebalance.Prelude.Text.{is_empty_text, trim, split}
use thebalance.Errors.{GoogleJson}
use thebalance.Storage.Model.{ApiKeyStatus}
use thebalance.Storage.Admin.{parse_keys, new_keys, is_separator}
use thebalance.Storage.Platform.{World, Platform}
use thebalance.Storage.Platform.Lawful.{LawfulDb}
use thebalance.Storage.Invariant.History.{
  Call, update_metrics, cool_model, cool_plain, flag, add, delete, delete_blocked, set_status,
  read_keys, clean_up, run_calls,
}
use thebalance.Storage.Pool.{Entry, keys_of, fresh, remove, set_entry, step}
use thebalance.Storage.Pool.Statements.{pool}
use thebalance.Storage.Pool.Failures.{Leaves, run_call-Leaves}

str_eq_comm : (a b : String) → str_eq a b ≡ str_eq b a
str_eq_comm a b = ground (arith, eq_iff a b, eq_iff b a)

-- The provider has the key.
unfoldable pub has : String → String → List Entry → Bool
has provider key [] = false
has provider key (e ∷ es) = (str_eq e.provider provider && str_eq e.key key) || has provider key es

-- No two entries have the same provider and key.
abbrev pub IsUnique : List Entry → Type 0
IsUnique [] = Unit
IsUnique (e ∷ es) = (has e.provider e.key es ≡ false) × IsUnique es

has-filter :
    (test : Entry → Bool) (provider key : String) (es : List Entry)
    → has provider key es ≡ false
    → has provider key (filter test es) ≡ false
unfolding has filter
has-filter test provider key [] h = refl
has-filter test provider key (e ∷ es) h = ground (arith, has-filter test provider key es)

IsUnique-filter : (test : Entry → Bool) (es : List Entry) → IsUnique es → IsUnique (filter test es)
unfolding filter
IsUnique-filter test [] u = tt
IsUnique-filter test (e ∷ es) u = elim (Bool-cases (test e)) [
  | inl keep ↦ rw keep (has-filter test e.provider e.key es u.0, IsUnique-filter test es u.1)
  | inr drop ↦ rw drop (IsUnique-filter test es u.1)
]

set_entry_names :
    (id : String) (s : ApiKeyStatus) (e : Entry)
    → ((set_entry id s e).provider ≡ e.provider) × ((set_entry id s e).key ≡ e.key)
unfolding set_entry
set_entry_names id s e = elim (Bool-cases (str_eq e.id id)) [
  | inl same ↦ rw same (refl, refl)
  | inr other ↦ rw other (refl, refl)
]

has-set_entry :
    (id : String) (s : ApiKeyStatus) (provider key : String) (es : List Entry)
    → has provider key (map (set_entry id s) es) ≡ has provider key es
unfolding has
has-set_entry id s provider key [] = refl
has-set_entry id s provider key (e ∷ es) =
    let (same_provider, same_key) = set_entry_names id s e in
    cc (same_provider, same_key, has-set_entry id s provider key es)

IsUnique-set_entry :
    (id : String) (s : ApiKeyStatus) (es : List Entry)
    → IsUnique es
    → IsUnique (map (set_entry id s) es)
IsUnique-set_entry id s [] u = tt
IsUnique-set_entry id s (e ∷ es) u =
    let (same_provider, same_key) = set_entry_names id s e in
    (
      rw (same_provider, same_key) (has-set_entry id s e.provider e.key es ∙ u.0),
      IsUnique-set_entry id s es u.1,
    )

has-append :
    (provider key : String) (es : List Entry) (e : Entry)
    → has provider key es ≡ false
    → (str_eq e.provider provider && str_eq e.key key) ≡ false
    → has provider key (es ++ e ∷ []) ≡ false
unfolding has
has-append provider key [] e h other = ground (arith, other)
has-append provider key (x ∷ es) e h other = ground (arith, has-append provider key es e, other)

IsUnique-append :
    (es : List Entry) (e : Entry)
    → IsUnique es
    → has e.provider e.key es ≡ false
    → IsUnique (es ++ e ∷ [])
unfolding has
IsUnique-append [] e u h = (refl, tt)
IsUnique-append (x ∷ es) e u h = (
  has-append x.provider x.key es e u.0
      (rw (str_eq_comm e.provider x.provider, str_eq_comm e.key x.key) (ground (arith, h))),
  IsUnique-append es e u.1 (ground (arith, h)),
)

-- Other keys than that of an added entry stay new.
still_new :
    (provider : String) (before : List Entry) (e : Entry) (keys : List String)
    → mem e.key keys ≡ false
    → All (λ key. has provider key before ≡ false) keys
    → All (λ key. has provider key (before ++ e ∷ []) ≡ false) keys
unfolding mem
still_new provider before e [] other new = tt
still_new provider before e (key ∷ keys) other new = (
  has-append provider key before e new.0 (rw (str_eq_comm e.key key) (ground (arith, other))),
  still_new provider before e keys (ground (arith, other)) new.1,
)

IsUnique-fresh :
    (provider : String) (uuid : ℕ → String) (start n : ℕ) (keys : List String) (before : List Entry)
    → IsUnique before
    → HasNone keys
    → All (λ key. has provider key before ≡ false) keys
    → IsUnique (before ++ take n (fresh provider uuid start keys))
unfolding fresh
IsUnique-fresh provider uuid start zero keys before u d new = rw (append-nil before) u
IsUnique-fresh provider uuid start (suc n) [] before u d new = rw (append-nil before) u
IsUnique-fresh provider uuid start (suc n) (key ∷ keys) before u d new =
    let e : Entry = record { id = uuid start; key = key; provider = provider; status = "active" } in
    subst IsUnique (append_assoc before (e ∷ []) (take n (fresh provider uuid (suc start) keys))) (
      IsUnique-fresh provider uuid (suc start) n keys (before ++ e ∷ [])
        (IsUnique-append before e u new.0) d.1 (still_new provider before e keys d.0 new.1))

mem-filter :
    (test : String → Bool) (x : String) (xs : List String)
    → mem x xs ≡ false
    → mem x (filter test xs) ≡ false
unfolding mem filter
mem-filter test x [] h = refl
mem-filter test x (y ∷ ys) h = ground (arith, mem-filter test x ys)

HasNone-filter : (test : String → Bool) (xs : List String) → HasNone xs → HasNone (filter test xs)
unfolding filter
HasNone-filter test [] d = tt
HasNone-filter test (x ∷ xs) d = elim (Bool-cases (test x)) [
  | inl keep ↦ rw keep (mem-filter test x xs d.0, HasNone-filter test xs d.1)
  | inr drop ↦ rw drop (HasNone-filter test xs d.1)
]

mem-dedup : (x : String) (xs : List String) → mem x xs ≡ false → mem x (dedup xs) ≡ false
unfolding mem dedup
mem-dedup x [] h = refl
mem-dedup x (y ∷ ys) h = ground (arith, mem-dedup x ys)

HasNone-dedup : (xs : List String) → HasNone (dedup xs)
unfolding dedup
HasNone-dedup [] = tt
HasNone-dedup (x ∷ xs) = elim (Bool-cases (mem x xs)) [
  | inl again ↦ rw again (HasNone-dedup xs)
  | inr once ↦ rw once (mem-dedup x xs once, HasNone-dedup xs)
]

keys_of-has :
    (provider key : String) (es : List Entry) → mem key (keys_of provider es) ≡ has provider key es
unfolding mem keys_of filter has
keys_of-has provider key [] = refl
keys_of-has provider key (e ∷ es) = elim (Bool-cases (str_eq e.provider provider)) [
  | inl same ↦ rw same (ap (λ b. str_eq e.key key || b) (keys_of-has provider key es))
  | inr other ↦ rw other (keys_of-has provider key es)
]

new_keys-new :
    (provider : String) (before : List Entry) (keys : List String)
    → All (λ key. has provider key before ≡ false) (new_keys keys (keys_of provider before))
unfolding new_keys filter
new_keys-new provider before [] = tt
new_keys-new provider before (key ∷ keys) =
    let rest = new_keys-new provider before keys in
    elim (Bool-cases (mem key (keys_of provider before))) [
      | inl there ↦ rw there rest
      | inr new ↦ rw new (sym (keys_of-has provider key before) ∙ new, rest)
    ]

HasNone-parse_keys : (text : String) → HasNone (parse_keys text)
unfolding parse_keys
HasNone-parse_keys text =
    HasNone-dedup (filter (λ s. not (is_empty_text s)) (map trim (split is_separator text)))

HasNone-new_keys : (keys existing : List String) → HasNone keys → HasNone (new_keys keys existing)
unfolding new_keys
HasNone-new_keys keys existing = HasNone-filter (λ key. not (mem key existing)) keys

All-members :
    (Q : String → Type 0) (ys : List String) → ((y : String) → mem y ys ≡ true → Q y) → All Q ys
unfolding mem
All-members Q [] h = tt
All-members Q (x ∷ ys) h =
    (h x (ground (arith, eq_iff x x)), All-members Q ys (λ y e. h y (ground (arith, e))))

All-member :
    (Q : String → Type 0) (xs : List String) (y : String) → All Q xs → mem y xs ≡ true → Q y
unfolding mem
All-member Q [] y all e = cc
All-member Q (x ∷ xs) y all e = elim (Bool-cases (str_eq x y)) [
  | inl same ↦ subst Q ((eq_iff x y).0 same) all.0
  | inr other ↦ All-member Q xs y all.1 (ground (arith, e))
]

module _ {S T C P : Type 0} (pf : Platform S T C P) (db : LawfulDb pf) where
  new_keys-ordered :
      (provider : String) (before : List Entry) (keys : List String)
      → All
          (λ key. has provider key before ≡ false)
          (pf.set_order (new_keys keys (keys_of provider before)))
  new_keys-ordered provider before keys =
      let new = new_keys keys (keys_of provider before) in
      let is_new = λ (key : String). has provider key before ≡ false in
      All-members is_new (pf.set_order new) λ y e.
        All-member is_new new y (new_keys-new provider before keys) (sym (db.set_members y new) ∙ e)

  Leaves-IsUnique :
      (c : Call T) (before : List Entry) (v : World S C P)
      → Leaves pf db c before v
      → IsUnique before
      → IsUnique (pool pf db v)
  unfolding step remove
  Leaves-IsUnique (add provider text uuid now) before v (n, e) u = subst IsUnique (sym e) (
      IsUnique-fresh provider uuid 0 n _ before u
        (db.set_once _
          (HasNone-new_keys (parse_keys text) (keys_of provider before) (HasNone-parse_keys text)))
        (new_keys-ordered provider before (parse_keys text)))
  Leaves-IsUnique (delete ids) before v (inl e) u =
      subst IsUnique (sym e) (IsUnique-filter _ before u)
  Leaves-IsUnique (delete ids) before v (inr e) u = subst IsUnique (sym e) u
  Leaves-IsUnique (delete_blocked provider) before v (inl e) u =
      subst IsUnique (sym e) (IsUnique-filter _ before u)
  Leaves-IsUnique (delete_blocked provider) before v (inr e) u = subst IsUnique (sym e) u
  Leaves-IsUnique (set_status id s now) before v (inl e) u =
      subst IsUnique (sym e) (IsUnique-set_entry id s before u)
  Leaves-IsUnique (set_status id s now) before v (inr e) u = subst IsUnique (sym e) u
  Leaves-IsUnique (update_metrics id b latency now) before v e u = subst IsUnique (sym e) u
  Leaves-IsUnique (cool_model id model seconds now) before v e u = subst IsUnique (sym e) u
  Leaves-IsUnique (cool_plain id model seconds now later) before v e u = subst IsUnique (sym e) u
  Leaves-IsUnique (flag id seconds now) before v e u = subst IsUnique (sym e) u
  Leaves-IsUnique (read_keys threshold provider now) before v e u = subst IsUnique (sym e) u
  Leaves-IsUnique (clean_up answer threshold now provider) before v e u = subst IsUnique (sym e) u

  -- In a table where no provider holds a key twice, none ever will: whatever calls are made in
  -- whatever order, failing or not, and whatever text is pasted, with repetitions or with keys that
  -- are there already.
  pub run_calls-IsUnique :
      (google : GoogleJson) (cs : List (Call T)) (w : World S C P)
      → IsUnique (pool pf db w)
      → IsUnique (pool pf db (run_calls pf google cs w))
  unfolding run_calls
  run_calls-IsUnique google [] w u = u
  run_calls-IsUnique google (c ∷ cs) w u =
      run_calls-IsUnique google cs _ (Leaves-IsUnique c _ _ (run_call-Leaves pf db google c w) u)
