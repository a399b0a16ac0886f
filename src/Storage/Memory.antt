-- ===== src/Storage/Memory.antt =====
-- A platform in memory that meets what `Lawful` asks: the instance at which the theorems are run.
use mathlib.Core.Path.{subst}
use thebalance.Prelude.{
  ℕ, ◌+◌, ◌<◌, ◌≡◌, refl, sym, ◌⊎◌, inl, inr, String, Bool, true, false, not, ◌&&◌, ◌||◌, Option,
  none, some, List, [], ◌∷◌, ◌++◌, map, filter, arith, ltb, str_eq, eq_iff, if◌then◌else◌,
  Bool-cases,
}
use thebalance.Prelude.Int.{ℤ, pos, negsuc}
use thebalance.Prelude.Assoc.{Assoc}
use thebalance.Prelude.Result.{Result, ok}
use thebalance.Storage.Model.{Key, ApiKey, ModelCooling, StorageError, CoolingsJson}
use thebalance.Storage.Platform.{Platform}
use thebalance.Storage.Platform.Sql.{matches, update_row}
use thebalance.Storage.Ensures.{ok-injective}
use thebalance.Storage.Platform.Lawful.{IsFirstOf, LawfulDb, LawfulCache}

-- A column's JSON: nothing, an object of objects, or an object of numbers.
pub data Column : Type 0 where
  blank : Column
  coolings : Assoc ModelCooling → Column
  ends : Assoc ℤ → Column

abbrev unsigned : Assoc ℤ → Option (Assoc ℕ)
unsigned [] = some []
unsigned ((k, negsuc n) ∷ m) = none
unsigned ((k, pos n) ∷ m) = elim (unsigned m) [ none ↦ none | some r ↦ some ((k, n) ∷ r) ]

abbrev parse_coolings : Column → Option (Assoc ModelCooling)
parse_coolings blank = none
parse_coolings (coolings m) = some m
parse_coolings (ends []) = some []
parse_coolings (ends (e ∷ m)) = none

abbrev parse_signed : Column → Option (Assoc ℤ)
parse_signed blank = none
parse_signed (coolings []) = some []
parse_signed (coolings (c ∷ m)) = none
parse_signed (ends m) = some m

abbrev parse_unsigned : Option (Assoc ℤ) → Option (Assoc ℕ)
parse_unsigned none = none
parse_unsigned (some m) = unsigned m

abbrev is_blank : Column → Bool
is_blank blank = true
is_blank (coolings m) = false
is_blank (ends m) = false

abbrev pub column_json : CoolingsJson Column
column_json = record {
  is_empty_or_null = is_blank;
  empty_object = coolings [];
  parse_coolings = parse_coolings;
  parse_ends = λ t. parse_unsigned (parse_signed t);
  parse_signed_ends = parse_signed;
  print_coolings = coolings;
  print_ends = ends;
}

abbrev pub Table : Type 0
Table = List (Key Column)

abbrev pub Entries : Type 0
Entries = List (String × (List ApiKey × ℕ))

abbrev pub Penalties : Type 0
Penalties = List (String × ℕ)

abbrev first_of : {A : Type 0} → List A → Option A
first_of [] = none
first_of (x ∷ xs) = some x

cache_get : String → ℕ → Entries → Option (List ApiKey)
cache_get p now [] = none
cache_get p now ((q, (ks, at)) ∷ c) =
    let rest = cache_get p now c in
    if str_eq q p then (if ltb now (at + 60) then some ks else none) else rest

cache_invalidate : String → Entries → Entries
cache_invalidate p [] = []
cache_invalidate p ((q, e) ∷ c) =
    let rest = cache_invalidate p c in if str_eq q p then rest else (q, e) ∷ rest

penalized : String → ℕ → Penalties → Bool
penalized id now [] = false
penalized id now ((j, end) ∷ ps) = (str_eq j id && ltb now end) || penalized id now ps

unfoldable pub memory : Platform Table Column Entries Penalties
unfolding cache_get cache_invalidate penalized matches update_row filter
memory = record {
  json = column_json;
  all = λ q s. (ok (filter (matches q.conditions) s), s);
  first = λ cs s. (ok (first_of (filter (matches cs) s)), s);
  run_insert = λ k s. (ok tt, s ++ k ∷ []);
  run_update = λ cs assignments s. (ok tt, map (update_row cs assignments) s);
  run_delete = λ cs s. (ok tt, filter (λ k. not (matches cs k)) s);
  cache_get = cache_get;
  cache_insert = λ p ks now c. (p, (ks, now)) ∷ c;
  cache_invalidate = cache_invalidate;
  set_order = λ keys. keys;
  cooldown_contains = penalized;
  cooldown_insert_with_ttl = λ id ttl now ps. (id, now + ttl) ∷ ps;
}

first_of-IsFirstOf : {A : Type 0} (xs : List A) → IsFirstOf (first_of xs) xs
first_of-IsFirstOf [] = refl
first_of-IsFirstOf (x ∷ xs) = ([], xs, refl)

pub first_ok :
    {A : Type 0} (xs : List A) (o : Option A)
    → ◌≡◌ {A = Result StorageError (Option A)} (ok (first_of xs)) (ok o)
    → IsFirstOf o xs
first_ok xs o e =
    subst (λ o'. IsFirstOf o' xs) (ok-injective (first_of xs) o e) (first_of-IsFirstOf xs)

unfoldable pub memory_db : LawfulDb memory
unfolding memory
memory_db = record {
  set_members = λ x xs. refl;
  set_once = λ xs once. once;
  rows = λ s. s;
  all_rows = λ q s. refl;
  all_ok = λ cs s ks e. sym (ok-injective _ ks e);
  first_rows = λ cs s. refl;
  first_ok = λ cs s found e. first_ok (filter (matches cs) s) found e;
  insert_lem = λ k s. refl;
  update_lem = λ cs assignments s. refl;
  delete_lem = λ cs s. refl;
}

get-invalidate :
    (p : String) (now : ℕ) (c : Entries) → cache_get p now (cache_invalidate p c) ≡ none
unfolding cache_get cache_invalidate
get-invalidate p now [] = refl
get-invalidate p now ((q, e) ∷ c) = ground (arith, get-invalidate p now c)

invalidate_other :
    (p q : String) (now : ℕ) (c : Entries) (ks : List ApiKey)
    → cache_get q now (cache_invalidate p c) ≡ some ks
    → cache_get q now c ≡ some ks
unfolding cache_get cache_invalidate
invalidate_other p q now [] ks e = e
invalidate_other p q now ((r, x) ∷ c) ks e =
    ground (arith, invalidate_other p q now c ks, eq_iff r p, eq_iff r q, get-invalidate p now c)

get-insert :
    (p q : String) (now later : ℕ) (c : Entries) (ks js : List ApiKey)
    → cache_get q later ((p, (ks, now)) ∷ c) ≡ some js
    → ((p ≡ q) × (js ≡ ks) × (later < now + 60)) ⊎ (cache_get q later c ≡ some js)
unfolding cache_get
get-insert p q now later c ks js e = elim (Bool-cases (str_eq p q)) [
  | inl same ↦ inl (ground (arith, eq_iff p q))
  | inr other ↦ inr (ground arith)
]

pub memory_cache : LawfulCache memory
unfolding memory cache_get
memory_cache = record {
  get-invalidate = get-invalidate;
  invalidate_other = invalidate_other;
  get-insert = get-insert;
}
