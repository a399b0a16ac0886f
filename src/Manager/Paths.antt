-- ===== src/Manager/Paths.antt =====
-- The paths that queue.rs builds of an id, and the id that the object reads of them.
use Prim.Native.Char.{code}
use Prim.Native.String
use Prim.Native.String.append
use Prim.Native.String.{[], ◌∷◌}
use thebalance.Prelude.{
  ℕ, ◌≡◌, refl, ap, ◌∙◌, String, Bool, true, false, ◌&&◌, ◌||◌, none, some, leb, ◌==◌, arith,
  str_eq, eq_iff, Bool-cases, inl, inr,
}
use thebalance.Prelude.Text.{strip_prefix, ends_with}
use thebalance.Prelude.Trim.{strip_suffix, trim_end_matches_text}
use thebalance.Prelude.Trim.Affixes.{
  strip_prefix-append, ends_with-append, trim_start_matches_text-append,
  trim_end_matches_text-append,
}
use thebalance.Manager
use thebalance.Manager.{Route, route, post, put, id_of}

-- A letter, a digit or a dash, as in the ids that `Uuid::new_v4` draws.
abbrev is_id_char : ℕ → Bool
is_id_char c =
    (leb b'a' c && leb c b'z')
    || (leb b'A' c && leb c b'Z')
    || (leb b'0' c && leb c b'9')
    || c == b'-'

unfoldable pub is_plain_id : String → Bool
is_plain_id [] = true
is_plain_id (c ∷ s) = is_id_char (code c) && is_plain_id s

-- Such characters and slashes: nothing that a URL would escape or leave out.
unfoldable pub is_plain_path : String → Bool
is_plain_path [] = true
is_plain_path (c ∷ s) = (is_id_char (code c) || code c == b'/') && is_plain_path s

abbrev pub key_path : String → String → String
key_path id last_part = String.◌++◌ "/keys/" (String.◌++◌ id last_part)

is_plain_path-append :
    (a b : String)
    → is_plain_path a ≡ true
    → is_plain_path b ≡ true
    → is_plain_path (String.◌++◌ a b) ≡ true
unfolding is_plain_path
is_plain_path-append [] b e f = rw (append.nil b) f
is_plain_path-append (c ∷ a) b e f =
    rw (append.cons c a b) (ground (arith, is_plain_path-append a b))

is_plain_path-id : (id : String) → is_plain_id id ≡ true → is_plain_path id ≡ true
unfolding is_plain_path is_plain_id
is_plain_path-id [] e = refl
is_plain_path-id (c ∷ id) e = ground (arith, is_plain_path-id id)

pub key_path-plain :
    (id last_part : String)
    → is_plain_id id ≡ true
    → is_plain_path last_part ≡ true
    → is_plain_path (key_path id last_part) ≡ true
unfolding is_plain_path
key_path-plain id last_part e f =
    is_plain_path-append "/keys/" (String.◌++◌ id last_part) refl
      (is_plain_path-append id last_part (is_plain_path-id id e) f)

no_slash :
    (c : ℕ) (rest : Bool) → is_id_char c && rest ≡ true → ((c == b'/') ≡ false) × (rest ≡ true)
no_slash c rest e = (ground arith, ground arith)

-- The id does not look like the affixes that are trimmed.
no_status : (id : String) → is_plain_id id ≡ true → strip_suffix id "/status" ≡ none
unfolding strip_suffix is_plain_id
no_status [] e = refl
no_status (c ∷ id) e =
    let (other, plain) = no_slash (code c) (is_plain_id id) e in rw (no_status id plain, other) refl

no_cooldown : (id : String) → is_plain_id id ≡ true → strip_suffix id "/cooldown" ≡ none
unfolding strip_suffix is_plain_id
no_cooldown [] e = refl
no_cooldown (c ∷ id) e =
    let (other, plain) = no_slash (code c) (is_plain_id id) e in
    rw (no_cooldown id plain, other) refl

no_keys :
    (id last_part : String)
    → is_plain_id id ≡ true
    → strip_prefix last_part "/keys/" ≡ none
    → strip_prefix (String.◌++◌ id last_part) "/keys/" ≡ none
unfolding strip_prefix is_plain_id
no_keys [] last_part e f = rw (append.nil last_part) f
no_keys (c ∷ id) last_part e f =
    let (other, plain) = no_slash (code c) (is_plain_id id) e in
    rw (append.cons c id last_part, other) refl

id_of-key_path :
    (id last_part : String)
    → is_plain_id id ≡ true
    → strip_prefix last_part "/keys/" ≡ none
    → strip_suffix last_part last_part ≡ some []
    → strip_suffix id last_part ≡ none
    → id_of (key_path id last_part) last_part ≡ id
unfolding id_of
id_of-key_path id last_part e first own no_more =
    ap (λ s. trim_end_matches_text s last_part)
      (trim_start_matches_text-append "/keys/" (String.◌++◌ id last_part)
        (no_keys id last_part e first))
    ∙ trim_end_matches_text-append id last_part own no_more

pub id_of-status :
    (id : String) → is_plain_id id ≡ true → id_of (key_path id "/status") "/status" ≡ id
unfolding strip_prefix strip_suffix
id_of-status id e = id_of-key_path id "/status" e refl refl (no_status id e)

pub id_of-cooldown :
    (id : String) → is_plain_id id ≡ true → id_of (key_path id "/cooldown") "/cooldown" ≡ id
unfolding strip_prefix strip_suffix
id_of-cooldown id e = id_of-key_path id "/cooldown" e refl refl (no_cooldown id e)

ends_with-key_path :
    (id last_part : String)
    → ends_with last_part last_part ≡ true
    → ends_with (key_path id last_part) last_part ≡ true
ends_with-key_path id last_part own =
    ends_with-append "/keys/" (String.◌++◌ id last_part) last_part
      (ends_with-append id last_part last_part own)

-- The path of a key is not that of all keys.
not_keys : (rest : String) → str_eq (String.◌++◌ "/keys/" rest) "/keys" ≡ false
unfolding strip_prefix
not_keys rest = elim (Bool-cases (str_eq (String.◌++◌ "/keys/" rest) "/keys")) [
  | inl same ↦
      let e =
        ap (λ s. strip_prefix s "/keys/") ((eq_iff (String.◌++◌ "/keys/" rest) "/keys").0 same) in
      let f = strip_prefix-append "/keys/" rest in cc
  | inr other ↦ other
]

pub route-status : (id : String) → route put (key_path id "/status") ≡ Manager.update_status
unfolding route ends_with
route-status id = rw (ends_with-key_path id "/status" refl) refl

pub route-cooldown : (id : String) → route post (key_path id "/cooldown") ≡ Manager.set_cooldown
unfolding route ends_with
route-cooldown id =
    rw (not_keys (String.◌++◌ id "/cooldown"), ends_with-key_path id "/cooldown" refl) refl
