-- ===== src/Sync/Arrives.antt =====
-- What the command posts, as the handler of the form of the other deployment (web.rs) reads it.
use thebalance.Prelude.{
  ℕ, ◌≡◌, refl, ap, ◌∙◌, inl, inr, String, true, false, not, List, [], ◌∷◌, map, filter, All,
  Bool-cases,
}
use thebalance.Prelude.Int.{ℤ}
use thebalance.Prelude.Text.{is_empty_text, trim, split, join}
use thebalance.Prelude.Split.{lacks, trim-twice, lacks-trim, split-lacks, split-join}
use thebalance.Prelude.Assoc.{mem, dedup}
use thebalance.Prelude.Result.{ok}
use thebalance.Storage.Platform.{World, Platform}
use thebalance.Storage.Admin.{is_separator, parse_keys, add_parsed, add_keys}
use thebalance.Sync.{TheOneTarget, form_post}
use thebalance.Web.Form.{Answer, post_keys_list_handler}

-- A key that is not empty, has no blank at an end, and no newline or comma.
abbrev pub IsKey : String → Type 0
IsKey k = (trim k ≡ k) × (is_empty_text k ≡ false) × (lacks is_separator k ≡ true)

IsKey-dedup : (ks : List String) → All IsKey ks → All IsKey (dedup ks)
unfolding dedup
IsKey-dedup [] h = tt
IsKey-dedup (k ∷ ks) (h, hs) = elim (Bool-cases (mem k ks)) [
  | inl again ↦ rw again (IsKey-dedup ks hs)
  | inr once ↦ rw once (h, IsKey-dedup ks hs)
]

IsKey-trimmed :
    (parts : List String)
    → All (λ s. lacks is_separator s ≡ true) parts
    → All IsKey (filter (λ s. not (is_empty_text s)) (map trim parts))
unfolding filter
IsKey-trimmed [] h = tt
IsKey-trimmed (s ∷ parts) (h, hs) = elim (Bool-cases (is_empty_text (trim s))) [
  | inl blank ↦ rw blank (IsKey-trimmed parts hs)
  | inr seen ↦ rw seen ((trim-twice s, seen, lacks-trim is_separator s h), IsKey-trimmed parts hs)
]

IsKey-parse_keys : (text : String) → All IsKey (parse_keys text)
unfolding parse_keys
IsKey-parse_keys text =
    IsKey-dedup _ (IsKey-trimmed (split is_separator text) (split-lacks is_separator text))

keys_lack : (ks : List String) → All IsKey ks → All (λ s. lacks is_separator s ≡ true) ks
keys_lack [] h = tt
keys_lack (k ∷ ks) ((same, seen, whole), hs) = (whole, keys_lack ks hs)

keys_stay :
    (ks : List String) → All IsKey ks → filter (λ s. not (is_empty_text s)) (map trim ks) ≡ ks
unfolding filter
keys_stay [] h = refl
keys_stay (k ∷ ks) ((same, seen, whole), hs) = rw (same, seen, keys_stay ks hs) refl

parse_keys-join : (ks : List String) → All IsKey ks → parse_keys (join "\n" ks) ≡ dedup ks
unfolding parse_keys join
parse_keys-join [] h = refl
parse_keys-join (k ∷ ks) h =
    ap (λ parts. dedup (filter (λ s. not (is_empty_text s)) (map trim parts)))
      (split-join is_separator "\n" k ks refl (keys_lack (k ∷ ks) h))
    ∙ ap dedup (keys_stay (k ∷ ks) h)

-- The keys that a worker reads of a pasted text are neither empty, nor have they blanks at an end or
-- separators. Of keys like these the handler of the form reads from the command's post exactly the
-- keys that were joined, each once, and does with them what an addition does.
pub form_post-parse_keys :
    {S T C P : Type 0} (pf : Platform S T C P) (ask : String → String → Answer)
    (target : TheOneTarget) (provider : String) (key_list : List String) (uuid : ℕ → String)
    (now : ℤ) (w : World S C P) (text : String)
    → All IsKey key_list
    → All IsKey (parse_keys text)
      × (parse_keys (form_post target provider key_list).keys ≡ dedup key_list)
      × ((post_keys_list_handler pf ask provider uuid now
            (ok (("action", "add") ∷ ("keys", (form_post target provider key_list).keys) ∷ []))
            w).1
          ≡ (add_parsed pf provider uuid now (dedup key_list) w).1)
unfolding form_post post_keys_list_handler add_keys
form_post-parse_keys pf ask target provider key_list uuid now w text h =
    let arrives = parse_keys-join key_list h in
    (
      IsKey-parse_keys text,
      arrives,
      ap (λ keys. (add_parsed pf provider uuid now keys w).1) arrives,
    )
