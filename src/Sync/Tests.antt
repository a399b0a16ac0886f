-- ===== src/Sync/Tests.antt =====
-- Three keys of two providers, of which one is refused.
use mathlib.Core.List.{Perm}
use mathlib.Core.List.Perm
use thebalance.Prelude.{
  ℕ, ◌+◌, ◌≡◌, refl, String, false, List, [], ◌∷◌, length, str_eq, All, ◌==◌, if◌then◌else◌,
}
use thebalance.Prelude.Assoc.{Assoc, lookup, dedup}
use thebalance.Prelude.Int.{pos}
use thebalance.Prelude.Split.{lacks}
use thebalance.Prelude.Text.{trim}
use thebalance.Prelude.Result.{Result, ok, err}
use thebalance.Storage.Memory.{memory}
use thebalance.Storage.Samples.{world}
use thebalance.Storage.Admin.{parse_keys, add_parsed}
use thebalance.Web.Form.{Answer, post_keys_list_handler}
use thebalance.Sync.Arrives.{IsKey, form_post-parse_keys}
use thebalance.Sync.{
  FormAnswer, SourceKey, SyncResult, TheOneTarget, FormPost, list_or_empty, group_keys, form_post,
  sync_keys,
}
use thebalance.Sync.Counts.{keys_for, taken, sync_keys-counts}

abbrev own_keys : List SourceKey
own_keys =
    record { key = "a"; provider = "openai" }
    ∷ record { key = "b"; provider = "groq" }
    ∷ record { key = "c"; provider = "openai" }
    ∷ []

abbrev their_worker : TheOneTarget
their_worker = record { base_url = "https://one.example"; auth_key = "secret" }

-- The network, which counts the posts and refuses those for one provider.
abbrev send : FormPost → ℕ → Result String FormAnswer × ℕ
send post n =
    (ok (if str_eq post.keys "b" then 500 else 303, "500 Internal Server Error", ok "full"), n + 1)

-- The first two groups the other way round.
abbrev swapped : Assoc (List String) → Assoc (List String)
swapped [] = []
swapped (group ∷ []) = group ∷ []
swapped (group ∷ (other ∷ groups)) = other ∷ (group ∷ groups)

swapped_perm : (groups : Assoc (List String)) → Perm (swapped groups) groups
swapped_perm [] = Perm.refl []
swapped_perm (group ∷ []) = Perm.refl (group ∷ [])
swapped_perm (group ∷ (other ∷ groups)) = Perm.swap group other groups

abbrev two_of_three : SyncResult
two_of_three = record {
  success = false;
  synced_count = 2;
  failed_count = 1;
  errors = "Provider 'groq': Failed to sync 1 keys (status 500 Internal Server Error): full" ∷ [];
}

run : (sync_keys send swapped their_worker own_keys 0).0 ≡ ok two_of_three
unfolding sync_keys
run = refl

sync_keys-counts_example :
    (two_of_three.synced_count + two_of_three.failed_count ≡ length own_keys)
    × (two_of_three.success ≡ (two_of_three.failed_count == 0))
    × (two_of_three.synced_count ≡ taken send their_worker (swapped (group_keys own_keys [])) 0)
    × (list_or_empty (lookup "openai" (group_keys own_keys [])) ≡ keys_for "openai" own_keys)
sync_keys-counts_example =
    sync_keys-counts send swapped their_worker own_keys 0 two_of_three "openai" swapped_perm run

abbrev copied : List String
copied = "sk-1" ∷ "sk-2" ∷ "sk-1" ∷ []

abbrev no_route : String → String → Answer
no_route model key = err "no route"

form_post-parse_keys_example :
    All IsKey (parse_keys " sk-1 ,, sk-2")
    × (parse_keys (form_post their_worker "openai" copied).keys ≡ dedup copied)
    × ((post_keys_list_handler memory no_route "openai"
          (λ n. "id")
          (pos 1700000100)
          (ok (("action", "add") ∷ ("keys", (form_post their_worker "openai" copied).keys) ∷ []))
          world).1
        ≡ (add_parsed memory "openai" (λ n. "id") (pos 1700000100) (dedup copied) world).1)
unfolding trim lacks
form_post-parse_keys_example =
    form_post-parse_keys memory no_route their_worker "openai" copied (λ n. "id") (pos 1700000100)
      world " sk-1 ,, sk-2" ((refl, refl, refl), ((refl, refl, refl), ((refl, refl, refl), tt)))
