-- ===== src/Storage/Cooldowns/Stored.antt =====
-- A cooldown for a model: what is written, and what the readers of the row make of it.
use mathlib.Core.Path.{subst}
use thebalance.Prelude.{
  ℕ, ◌+◌, ◌^◌, ◌≡◌, ◌<◌, refl, sym, ◌∙◌, ap, String, true, false, not, Option, none, some, [], ◌∷◌,
  map, arith, eq_iff,
}
use thebalance.Prelude.Int.{pos, as_u64, as_i64, as_i64-pos, add_u64}
use thebalance.Prelude.Assoc.{Assoc, lookup, insert}
use thebalance.Storage.Model.{
  Key, ModelCooling, CoolingsJson, get_model_coolings, set_model_coolings, db_key_to_api_key,
  get_cooldown_end,
}
use thebalance.Storage.Platform.{Platform}
use thebalance.Storage.Platform.Binding.{bind_assignment}
use thebalance.Storage.Platform.Sql.{assign_all}
use thebalance.Storage.Cooldowns.{next_cooling, cooldown_update}
use thebalance.Storage.Reads.{any_cooling, is_available}

-- `serde_json` on a printed map: as an object of objects it reads back, up to the order of its
-- entries, and as an object of numbers it is an error, but if it is empty.
pub record LawfulJson {T : Type 0} (json : CoolingsJson T) : Type 0 where
  pub not_blank : (m : Assoc ModelCooling) → json.is_empty_or_null (json.print_coolings m) ≡ false
  pub parse_print :
      (m : Assoc ModelCooling)
      → (read : Assoc ModelCooling) × (json.parse_coolings (json.print_coolings m) ≡ some read)
        × ((model : String) → lookup model read ≡ lookup model m)
  pub empty_ends : json.parse_ends (json.print_coolings []) ≡ some []
  pub no_ends :
      (entry : String × ModelCooling) (m : Assoc ModelCooling)
      → json.parse_ends (json.print_coolings (entry ∷ m)) ≡ none

lookup-insert :
    {V : Type 0} (name : String) (value : V) (entries : Assoc V)
    → lookup name (insert name value entries) ≡ some value
unfolding lookup insert
lookup-insert name value [] = rw ((eq_iff name name).1 refl) refl
lookup-insert name value (entry ∷ entries) =
    ground (arith, eq_iff name name, lookup-insert name value entries)

-- One entry that lasts is enough.
any_cooling_lem :
    (now : ℕ) (model : String) (c : ModelCooling) (m : Assoc ModelCooling)
    → lookup model m ≡ some c
    → now < as_u64 c.end_at
    → any_cooling now m ≡ true
unfolding any_cooling lookup
any_cooling_lem now model c [] e h = cc
any_cooling_lem now model c (entry ∷ m) e h = ground (arith, any_cooling_lem now model c m)

no_wrap : (a b : ℕ) → a + b < 2 ^ 63 → add_u64 a b ≡ a + b
unfolding add_u64
no_wrap a b h = omega arith

as_u64-pos : (n : ℕ) → n < 2 ^ 63 → as_u64 (pos n) ≡ n
unfolding as_u64
as_u64-pos n h = ground arith

end_of :
    (now duration_secs : ℕ) (old : Option ModelCooling)
    → now + duration_secs < 2 ^ 63
    → as_u64 (next_cooling now duration_secs old).end_at ≡ now + duration_secs
unfolding next_cooling
end_of now duration_secs old h =
    ap (λ n. as_u64 (as_i64 (pos n))) (no_wrap now duration_secs h)
    ∙ ap as_u64 (as_i64-pos (now + duration_secs) h)
    ∙ as_u64-pos (now + duration_secs) h

module _ {S T C P : Type 0} (pf : Platform S T C P) (laws : LawfulJson pf.json) where
  -- The row `r`, after the cooldown of `k` for `model` was written over it.
  abbrev pub cooled : Key T → Key T → Assoc ModelCooling → String → ℕ → ℕ → Key T
  cooled k r coolings model now duration_secs =
      assign_all (map bind_assignment (cooldown_update pf k coolings model now duration_secs)) r

  lasting_is_unavailable :
      (later : ℕ) (r : Key T) (m : Assoc ModelCooling) (model : String) (c : ModelCooling)
      → r.model_coolings ≡ pf.json.print_coolings m
      → lookup model m ≡ some c
      → later < as_u64 c.end_at
      → is_available pf later r ≡ false
  unfolding is_available get_model_coolings
  lasting_is_unavailable later r m model c printed found lasts =
      let (read, parses, same) = laws.parse_print m in
      rw (printed, laws.not_blank m, parses)
        (ap not (any_cooling_lem later model c read (same model ∙ found) lasts))

  no_end :
      (r : Key T) (m : Assoc ModelCooling) (model : String)
      → r.model_coolings ≡ pf.json.print_coolings m
      → get_cooldown_end (db_key_to_api_key pf.json r) model ≡ none
  unfolding get_cooldown_end db_key_to_api_key lookup
  no_end r [] model printed = rw (printed, laws.empty_ends) refl
  no_end r (entry ∷ m) model printed = rw (printed, laws.no_ends entry m) refl

  -- A stored cooldown takes the key out of the active keys of every model until it ends, and is lost
  -- where the key is read for one model: if `later` is less than `duration_secs` behind `now`, the key
  -- is not available, and for no model does the key that is read from the row have an end of a
  -- cooldown.
  pub cooldown_update-read :
      (k r : Key T) (coolings : Assoc ModelCooling) (model other : String)
      (now duration_secs later : ℕ)
      → now + duration_secs < 2 ^ 63
      → later < now + duration_secs
      → (is_available pf later (cooled k r coolings model now duration_secs) ≡ false)
        × (get_cooldown_end
              (db_key_to_api_key pf.json (cooled k r coolings model now duration_secs))
              other
            ≡ none)
  unfolding cooldown_update assign_all bind_assignment set_model_coolings
  cooldown_update-read k r coolings model other now duration_secs later h l =
      let old = lookup model coolings in
      let cooling = next_cooling now duration_secs old in
      let m = insert model cooling coolings in
      (
        lasting_is_unavailable later (cooled k r coolings model now duration_secs) m model cooling
            refl (lookup-insert model cooling coolings)
            (subst (λ n. later < n) (sym (end_of now duration_secs old h)) l),
        no_end (cooled k r coolings model now duration_secs) m other refl,
      )
