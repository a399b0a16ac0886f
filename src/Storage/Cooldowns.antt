-- ===== src/Storage/Cooldowns.antt =====
-- set_cooldown, set_key_model_cooldown_if_available and flag_key_with_cooldown of d1_storage.rs.
pub mod Stored
use thebalance.Prelude.{
  ℕ, String, Bool, true, false, Option, none, some, List, [], ◌∷◌, ltb, if◌then◌else◌,
}
use thebalance.Prelude.Int.{ℤ, pos, as_u64, as_i64, add_u64, add_i64}
use thebalance.Prelude.Assoc.{Assoc, lookup, insert}
use thebalance.Storage.Model.{Key, ModelCooling, get_model_coolings, set_model_coolings}
use thebalance.Storage.Platform.{
  World, Platform, Action, pure, lift, exec_first, exec_update, ◌>>=◌, ◌>>◌,
}
use thebalance.Storage.Platform.Binding.{
  id_is, Assignment, updated_at, model_coolings, total_cooling_seconds,
}

abbrev pub coolings_or_default : Option (Assoc ModelCooling) → Assoc ModelCooling
coolings_or_default none = []
coolings_or_default (some m) = m

-- `cooling.end_at as u64 > now`, for the model.
unfoldable pub is_cooling : ℕ → Option ModelCooling → Bool
unfolding as_u64
is_cooling now none = false
is_cooling now (some c) = ltb now (as_u64 c.end_at)

abbrev total_of : Option ModelCooling → ℤ
total_of none = pos 0
total_of (some c) = c.total_seconds

-- The entry that a new cooldown gets: the seconds add up, and it ends `duration_secs` from now.
unfoldable pub next_cooling : ℕ → ℕ → Option ModelCooling → ModelCooling
unfolding add_i64 as_i64 add_u64
next_cooling now duration_secs old = record {
  total_seconds = add_i64 (total_of old) (as_i64 (pos duration_secs));
  end_at = as_i64 (pos (add_u64 now duration_secs));
}

abbrev pub signed_or_default : Option (Assoc ℤ) → Assoc ℤ
signed_or_default none = []
signed_or_default (some m) = m

module _ {S T C P : Type 0} (pf : Platform S T C P) where
  -- What is written over a key that is not cooling for the model.
  unfoldable pub cooldown_update : Key T → Assoc ModelCooling → String → ℕ → ℕ → List (Assignment T)
  unfolding next_cooling set_model_coolings
  cooldown_update k coolings model now duration_secs =
      let cooled = insert model (next_cooling now duration_secs (lookup model coolings)) coolings in
      model_coolings (set_model_coolings pf.json k cooled).model_coolings
      ∷ total_cooling_seconds (add_i64 k.total_cooling_seconds (as_i64 (pos duration_secs)))
      ∷ updated_at (as_i64 (pos now))
      ∷ []

  abbrev pub cool_key :
      String → Key T → String → ℕ → ℕ → Assoc ModelCooling → Action (World S C P) Bool
  cool_key id k model now duration_secs coolings =
      if is_cooling now (lookup model coolings)
      then pure false
      else (exec_update pf (id_is id ∷ []) (cooldown_update k coolings model now duration_secs)
          >> pure true)

  abbrev pub cool_found : String → String → ℕ → ℕ → Option (Key T) → Action (World S C P) Bool
  cool_found id model now duration_secs none = pure false
  cool_found id model now duration_secs (some k) =
      lift (get_model_coolings pf.json k) >>= λ coolings.
      cool_key id k model now duration_secs (coolings_or_default coolings)

  -- `now` is the time in seconds. The source takes the provider too, and does not use it.
  unfoldable pub set_key_model_cooldown_if_available :
      String → String → ℕ → ℕ → Action (World S C P) Bool
  unfolding is_cooling cooldown_update
  set_key_model_cooldown_if_available id model duration_secs now =
      exec_first pf (id_is id ∷ []) >>= cool_found id model now duration_secs

  abbrev pub ends_update : Key T → String → ℕ → ℕ → ℕ → List (Assignment T)
  ends_update k model duration_secs now later =
      let ends = signed_or_default (pf.json.parse_signed_ends k.model_coolings) in
      let cooled = insert model (as_i64 (pos (add_u64 now duration_secs))) ends in
      model_coolings (pf.json.print_ends cooled) ∷ updated_at (as_i64 (pos later)) ∷ []

  -- The older path, over plain end times; it reads the clock twice.
  abbrev pub set_found :
      String → String → ℕ → ℕ → ℕ → Option (Key T) → Action (World S C P) (Unit {0})
  set_found id model duration_secs now later none = pure tt
  set_found id model duration_secs now later (some k) =
      exec_update pf (id_is id ∷ []) (ends_update k model duration_secs now later)

  unfoldable pub set_cooldown : String → String → ℕ → ℕ → ℕ → Action (World S C P) (Unit {0})
  set_cooldown id model duration_secs now later =
      exec_first pf (id_is id ∷ []) >>= set_found id model duration_secs now later

  -- The penalty box.
  unfoldable pub flag_key_with_cooldown : String → ℕ → ℕ → World S C P → World S C P
  flag_key_with_cooldown key_id duration_seconds now w = record w {
    cooldown_cache = pf.cooldown_insert_with_ttl key_id duration_seconds now w.cooldown_cache;
  }
