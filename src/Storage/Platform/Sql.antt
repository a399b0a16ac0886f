-- ===== src/Storage/Platform/Sql.antt =====
-- What the statements mean: the rows that a condition selects, and the columns that an update sets.
-- It is the documented behaviour of SQL, which `Lawful` states of a database.
use thebalance.Prelude.{Bool, true, ◌&&◌, List, [], ◌∷◌, str_eq, if◌then◌else◌}
use thebalance.Prelude.Int.{ltb_ℤ}
use thebalance.Prelude.Assoc.{mem}
use thebalance.Storage.Model.{Key}
use thebalance.Storage.Platform.Binding.{
  Condition, provider_is, status_is, id_is, id_in, failures_above, Assignment, status, updated_at,
  model_coolings, total_cooling_seconds, latency_ms, success_rate, consecutive_failures,
  last_checked_at, last_succeeded_at,
}

module _ {T : Type 0} where
  unfoldable pub holds : Condition → Key T → Bool
  unfolding mem
  holds (provider_is p) k = str_eq k.provider p
  holds (status_is s) k = str_eq k.status s
  holds (id_is i) k = str_eq k.id i
  holds (id_in is) k = mem k.id is
  holds (failures_above n) k = ltb_ℤ n k.consecutive_failures

  -- A query's conditions are joined by AND.
  unfoldable pub matches : List Condition → Key T → Bool
  unfolding holds
  matches [] k = true
  matches (c ∷ cs) k = holds c k && matches cs k

  unfoldable pub assign : Assignment T → Key T → Key T
  assign (status s) k = record k { status = s }
  assign (updated_at n) k = record k { updated_at = n }
  assign (model_coolings t) k = record k { model_coolings = t }
  assign (total_cooling_seconds n) k = record k { total_cooling_seconds = n }
  assign (latency_ms n) k = record k { latency_ms = n }
  assign (success_rate n) k = record k { success_rate = n }
  assign (consecutive_failures n) k = record k { consecutive_failures = n }
  assign (last_checked_at n) k = record k { last_checked_at = n }
  assign (last_succeeded_at n) k = record k { last_succeeded_at = n }

  unfoldable pub assign_all : List (Assignment T) → Key T → Key T
  unfolding assign
  assign_all [] k = k
  assign_all (a ∷ rest) k = assign_all rest (assign a k)

  unfoldable pub update_row : List Condition → List (Assignment T) → Key T → Key T
  unfolding matches assign_all
  update_row conditions assignments k = if matches conditions k then assign_all assignments k else k
