-- ===== src/Storage/Platform/Binding.antt =====
-- The statements that d1_storage.rs builds, and hybrid/sql_converter.rs: how the values of a
-- statement are bound as D1 parameters.
use thebalance.Prelude.{String, Bool, Option, none, some, List, map}
use thebalance.Prelude.Int.{ℤ, as_i32}
use thebalance.Storage.Model.{Key}

-- `toasty_core::stmt::Value`, as far as the conversion tells its cases apart.
pub data Value : Type 0 where
  bool : Bool → Value
  i32 : ℤ → Value
  i64 : ℤ → Value
  string : String → Value
  id : String → Value
  null : Value
  other : Value

-- `worker::D1Type`.
pub data D1Type : Type 0 where
  boolean : Bool → D1Type
  integer : ℤ → D1Type
  text : String → D1Type
  null : D1Type

unfoldable pub to_d1_type : Value → D1Type
unfolding as_i32
to_d1_type (bool v) = boolean v
to_d1_type (i32 v) = integer v
to_d1_type (i64 v) = integer (as_i32 v)
to_d1_type (string v) = text v
to_d1_type (id v) = text v
to_d1_type Value.null = D1Type.null
to_d1_type other = D1Type.null

unfoldable pub convert_values_for_d1 : List Value → List D1Type
unfolding to_d1_type
convert_values_for_d1 = map to_d1_type

-- The integer that the database gets for an `i64` of the program.
unfoldable pub bound_i64 : ℤ → ℤ
unfolding to_d1_type
bound_i64 z = elim (to_d1_type (i64 z)) [ integer v ↦ v | _ ↦ z ]

-- One filter of a query; a query has them all.
pub data Condition : Type 0 where
  provider_is status_is id_is : String → Condition
  id_in : List String → Condition
  failures_above : ℤ → Condition

pub data SortField : Type 0 where
  by_created_at by_total_cooling_seconds by_updated_at : SortField

pub data Direction : Type 0 where
  asc desc : Direction

pub record Query : Type 0 where
  pub conditions : List Condition
  pub order : Option (SortField × Direction)
  pub limit : Option ℤ
  pub offset : Option ℤ

abbrev pub matching : List Condition → Query
matching conditions = record { conditions = conditions; order = none; limit = none; offset = none }

-- One column of an update statement.
pub data Assignment (T : Type 0) : Type 0 where
  status : String → Assignment T
  updated_at : ℤ → Assignment T
  model_coolings : T → Assignment T
  total_cooling_seconds : ℤ → Assignment T
  latency_ms : ℤ → Assignment T
  success_rate : ℤ → Assignment T
  consecutive_failures : ℤ → Assignment T
  last_checked_at : ℤ → Assignment T
  last_succeeded_at : ℤ → Assignment T

unfoldable pub bind_condition : Condition → Condition
unfolding bound_i64
bind_condition (provider_is p) = provider_is p
bind_condition (status_is s) = status_is s
bind_condition (id_is i) = id_is i
bind_condition (id_in is) = id_in is
bind_condition (failures_above n) = failures_above (bound_i64 n)

abbrev bind_option : Option ℤ → Option ℤ
bind_option none = none
bind_option (some n) = some (bound_i64 n)

unfoldable pub bind_query : Query → Query
unfolding bind_condition bound_i64
bind_query q = record q {
  conditions = map bind_condition q.conditions;
  limit = bind_option q.limit;
  offset = bind_option q.offset;
}

module _ {T : Type 0} where
  unfoldable pub bind_assignment : Assignment T → Assignment T
  unfolding bound_i64
  bind_assignment (status s) = status s
  bind_assignment (updated_at n) = updated_at (bound_i64 n)
  bind_assignment (model_coolings t) = model_coolings t
  bind_assignment (total_cooling_seconds n) = total_cooling_seconds (bound_i64 n)
  bind_assignment (latency_ms n) = latency_ms (bound_i64 n)
  bind_assignment (success_rate n) = success_rate (bound_i64 n)
  bind_assignment (consecutive_failures n) = consecutive_failures (bound_i64 n)
  bind_assignment (last_checked_at n) = last_checked_at (bound_i64 n)
  bind_assignment (last_succeeded_at n) = last_succeeded_at (bound_i64 n)

  unfoldable pub bind_row : Key T → Key T
  unfolding bound_i64
  bind_row k = record k {
    total_cooling_seconds = bound_i64 k.total_cooling_seconds;
    created_at = bound_i64 k.created_at;
    updated_at = bound_i64 k.updated_at;
    latency_ms = bound_i64 k.latency_ms;
    success_rate = bound_i64 k.success_rate;
    consecutive_failures = bound_i64 k.consecutive_failures;
    last_checked_at = bound_i64 k.last_checked_at;
    last_succeeded_at = bound_i64 k.last_succeeded_at;
  }
