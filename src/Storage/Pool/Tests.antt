-- ===== src/Storage/Pool/Tests.antt =====
-- A run over the pool, at the platform in memory.
use thebalance.Prelude.{
  sym, inl, inr, ◌++◌, ltb, length, filter, Bool-cases, if◌then◌else◌, ℕ, ◌≡◌, refl, String, List,
  [], ◌∷◌, true,
}
use thebalance.Prelude.Int.{pos}
use thebalance.Storage.Pool.Unique.{IsUnique, has, run_calls-IsUnique}
use thebalance.Prelude.Result.{ok, err}
use thebalance.Storage.Ensures.{ok-injective}
use thebalance.Storage.Platform.{World, Platform}
use thebalance.Storage.Platform.Sql.{matches}
use thebalance.Storage.Platform.Lawful.{LawfulDb}
use thebalance.Storage.Pool.Failures.{Leaves, run_call-Leaves}
use thebalance.Storage.Model.{blocked, worker}
use thebalance.Storage.Admin.{add_keys, delete_all_blocked, update_status}
use thebalance.Storage.Metrics.{update_key_metrics}
use thebalance.Storage.Platform.{
  exec_query, exec_first, exec_insert, exec_update, exec_delete, ◌>>=◌,
}
use thebalance.Storage.Platform.Binding.{bind_query}
use thebalance.Storage.Memory.{Column, Table, Entries, Penalties, memory, memory_db, first_ok}
use thebalance.Storage.Samples.{no_parser, row, two_rows}
use thebalance.Storage.Invariant.History.{
  Call, run_call, run_calls, add, update_metrics, set_status, delete_blocked,
}
use thebalance.Storage.Pool.{steps}
use thebalance.Storage.Pool.Statements.{pool}
use thebalance.Storage.Pool.Refines.{AllSucceed, run_calls-steps}

abbrev uuid : ℕ → String
uuid n = "u"

abbrev calls : List (Call Column)
calls =
    add "google-ai-studio" "AIza,B" uuid (pos 1700000000)
    ∷ update_metrics "k2" true (pos 80) (pos 1700000100)
    ∷ set_status "k1" blocked (pos 1700000300)
    ∷ delete_blocked "google-ai-studio"
    ∷ []

calls_succeed : AllSucceed memory memory_db no_parser calls two_rows
unfolding memory add_keys update_status delete_all_blocked run_call update_key_metrics exec_query
    exec_first exec_insert exec_update exec_delete bind_query ◌>>=◌
calls_succeed = (refl, (tt, (refl, (refl, tt))))

run_calls-steps_example :
    pool memory memory_db (run_calls memory no_parser calls two_rows)
    ≡ steps memory.set_order calls (pool memory memory_db two_rows)
run_calls-steps_example = run_calls-steps memory memory_db no_parser calls two_rows calls_succeed

-- A table that is full at three rows.
unfoldable full_at_three : Platform Table Column Entries Penalties
unfolding memory
full_at_three = record memory {
  run_insert = λ k s.
      if ltb (length s) 3 then (ok tt, s ++ k ∷ []) else (err (worker "the table is full"), s);
}

full_at_three_db : LawfulDb full_at_three
unfolding full_at_three memory
full_at_three_db = record {
  set_members = λ x xs. refl;
  set_once = λ xs once. once;
  rows = λ s. s;
  all_rows = λ q s. refl;
  all_ok = λ cs s ks e. sym (ok-injective _ ks e);
  first_rows = λ cs s. refl;
  first_ok = λ cs s found e. first_ok (filter (matches cs) s) found e;
  insert_lem =
      λ k s. elim (Bool-cases (ltb (length s) 3)) [ inl e ↦ rw e refl | inr e ↦ rw e refl ];
  update_lem = λ cs assignments s. refl;
  delete_lem = λ cs s. refl;
}

run_call-Leaves_example :
    Leaves full_at_three full_at_three_db
      (add "google-ai-studio" "B,C" uuid (pos 1700000000))
      (pool full_at_three full_at_three_db two_rows)
      (run_call full_at_three no_parser
        (add "google-ai-studio" "B,C" uuid (pos 1700000000))
        two_rows)
run_call-Leaves_example =
    run_call-Leaves full_at_three full_at_three_db no_parser
      (add "google-ai-studio" "B,C" uuid (pos 1700000000)) two_rows

abbrev one_key : World Table Entries Penalties
one_key = record { db = row ∷ []; api_key_cache = []; cooldown_cache = [] }

one_key-IsUnique : IsUnique (pool full_at_three full_at_three_db one_key)
unfolding full_at_three_db has
one_key-IsUnique = (refl, tt)

abbrev pasted : List (Call Column)
pasted =
    add "google-ai-studio" "AIza, B,B" uuid (pos 1700000000)
    ∷ add "google-ai-studio" "B,C,D" uuid (pos 1700000001)
    ∷ []

run_calls-IsUnique_example :
    IsUnique
      (pool full_at_three full_at_three_db (run_calls full_at_three no_parser pasted one_key))
run_calls-IsUnique_example =
    run_calls-IsUnique full_at_three full_at_three_db no_parser pasted one_key one_key-IsUnique
