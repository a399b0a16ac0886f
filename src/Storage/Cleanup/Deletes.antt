-- ===== src/Storage/Cleanup/Deletes.antt =====
-- What the cleanup does to the table.
use thebalance.Prelude.{refl, String, List, map}
use thebalance.Prelude.Int.{ℤ}
use thebalance.Errors.{GoogleJson}
use thebalance.Storage.Model.{Key}
use thebalance.Storage.Metrics.{metrics_update}
use thebalance.Storage.Cooldowns.{cooldown_update}
use thebalance.Storage.Cleanup.{TestAnswer, delete_permanently_failed_keys}
use thebalance.Storage.Platform.{World, Platform}
use thebalance.Storage.Platform.Binding.{bind_assignment}
use thebalance.Storage.Platform.Sql.{assign_all}
use thebalance.Storage.Platform.Lawful.{LawfulDb}
use thebalance.Storage.Pool.{Entry, entry}
use thebalance.Storage.Invariant.Names.{Untouched, Holds, Holds-query, Holds-updates}
use thebalance.Storage.Invariant.Operations.{
  Keeps-update_key_metrics, Keeps-delete_permanently_failed_keys,
}

module _ {S T C P : Type 0} (pf : Platform S T C P) where
  -- No update of metrics or cooldowns sets the id, the key, the provider or the status.
  pub Untouched-entry : Untouched pf entry
  unfolding assign_all bind_assignment metrics_update cooldown_update
  Untouched-entry = record {
    metrics = λ b latency now k r. refl;
    cooling = λ k r coolings model now duration_secs. refl;
    ends = λ k r model duration_secs now later. refl;
  }

module _ {S T C P : Type 0} (pf : Platform S T C P) (db : LawfulDb pf) where
  -- The table holds the rows that `before` names, in that order.
  abbrev pub HoldsRows : List Entry → World S C P → Type 0
  HoldsRows before w = Holds pf entry db before w

  -- The cleanup deletes nothing and blocks nothing: behind it the table holds the rows that it held,
  -- with the same ids, keys, providers and statuses in the same order, whatever count it reports and
  -- whether it fails or not.
  pub cleanup_keeps_rows :
      (google : GoogleJson) (answer : Key T → TestAnswer) (threshold now : ℤ) (provider : String)
      (w : World S C P)
      → HoldsRows
          (map entry (db.rows w.db))
          (delete_permanently_failed_keys pf google answer threshold now provider w).1
  cleanup_keeps_rows google answer threshold now provider w =
      let before = map entry (db.rows w.db) in
      let kept =
        Keeps-delete_permanently_failed_keys pf google (HoldsRows before)
          (Holds-query pf entry db before)
          (Keeps-update_key_metrics pf (Holds-updates pf entry db before (Untouched-entry pf)))
          answer threshold now provider in
      kept.keeps w refl
