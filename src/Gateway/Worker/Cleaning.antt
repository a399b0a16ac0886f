-- ===== src/Gateway/Worker/Cleaning.antt =====
-- The scheduled cleanup over the storage component.
use thebalance.Prelude.{refl, ◌∙◌, String, List, [], ◌∷◌, map}
use thebalance.Prelude.Int.{ℤ}
use thebalance.Errors.{GoogleJson}
use thebalance.Storage.Model.{Key}
use thebalance.Storage.Platform.{World, Platform}
use thebalance.Storage.Platform.Lawful.{LawfulDb}
use thebalance.Storage.Cleanup.{TestAnswer}
use thebalance.Storage.Cleanup.Deletes.{HoldsRows, cleanup_keeps_rows}
use thebalance.Storage.Pool.{entry}
use thebalance.Storage.Invariant.{Inv}
use thebalance.Storage.Invariant.Statements.{Keeps-exec_query}
use thebalance.Storage.Invariant.Rows.{row_rules}
use thebalance.Storage.Invariant.Operations.{
  Guarded-updates, Keeps-update_key_metrics, Keeps-delete_permanently_failed_keys,
}
use thebalance.Gateway.Worker.{providers_to_clean, clean_each, scheduled}

module _ {S T C P : Type 0} (pf : Platform S T C P) (db : LawfulDb pf) (google : GoogleJson)
    (answer : Key T → TestAnswer) (threshold now : ℤ) where
  cleaned-Inv :
      (providers : List String) (w : World S C P)
      → Inv pf db w
      → Inv pf db (clean_each pf google answer threshold now providers w)
  unfolding clean_each
  cleaned-Inv [] w h = h
  cleaned-Inv (provider ∷ providers) w h = cleaned-Inv providers _ (
      (Keeps-delete_permanently_failed_keys pf google (Inv pf db) (Keeps-exec_query pf db)
          (Keeps-update_key_metrics pf (Guarded-updates pf db (row_rules pf))) answer threshold now
          provider).keeps
        w h)

  cleaned-HoldsRows :
      (providers : List String) (w : World S C P)
      → HoldsRows pf db
          (map entry (db.rows w.db))
          (clean_each pf google answer threshold now providers w)
  unfolding clean_each
  cleaned-HoldsRows [] w = refl
  cleaned-HoldsRows (provider ∷ providers) w =
      cleaned-HoldsRows providers _
      ∙ cleanup_keeps_rows pf db google answer threshold now provider w

  -- The scheduled cleanup goes over its providers, whether one fails or not, and keeps the invariant of
  -- the storage component; it deletes no row.
  scheduled-Inv :
      (w : World S C P)
      → Inv pf db w
      → Inv pf db (scheduled pf google answer threshold now w)
        × HoldsRows pf db (map entry (db.rows w.db)) (scheduled pf google answer threshold now w)
  unfolding scheduled
  scheduled-Inv w h = (cleaned-Inv providers_to_clean w h, cleaned-HoldsRows providers_to_clean w)
