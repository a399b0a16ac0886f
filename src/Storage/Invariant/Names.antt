-- ===== src/Storage/Invariant/Names.antt =====
-- What no update of metrics or cooldowns touches: a naming of the rows, as the list of their names.
use thebalance.Prelude.{
  ℕ, ◌≡◌, refl, ap, ◌∙◌, inl, inr, String, Bool, List, [], ◌∷◌, map, Bool-cases,
}
use thebalance.Prelude.Int.{ℤ}
use thebalance.Prelude.Assoc.{Assoc}
use thebalance.Prelude.Result.{Result, ok, err}
use thebalance.Storage.Model.{Key, ModelCooling, StorageError}
use thebalance.Storage.Metrics.{metrics_update}
use thebalance.Storage.Cooldowns.{cooldown_update, ends_update}
use thebalance.Storage.Platform.{World, Platform, exec_query, exec_first, exec_update}
use thebalance.Storage.Platform.Binding.{
  Condition, Query, Assignment, bind_query, bind_condition, bind_assignment, id_is,
}
use thebalance.Storage.Platform.Sql.{matches, update_row}
use thebalance.Storage.Platform.Lawful.{LawfulDb, Writes}
use thebalance.Storage.Ensures.{Keeps}
use thebalance.Storage.Invariant.Operations.{UpdateRules}
use thebalance.Storage.Invariant.Rules.{updated}

module _ {S T C P A : Type 0} (pf : Platform S T C P) (name : Key T → A) where
  pub record Untouched : Type 0 where
    pub metrics :
        (b : Bool) (latency now : ℤ) (k r : Key T)
        → name (updated (metrics_update b latency now k) r) ≡ name r
    pub cooling :
        (k r : Key T) (coolings : Assoc ModelCooling) (model : String) (now duration_secs : ℕ)
        → name (updated (cooldown_update pf k coolings model now duration_secs) r) ≡ name r
    pub ends :
        (k r : Key T) (model : String) (duration_secs now later : ℕ)
        → name (updated (ends_update pf k model duration_secs now later) r) ≡ name r

  names-update :
      (conditions : List Condition) (assignments : List (Assignment T)) (ks : List (Key T))
      → ((r : Key T) → name (updated assignments r) ≡ name r)
      → map name (map (update_row conditions (map bind_assignment assignments)) ks) ≡ map name ks
  unfolding update_row
  names-update conditions assignments [] same = refl
  names-update conditions assignments (k ∷ ks) same =
      let rest = names-update conditions assignments ks same in
      elim (Bool-cases (matches conditions k)) [
        | inl e ↦ rw e (cc (same k, rest))
        | inr e ↦ rw e (cc rest)
      ]

  module _ (db : LawfulDb pf) (before : List A) where
    -- The table holds the rows of those names, in that order.
    abbrev pub Holds : World S C P → Type 0
    Holds w = map name (db.rows w.db) ≡ before

    pub Holds-query : (q : Query) → Keeps Holds (exec_query pf q)
    unfolding exec_query
    Holds-query q = record {
      keeps = λ w h. ap (map name) (db.all_rows (bind_query q) w.db) ∙ h;
      gives = λ w h a e. tt;
    }

    written :
        (r : Result StorageError (Unit {0})) (new old after : List (Key T))
        → Writes r new old after
        → map name new ≡ before
        → map name old ≡ before
        → map name after ≡ before
    written (ok u) new old after h n o = ap (map name) h ∙ n
    written (err e) new old after h n o = ap (map name) h ∙ o

    Holds-update :
        (conditions : List Condition) (assignments : List (Assignment T))
        → ((r : Key T) → name (updated assignments r) ≡ name r)
        → Keeps Holds (exec_update pf conditions assignments)
    unfolding exec_update
    Holds-update conditions assignments same = record {
      keeps = λ w h.
          let cs = map bind_condition conditions in
          written _ _ _ _ (db.update_lem cs (map bind_assignment assignments) w.db)
            (names-update cs assignments (db.rows w.db) same ∙ h) h;
      gives = λ w h a e. tt;
    }

    pub Holds-updates : Untouched → UpdateRules pf Holds (λ k. Unit)
    unfolding exec_first
    Holds-updates untouched = record {
      first = λ conditions. record {
        keeps = λ w h. ap (map name) (db.first_rows (map bind_condition conditions) w.db) ∙ h;
        gives = λ w h a e k x. tt;
      };
      metrics = λ id b latency now k h.
          Holds-update (id_is id ∷ []) (metrics_update b latency now k)
            (untouched.metrics b latency now k);
      cooling = λ id k coolings model now duration_secs.
          Holds-update (id_is id ∷ []) (cooldown_update pf k coolings model now duration_secs)
            (λ r. untouched.cooling k r coolings model now duration_secs);
      ends = λ id k model duration_secs now later.
          Holds-update (id_is id ∷ []) (ends_update pf k model duration_secs now later)
            (λ r. untouched.ends k r model duration_secs now later);
    }
