-- ===== src/Queue/Tests.antt =====
-- A batch of two messages, at the platform in memory.
use thebalance.Prelude.{◌≡◌, [], ◌∷◌, map, some, String}
use thebalance.Prelude.Result.{ok, err}
use thebalance.Queue.{set_status, set_key_cooldown, Message, apply, process, main}
use thebalance.Queue.Batch.{told_of, call, elem_at, main-run_calls}
use thebalance.Storage.Model.{blocked}
use thebalance.Storage.Memory.{memory}
use thebalance.Storage.Samples.{no_parser, world}
use thebalance.Storage.Invariant.History.{run_calls}

abbrev block_one : Message
block_one = record { body = set_status "k1" blocked; now = 1700000000; later = 1700000000 }

abbrev cool_one : Message
cool_one = record { body = set_key_cooldown "k1" "gemini" 65; now = 1700000001; later = 1700000002 }

main-run_calls_example :
    (main memory {E = String} (ok tt) (ok (block_one ∷ cool_one ∷ [])) world ≡ (
      ok (process (apply memory) (block_one ∷ cool_one ∷ []) world).0,
      run_calls memory no_parser (map call (block_one ∷ cool_one ∷ [])) world,
    ))
    × (elem_at (process (apply memory) (block_one ∷ cool_one ∷ []) world).0 1
        ≡ some (
            told_of
              (apply memory cool_one
                (run_calls memory no_parser (map call (block_one ∷ [])) world)).0))
    × (main memory {E = String} (err "no database") (ok []) world ≡ (err "no database", world))
    × (main memory {E = String} (ok tt) (err "no database") world ≡ (err "no database", world))
main-run_calls_example =
    main-run_calls memory no_parser (block_one ∷ []) [] cool_one "no database" (ok []) world
