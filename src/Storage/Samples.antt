-- ===== src/Storage/Samples.antt =====
-- Rows, worlds and a parser at which the theorems of several parts are run.
use thebalance.Prelude.{none, [], ◌∷◌}
use thebalance.Prelude.Int.{pos}
use thebalance.Errors.{GoogleJson}
use thebalance.Storage.Model.{Key}
use thebalance.Storage.Memory.{Column, coolings, Table, Entries, Penalties}
use thebalance.Storage.Platform.{World}

abbrev pub row : Key Column
row = record {
  id = "k1";
  key = "AIza";
  provider = "google-ai-studio";
  model_coolings = coolings [];
  total_cooling_seconds = pos 0;
  status = "active";
  created_at = pos 1700000000;
  updated_at = pos 1700000000;
  latency_ms = pos 120;
  success_rate = pos 1000;
  consecutive_failures = pos 60;
  last_checked_at = pos 0;
  last_succeeded_at = pos 0;
}

abbrev pub other_row : Key Column
other_row = record row { id = "k2"; consecutive_failures = pos 0; last_checked_at = pos 1699999000 }

abbrev pub world : World Table Entries Penalties
world = record { db = row ∷ []; api_key_cache = []; cooldown_cache = [] }

abbrev pub two_rows : World Table Entries Penalties
two_rows = record world { db = row ∷ other_row ∷ [] }

-- Bodies that are not those of Google.
abbrev pub no_parser : GoogleJson
no_parser = record { parse_one = λ text. none; parse_many = λ text. none }
