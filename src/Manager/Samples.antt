-- ===== src/Manager/Samples.antt =====
-- Storages that never fail, and a key.
use thebalance.Prelude.{List, []}
use thebalance.Prelude.Result.{ok}
use thebalance.Storage.Model.{active}
use thebalance.Manager.{StoredKey}
use thebalance.Manager.Kv.{KvStorage}

abbrev pub always : KvStorage (List StoredKey)
always = record { get = λ keys. (ok keys, keys); put = λ keys s. (ok tt, keys) }

abbrev pub stored : StoredKey
stored = record {
  id = "k1";
  key = "AIza";
  provider = "google-ai-studio";
  status = active;
  model_coolings = [];
  last_used = 0;
}
