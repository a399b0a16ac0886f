-- ===== src/Gateway/Forward/Samples.antt =====
-- The settings and the readers of bodies with which the handlers are run.
use thebalance.Prelude.{ℕ, some, none, false}
use thebalance.Gateway.Target.{BodyJson}
use thebalance.Prelude.Result.{ok}
use thebalance.Gateway.Failover.{AnswerJson}
use thebalance.Gateway.Forward.{Settings}

abbrev pub no_bodies : BodyJson
no_bodies = record {
  parse_embeddings = λ text. none;
  parse_chat = λ text. none;
  print_embeddings = λ r. "";
  print_chat = λ r. "";
}

abbrev pub no_answers : AnswerJson ℕ
no_answers = record { parse_embeddings = λ text. none; parse_chat = λ text. none }

abbrev pub settings : Settings
settings = record {
  auth_key = some "secret";
  overall_timeout_ms = none;
  target_timeout_ms = some "8000";
  recovery_threshold = none;
  gateway = record {
    ai_gateway_token = none;
    cloudflare_account_id = some "account";
    ai_gateway = some "balance";
    is_local = false;
    set_headers = λ calls. ok tt;
  };
  body_read = ok tt;
  binding = ok tt;
}
