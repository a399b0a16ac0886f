-- ===== src/Gateway/Forward/Replies.antt =====
-- Who may use the gateway: the guards of the two handlers.
use Prim.Native.String
use thebalance.Prelude.{ℕ, ◌≡◌, refl, inl, inr, String, false, Option, some, Bool-cases}
use thebalance.Prelude.Text.{is_empty_text}
use thebalance.Errors.{GoogleJson}
use thebalance.Storage.Model.{Key}
use thebalance.Storage.Platform.{World, Platform}
use thebalance.Storage.Cleanup.{TestAnswer}
use thebalance.Gateway.Auth.{get_auth_key, is_valid_auth_key}
use thebalance.Gateway.Auth.Extract.{is_valid_auth_key_iff}
use thebalance.Gateway.Target.{Incoming, BodyJson}
use thebalance.Gateway.Failover.{AnswerJson, Turn}
use thebalance.Gateway.Forward.{Settings, unauthorized, forward, run_cleanup_handler}

-- The header carries the secret of the gateway.
pub record HasSecret (header secret : Option String) : Type 0 where
  pub key : String
  pub secret_eq : secret ≡ some key
  pub not_empty : is_empty_text key ≡ false
  pub header_eq : header ≡ some (String.◌++◌ "Bearer " key)

refused :
    (header secret : Option String)
    → ¬ (HasSecret header secret)
    → is_valid_auth_key (get_auth_key header) secret ≡ false
refused header secret lacks = elim (Bool-cases (is_valid_auth_key (get_auth_key header) secret)) [
  | inr e ↦ e
  | inl e ↦
      let (key, set, full, is_header) = (is_valid_auth_key_iff header secret).0 e in
      absurd
        (lacks (record { key = key; secret_eq = set; not_empty = full; header_eq = is_header }))
]

module _ {S T C P F : Type 0} (pf : Platform S T C P) (google : GoogleJson) (bodies : BodyJson)
    (answers : AnswerJson F) (body_model : String → Option String) (settings : Settings)
    (turn : ℕ → Turn) (now later : ℕ) where
  -- Without the secret of the gateway in the header `Authorization`, both handlers answer 401 and
  -- neither the table nor a cache changes.
  pub forward-unauthorized :
      (authorization : Option String) (req : Incoming) (answer : Key T → TestAnswer)
      (provider : String) (w : World S C P)
      → ¬ (HasSecret authorization settings.auth_key)
      → (forward pf google bodies answers body_model settings turn now later authorization req w
          ≡ (unauthorized, w))
        × (run_cleanup_handler pf google bodies answers body_model settings turn now later answer
              authorization provider w
            ≡ (unauthorized, w))
  unfolding forward run_cleanup_handler
  forward-unauthorized authorization req answer provider w lacks = (
    rw (refused authorization settings.auth_key lacks) refl,
    rw (refused authorization settings.auth_key lacks) refl,
  )
