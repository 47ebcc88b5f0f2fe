-- ===== src/Config.antt =====
-- src/config.rs: the configuration, read from the environment.
pub mod Secrets
use Prim.Native.String
use spritexai_pay_core.Prelude.{
  ℕ, ltb, ◌^◌, String, Option, none, some, ◌==◌, parse_u64, if◌then◌else◌,
}
use spritexai_pay_core.Ai.{env_or}

-- `bind_addr` is the port: the address is 0.0.0.0.
pub record Config : Type 0 where
  pub port : ℕ
  pub database_url : String
  pub sms_hmac_secret : String
  pub webhook_hmac_secret : String
  pub redis_url : Option String
  pub static_dir : String
  pub admin_password : Option String
  pub auth_secret : String
  pub base_url : Option String

abbrev pub dev_secret : String
dev_secret = "dev-insecure-secret-change-me"

-- `.ok().filter(|s| !s.is_empty())`
abbrev pub nonempty : Option String → Option String
nonempty none = none
nonempty (some s) = if s == "" then none else some s

abbrev or_else : Option String → String → String
or_else none d = d
or_else (some s) d = s

-- `.parse::<u16>()`
abbrev pub parse_u16 : String → Option ℕ
parse_u16 s = elim (parse_u64 s) [ none ↦ none | some n ↦ if ltb n (2 ^ 16) then some n else none ]

module _ (var : String → Option String) where
  abbrev pub config_at : ℕ → Config
  config_at port = record {
    port = port;
    database_url = env_or var "DATABASE_URL" "sqlite://spritexai_pay.db?mode=rwc";
    sms_hmac_secret = env_or var "SMS_HMAC_SECRET" dev_secret;
    webhook_hmac_secret = env_or var "WEBHOOK_HMAC_SECRET" "dev-insecure-webhook-secret";
    redis_url = nonempty (var "REDIS_URL");
    static_dir = env_or var "STATIC_DIR" "./static";
    admin_password = nonempty (var "ADMIN_PASSWORD");
    auth_secret = or_else (nonempty (var "AUTH_SECRET")) (env_or var "SMS_HMAC_SECRET" dev_secret);
    base_url = nonempty (var "BASE_URL");
  }

  -- None is the error of a port that does not parse.
  unfoldable pub from_env : Option Config
  from_env = elim (parse_u16 (env_or var "PORT" "8080")) [
    | none ↦ none
    | some port ↦ some (config_at port)
  ]
