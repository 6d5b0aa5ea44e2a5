-- ===== src/Config.antt =====
-- config/config.go: what Load makes of the environment.
use contest_sync.Common.{ℕ, zero, suc, Option, none, some, Bytes, codes, is_empty, if◌then◌else◌}
use contest_sync.Web.Calls.{ℤ, pos, negsuc}

-- os.Getenv, hex.DecodeString, and the number that strconv.Atoi gives, whatever its error is
pub record Environment : Type 0 where
  pub getenv : Bytes → Bytes
  pub of_hex : Bytes → Option Bytes
  pub atoi : Bytes → ℤ

pub record Config : Type 0 where
  pub database_url : Bytes
  pub read_database_urls : Bytes
  pub connection_limit : ℤ
  pub connection_pool_limit : ℤ
  pub google_client_id : Bytes
  pub google_client_secret : Bytes
  pub google_redirect_url : Bytes
  pub session_secret : Bytes
  pub encryption_key : Bytes
  pub port : Bytes
  pub worker_port : Bytes
  pub env : Bytes
  pub admin_password : Bytes
  pub amqp_url : Bytes
  pub valkey_uri : Bytes
  pub telegram_proxy_url : Bytes
  pub proxy_secret_key : Bytes
  pub telegram_group_id : Bytes
  pub telegram_group_topic_id : Bytes
  pub from : Bytes

-- `if connLimit == 0 { connLimit = … }`
unfoldable pub limit_or : ℕ → ℤ → ℤ
limit_or default (pos zero) = pos default
limit_or default (pos (suc n)) = pos (suc n)
limit_or default (negsuc n) = negsuc n

-- `if port == "" { port = … }`
unfoldable pub text_or : Bytes → Bytes → Bytes
text_or default text = if is_empty text then default else text

module _ (e : Environment) where
  open e use {getenv}

  unfoldable pub config_of : Bytes → Bytes → Config
  config_of session_secret encryption_key = record {
    database_url = getenv (codes "POSTGRES_DB");
    read_database_urls = getenv (codes "POSTGRES_READ_DB");
    connection_limit = limit_or 800 (e.atoi (getenv (codes "CONNECTION_LIMIT")));
    connection_pool_limit = limit_or 10000 (e.atoi (getenv (codes "CONNECTION_POOL_LIMIT")));
    google_client_id = getenv (codes "GOOGLE_CLIENT_ID");
    google_client_secret = getenv (codes "GOOGLE_CLIENT_SECRET");
    google_redirect_url = getenv (codes "GOOGLE_REDIRECT_URL");
    session_secret = session_secret;
    encryption_key = encryption_key;
    port = text_or (codes "8080") (getenv (codes "PORT"));
    worker_port =
        text_or (codes "8081") (text_or (getenv (codes "PORT")) (getenv (codes "WORKER_PORT")));
    env = text_or (codes "development") (getenv (codes "ENV"));
    admin_password = getenv (codes "ADMIN_PASSWORD");
    amqp_url = text_or (getenv (codes "AMQP_URL")) (getenv (codes "CLOUDAMQP_URL"));
    valkey_uri = getenv (codes "VALKEY_URI");
    telegram_proxy_url = getenv (codes "TG_PROXY_URL");
    proxy_secret_key =
        text_or (getenv (codes "ProxySecretKey")) (getenv (codes "PROXY_SECRET_KEY"));
    telegram_group_id = getenv (codes "TG_GROUP_ID");
    telegram_group_topic_id = getenv (codes "TG_GROUP_TOPIC_ID");
    from = getenv (codes "FROM");
  }

  unfoldable pub load_with : Option Bytes → Option Bytes → Option Config
  load_with (some session_secret) (some encryption_key) =
      some (config_of session_secret encryption_key)
  load_with (some session_secret) none = none
  load_with none key = none

  -- Load; `none` is the end of the process by log.Fatalf.
  unfoldable pub load : Option Config
  load =
      load_with (e.of_hex (getenv (codes "SESSION_SECRET")))
        (e.of_hex (getenv (codes "ENCRYPTION_KEY")))
