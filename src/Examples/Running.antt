-- ===== src/Examples/Running.antt =====
-- The two processes: a request to the server, a start of each, and the pools of the database.
use contest_sync.Common.{
  ℕ, suc, refl, Bool, true, false, Option, none, some, List, [], ◌∷◌, Bytes, codes, bytes_eq, ◌&&◌,
  ◌||◌, if◌then◌else◌, if_split, inl, inr,
}
use contest_sync.Web.Calls.{pos}
use contest_sync.Config.{Config}
use contest_sync.Middleware.{Request, has_cookie}
use contest_sync.Server.{Visit, Route, serve}
use contest_sync.Server.Guarded.{IsRegistered, Guarded, serve-Guarded}
use contest_sync.Process.{Surroundings, server_life, worker_life}
use contest_sync.Process.Released.{Keeps, lives-Keeps}
use contest_sync.Db.Opened.{Connect, unreachable, reached, Opened}
use contest_sync.Auth.{plain_error}

abbrev request : Request
request = record {
  remote_addr = codes "10.0.0.1";
  cf_connecting_ip = [];
  x_forwarded_for = [];
  x_real_ip = [];
  has_session = true;
  cookie = [];
  set_cookie = [];
  x_csrf_token = codes "t";
}

abbrev visit : Visit
visit = record {
  request = request;
  get_fails = false;
  user_id = some 7;
  csrf_token = some (codes "t");
  address = codes "10.0.0.1";
  time = 5;
  pattern_at = λ n. codes "/sync";
  incr = none;
}

-- a router that takes the first route that fits, where `/*` fits every path
abbrev method_fits : Option Bytes → Bytes → Bool
method_fits none method = true
method_fits (some m) method = bytes_eq m method

fits : Bytes → Bytes → Route → Bool
fits method path r =
    method_fits r.method method
    && (bytes_eq r.pattern_text path || bytes_eq r.pattern_text (codes "/*"))

find_route : Bytes → Bytes → List Route → Option Route
find_route method path [] = none
find_route method path (r ∷ rs) =
    let rest = find_route method path rs in if fits method path r then some r else rest

find_route-IsRegistered :
    (method path : Bytes) (rs : List Route) → IsRegistered (find_route method path rs) rs
unfolding find_route
find_route-IsRegistered method path [] = tt
find_route-IsRegistered method path (r ∷ rs) =
    if_split (λ (o : Option Route). IsRegistered o (r ∷ rs)) (fits method path r) (λ _. inl refl)
      (λ _. later (find_route method path rs) (find_route-IsRegistered method path rs))
  where
    later : (o : Option Route) → IsRegistered o rs → IsRegistered o (r ∷ rs)
    later none i = tt
    later (some s) i = inr i

serve-Guarded_example :
    Guarded visit
      (serve find_route (codes "POST") (codes "/sync") visit (record { early = []; global = [] })).0
unfolding has_cookie
serve-Guarded_example =
    serve-Guarded visit (λ e. cc) find_route find_route-IsRegistered (codes "POST") (codes "/sync")
      (record { early = []; global = [] })

abbrev config : Config
config = record {
  database_url = codes "postgres://db";
  read_database_urls = [];
  connection_limit = pos 10;
  connection_pool_limit = pos 100;
  google_client_id = [];
  google_client_secret = [];
  google_redirect_url = [];
  session_secret = codes "secret";
  encryption_key = codes "0123456789abcdef0123456789abcdef";
  port = codes "8080";
  worker_port = codes "8081";
  env = codes "production";
  admin_password = codes "pw";
  amqp_url = [];
  valkey_uri = codes "redis://cache";
  telegram_proxy_url = codes "https://proxy";
  proxy_secret_key = [];
  telegram_group_id = codes "g";
  telegram_group_topic_id = [];
  from = [];
}

abbrev surroundings : Surroundings
surroundings = record {
  has_metrics = true;
  hcaptcha_secret = codes "hc";
  pool_error = none;
  parse_error = none;
  ping_error = none;
  queue_error = none;
  static_error = none;
  listen_error = none;
}

lives-Keeps_example :
    Keeps surroundings (codes "failed to start server: ") [] (server_life config surroundings)
    × Keeps surroundings (codes "failed to start worker: ") [] (worker_life config surroundings)
lives-Keeps_example = lives-Keeps config surroundings

-- The second replica does not answer.
abbrev dials : ℕ → Bytes → Connect
dials (suc (suc n)) url = unreachable (plain_error (codes "timeout"))
dials n url = reached

abbrev opened : Opened
opened = record {
  reads = 1 ∷ [];
  skipped = unreachable (plain_error (codes "timeout")) ∷ [];
  count = 3;
}
