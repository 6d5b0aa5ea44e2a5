-- ===== src/Server.antt =====
-- cmd/server/main.go: the checks before the server starts, its routes, and what stands in front of
-- each. The router of chi is a parameter.
pub mod Guarded
pub mod Started
use contest_sync.Common.{
  ℕ, ◌*◌, Bool, true, false, not, ◌&&◌, ◌||◌, Option, none, some, List, [], ◌∷◌, ◌++◌, Bytes, codes,
  is_empty, bytes_eq, length, ◌==◌, if◌then◌else◌,
}
use contest_sync.Config.{Config}
use contest_sync.Middleware.{
  Request, Arrival, Limiters, Verdict, served, too_many, second, rate_limit, Admission, admitted,
  unauthorized, require_auth, csrf_passes,
}

-- The handlers that are registered.
pub data Handler : Type 0 where
  health_check serve_ical_feed google_login google_callback update_contests sync_all me
        get_platforms :
      Handler
  validate_calendar_access save_preferences manual_sync delete_account logout static_files : Handler

-- The middlewares: RateLimitMiddleware with its bound and duration, RequireAuth, CSRFMiddleware, and
-- those that let every request go on.
pub data Guard : Type 0 where
  request_id security_headers compress request_logger recoverer : Guard
  limit : ℕ → ℕ → Guard
  auth csrf : Guard

-- A route; `none` takes every method.
pub record Route : Type 0 where
  pub method : Option Bytes
  pub pattern_text : Bytes
  pub guards : List Guard
  pub handler : Handler

abbrev pub minutes : ℕ → ℕ
minutes n = n * (60 * second)

abbrev pub route : Bytes → Bytes → Handler → Route
route method path handler = record {
  method = some method;
  pattern_text = path;
  guards = [];
  handler = handler;
}

abbrev pub any_method : Bytes → Handler → Route
any_method path handler = record {
  method = none;
  pattern_text = path;
  guards = [];
  handler = handler;
}

-- `r.Group` with its `r.Use`: the guards stand before those of the routes
unfoldable pub group : List Guard → List Route → List Route
group guards [] = []
group guards (r ∷ rs) = record r { guards = guards ++ r.guards } ∷ group guards rs

abbrev pub admin_routes : List Route
admin_routes =
    route (codes "POST") (codes "/admin/update") update_contests
    ∷ route (codes "POST") (codes "/admin/sync") sync_all
    ∷ []

abbrev pub account_routes : List Route
account_routes =
    route (codes "POST") (codes "/preferences") save_preferences
    ∷ route (codes "POST") (codes "/sync") manual_sync
    ∷ route (codes "DELETE") (codes "/account") delete_account
    ∷ route (codes "POST") (codes "/auth/logout") logout
    ∷ []

abbrev pub user_routes : List Route
user_routes =
    route (codes "GET") (codes "/me") me
    ∷ route (codes "GET") (codes "/platforms") get_platforms
    ∷ []

abbrev pub open_routes : List Route
open_routes =
    any_method (codes "/health") health_check
    ∷ route (codes "GET") (codes "/feed/ical") serve_ical_feed
    ∷ route (codes "GET") (codes "/auth/google") google_login
    ∷ route (codes "GET") (codes "/auth/google/callback") google_callback
    ∷ []

abbrev pub base_guards : List Guard
base_guards =
    request_id
    ∷ security_headers
    ∷ limit 300 (minutes 1)
    ∷ compress
    ∷ request_logger
    ∷ recoverer
    ∷ []

-- the routes of the router r, in the order in which they are registered
unfoldable pub routes : List Route
unfolding group
routes = group base_guards (
    open_routes
    ++ (group (limit 10 (minutes 15) ∷ csrf ∷ []) admin_routes
        ++ (group (auth ∷ []) (
              user_routes
              ++ (group (limit 60 (minutes 1) ∷ []) (
                    route (codes "GET") (codes "/auth/calendar/validate") validate_calendar_access
                    ∷ [])
                  ++ group (csrf ∷ []) account_routes))
            ++ (any_method (codes "/*") static_files ∷ []))))

-- A request with its session: whether store.Get fails, and the values user_id, as an int, and
-- csrf_token, as a string. The rest is what RateLimitMiddleware needs; the pattern of the route that is
-- known by then depends on the middleware.
pub record Visit : Type 0 where
  pub request : Request
  pub get_fails : Bool
  pub user_id : Option ℕ
  pub csrf_token : Option Bytes
  pub address : Bytes
  pub time : ℕ
  pub pattern_at : ℕ → Bytes
  pub incr : Option (Bytes → Option ℕ)

abbrev pub arrival : Visit → ℕ → ℕ → Arrival
arrival v max duration = record {
  address = v.address;
  time = v.time;
  pattern_of_route = v.pattern_at max;
  max = max;
  duration = duration;
  incr = v.incr;
}

-- The handler with the user of the request's context, or the status of a refusal.
pub data Served : Type 0 where
  reached : Handler → Option ℕ → Served
  refused : ℕ → Served

abbrev pub limited : Verdict × Limiters → (Limiters → Served × Limiters) → Served × Limiters
limited (served, l) go = go l
limited (too_many after, l) go = (refused 429, l)

abbrev pub signed : Admission → Limiters → (ℕ → Served × Limiters) → Served × Limiters
signed (admitted id) l go = go id
signed unauthorized l go = (refused 401, l)

-- the chain of middlewares in front of a handler
unfoldable pub run : Visit → Handler → List Guard → Option ℕ → Limiters → Served × Limiters
run v h [] user l = (reached h user, l)
run v h (limit max duration ∷ gs) user l =
    limited (rate_limit (arrival v max duration) l) (run v h gs user)
run v h (auth ∷ gs) user l =
    signed (require_auth v.get_fails v.user_id).0 l (λ id. run v h gs (some id) l)
run v h (csrf ∷ gs) user l =
    let rest = run v h gs user l in
    if csrf_passes v.request v.csrf_token then rest else (refused 403, l)
run v h (request_id ∷ gs) user l = run v h gs user l
run v h (security_headers ∷ gs) user l = run v h gs user l
run v h (compress ∷ gs) user l = run v h gs user l
run v h (request_logger ∷ gs) user l = run v h gs user l
run v h (recoverer ∷ gs) user l = run v h gs user l

unfoldable pub serve_route : Visit → Option Route → Limiters → Served × Limiters
serve_route v none l = (refused 404, l)
serve_route v (some r) l = run v r.handler r.guards none l

-- chi, which takes one of the routes by the method and the path of a request
abbrev pub Router : Type 0
Router = Bytes → Bytes → List Route → Option Route

-- a request to the server
unfoldable pub serve : Router → Bytes → Bytes → Visit → Limiters → Served × Limiters
serve router method path v l = serve_route v (router method path routes) l

-- `cfg.Env != "development" && …`
abbrev pub is_deployed : Bytes → Bool
is_deployed env =
    not (bytes_eq env (codes "development"))
    && (not (bytes_eq env (codes "dev")) && not (bytes_eq env (codes "local")))

-- the checks of main before anything is opened, with os.Getenv of HCAPTCHA_SECRET: the text of
-- log.Fatal, or none
unfoldable pub startup_error : Config → Bytes → Option Bytes
startup_error cfg hcaptcha_secret =
    if not (length cfg.encryption_key == 32)
    then some (codes "ENCRYPTION_KEY must be exactly 32 bytes")
    else if is_empty cfg.session_secret
    then some (codes "SESSION_SECRET must be configured and non-empty")
    else if is_deployed cfg.env && is_empty hcaptcha_secret
    then some (codes "HCAPTCHA_SECRET must be configured in production")
    else none
