-- ===== src/Middleware.antt =====
-- internal/api/middleware.go: the address of a client, the two limiters in front of every route, the
-- session and the CSRF token. Times and durations are in nanoseconds.
pub mod Limits
pub mod Tokens
use contest_sync.Common.{
  ℕ, ◌*◌, ◌/◌, ◌^◌, Bool, true, false, ◌&&◌, ◌||◌, not, Option, none, some, List, [], ◌∷◌, ◌++◌,
  Bytes, codes, is_empty, index, contains, trim_space, take, bytes_eq, ltb, ◌==◌, if◌then◌else◌,
}
use contest_sync.Limiter.{Counters, allow}

-- What the code reads of an http.Request: r.Cookie("session") succeeds or not, and the headers, empty
-- where they are missing.
pub record Request : Type 0 where
  pub remote_addr : Bytes
  pub cf_connecting_ip : Bytes
  pub x_forwarded_for : Bytes
  pub x_real_ip : Bytes
  pub has_session : Bool
  pub cookie : Bytes
  pub set_cookie : Bytes
  pub x_csrf_token : Bytes

-- the first of the addresses of X-Forwarded-For
unfoldable pub first_address : Bytes → Bytes
first_address ip = elim (index ip (codes ",")) [ some i ↦ trim_space (take i ip) | none ↦ ip ]

abbrev pub or_address : Option Bytes → Bytes → Bytes
or_address none a = a
or_address (some host) a = host

-- getClientIP; the first argument is the test of TRUST_PROXY, the second net.SplitHostPort
unfoldable pub get_client_ip : Bool → (Bytes → Option Bytes) → Request → Bytes
get_client_ip trust_proxy split_host_port r =
    if trust_proxy && not (is_empty r.cf_connecting_ip)
    then r.cf_connecting_ip
    else if trust_proxy && not (is_empty r.x_forwarded_for)
    then first_address r.x_forwarded_for
    else if trust_proxy && not (is_empty r.x_real_ip)
    then r.x_real_ip
    else or_address (split_host_port r.remote_addr) r.remote_addr

-- earlyLimiter and globalLimiter
pub record Limiters : Type 0 where
  pub early : Counters
  pub global : Counters

-- next.ServeHTTP, or the status 429 with its Retry-After in seconds
pub data Verdict : Type 0 where
  served : Verdict
  too_many : ℕ → Verdict

abbrev pub second : ℕ
second = 10 ^ 9

-- the key of a route and an address in Valkey
unfoldable pub rate_key : Bytes → Bytes → Bytes
rate_key scope ip = codes "ratelimit:" ++ (scope ++ (codes ":" ++ ip))

-- A request as RateLimitMiddleware sees it: the address, the time, the pattern of the route, the
-- bound and the duration of the route. With a Valkey client, `incr` gives the counter behind the
-- pipeline for a key, or the error of the pipeline as `none`.
pub record Arrival : Type 0 where
  pub address : Bytes
  pub time : ℕ
  pub pattern_of_route : Bytes
  pub max : ℕ
  pub duration : ℕ
  pub incr : Option (Bytes → Option ℕ)

-- `scope`
abbrev pub scope_of : Bytes → Bytes
scope_of route = if is_empty route then codes "unmatched" else route

abbrev pub early_max : ℕ
early_max = 150

abbrev pub early_duration : ℕ
early_duration = 10 * second

-- the answer of globalLimiter
unfoldable pub by_global : Arrival → Limiters → Bool × Limiters
by_global a l =
    let (passes, g) = allow a.address a.max a.duration a.time l.global in
    (passes, record l { global = g })

-- `if valkeyClient != nil { … } else { … }`: whether the request passes
unfoldable pub by_route : Arrival → Option (Option ℕ) → Limiters → Bool × Limiters
by_route a none l = by_global a l
by_route a (some none) l = by_global a l
by_route a (some (some n)) l = (not (ltb a.max n), l)

abbrev pub counted : Arrival → Option (Bytes → Option ℕ) → Option (Option ℕ)
counted a none = none
counted a (some incr) = some (incr (rate_key (scope_of a.pattern_of_route) a.address))

-- the answer, from that of earlyLimiter and that of the route with the limiters behind each
abbrev pub judged : Arrival → Bool → Limiters → Bool × Limiters → Verdict × Limiters
judged a false l' r = (too_many 60, l')
judged a true l' (true, l'') = (served, l'')
judged a true l' (false, l'') = (too_many (a.duration / second), l'')

-- RateLimitMiddleware
unfoldable pub rate_limit : Arrival → Limiters → Verdict × Limiters
rate_limit a l =
    let (early_passes, e) = allow a.address early_max early_duration a.time l.early in
    let l' = record l { early = e } in judged a early_passes l' (by_route a (counted a a.incr) l')

-- What RequireAuth does: the request goes on as the user, or is answered by 401; and whether the
-- session is saved with the age -1, or with seven days.
pub data Admission : Type 0 where
  admitted : ℕ → Admission
  unauthorized : Admission

-- RequireAuth; the arguments are whether store.Get fails, and the value of user_id as an int
unfoldable pub require_auth : Bool → Option ℕ → Admission × Option Bool
require_auth true id = (unauthorized, some false)
require_auth false none = (unauthorized, none)
require_auth false (some id) = if id == 0 then (unauthorized, none) else (admitted id, some true)

unfoldable pub has_cookie : Request → Bool
has_cookie r =
    r.has_session
    || (contains r.cookie (codes "session=") || contains r.set_cookie (codes "session="))

-- the comparison of the tokens
unfoldable pub csrf_matches : Option Bytes → Bytes → Bool
csrf_matches none actual = false
csrf_matches (some expected) actual = not (is_empty expected) && bytes_eq expected actual

-- CSRFMiddleware: whether the request goes on; the token of the session as a string
unfoldable pub csrf_passes : Request → Option Bytes → Bool
csrf_passes r expected = if has_cookie r then csrf_matches expected r.x_csrf_token else true
