-- ===== src/Web/Admin.antt =====
-- internal/api/admin_handlers.go.
pub mod Report
use contest_sync.Common.{
  ℕ, ◌*◌, Bool, true, false, ◌&&◌, ◌||◌, not, Option, none, some, List, [], ◌∷◌, ◌++◌, Bytes, codes,
  is_empty, bytes_eq, ltb, ◌==◌, length, if◌then◌else◌,
}
use contest_sync.World.Models.{Err, Result, ok, err}
use contest_sync.World.Calls.{
  Services, Pool, write_pool, read_pool, probe_read, probe_begin, probe_write, queue_health,
}
use contest_sync.World.Prog.{Prog, pure, leave, ◌>>=◌, ◌>>◌}
use contest_sync.World.Api.{get, set, del}
use contest_sync.Auth.{plain_error}
use contest_sync.Scheduler.Tasks.{run_extraction, run_sync_all}
use contest_sync.Web.Calls.{WebServices, refuse, problem, ask}

-- AdminHandlers, with the two services
pub record AdminHandlers : Type 0 where
  pub admin_password : Bytes
  pub has_read_db : Bool
  pub has_valkey : Bool
  pub has_queue : Bool
  pub services : Services
  pub web : WebServices

pub data Health : Type 0 where
  healthy : Health
  unhealthy : Err → Health
  not_configured : Health

-- the map of services, and whether the whole is ok, which is reported by 200, or degraded, by 503
pub record HealthResponse : Type 0 where
  pub ok : Bool
  pub postgres : Health
  pub valkey : Health
  pub queue : Health

-- A failed check is an error.
abbrev pub health_of : Option Err → Health
health_of none = healthy
health_of (some e) = unhealthy e

abbrev pub is_healthy : Health → Bool
is_healthy healthy = true
is_healthy (unhealthy e) = false
is_healthy not_configured = true

unfoldable pub wrapped : Bytes → Err → Err
wrapped text e = plain_error (text ++ e.text)

module _ (h : AdminHandlers) where
  open h use {services, web}

  -- subtle.ConstantTimeCompare compares like `==`.
  unfoldable pub require_admin : Bytes → Bool
  require_admin pass =
      if ltb 256 (length pass)
      then false
      else not (is_empty h.admin_password || not (bytes_eq pass h.admin_password))

  -- the first query of checkPostgres; its result is 2
  unfoldable pub read_checked : Bytes → Result ℕ → Option Err
  read_checked text (err e) = some (wrapped text e)
  read_checked text (ok result) =
      if result == 2 then none else some (plain_error (text ++ codes "%!w(<nil>)"))

  unfoldable pub write_checked : Option Err → Prog (Option Err)
  write_checked (some e) = pure (some (wrapped (codes "write-path exec failed: ") e))
  write_checked none = pure none

  unfoldable pub begin_checked : Option Err → Prog (Option Err)
  begin_checked (some e) = pure (some (wrapped (codes "begin write transaction failed: ") e))
  begin_checked none = do answer ← ask probe_write web.on_probe_write; write_checked answer

  unfoldable pub check_write_path : Option Err → Prog (Option Err)
  check_write_path (some e) = pure (some e)
  check_write_path none = do answer ← ask probe_begin web.on_probe_begin; begin_checked answer

  unfoldable pub check_postgres : Prog (Option Err)
  check_postgres = do
    let pool = if h.has_read_db then read_pool else write_pool
    let text =
        if h.has_read_db then codes "read pool check failed: " else codes "read query failed: "
    answer ← ask (probe_read pool) (λ t. web.on_probe_read t pool)
    check_write_path (read_checked text answer)

  -- the texts of the errors are cut behind the colon
  unfoldable pub value_checked : Bytes → Option Bytes → Prog (Option Err)
  value_checked key none = pure (some (plain_error (codes "read failed")))
  value_checked key (some val) =
      if bytes_eq val (codes "1")
      then (do del services key; pure none)
      else pure (some (plain_error (codes "read returned unexpected value")))

  unfoldable pub set_checked : Bytes → Option Err → Prog (Option Err)
  set_checked key (some e) = pure (some (wrapped (codes "write failed: ") e))
  set_checked key none = do val ← get services key; value_checked key val

  unfoldable pub check_valkey_at : Bytes → Prog (Option Err)
  check_valkey_at key = do answer ← set services key (codes "1") 10; set_checked key answer

  unfoldable pub check_valkey : Prog (Option Err)
  check_valkey w = check_valkey_at (codes "__health:" ++ (web.unix_nano w.trace ++ codes "__")) w

  unfoldable pub check_queue : Prog (Option Err)
  check_queue = ask queue_health web.on_queue_health

  -- a component of the service, where it is configured
  unfoldable pub component : Bool → Prog (Option Err) → Prog Health
  component false check = pure not_configured
  component true check = do answer ← check; pure (health_of answer)

  unfoldable pub response_of : Health → Health → Health → HealthResponse
  response_of postgres valkey queue = record {
    ok = is_healthy postgres && (is_healthy valkey && is_healthy queue);
    postgres = postgres;
    valkey = valkey;
    queue = queue;
  }

  -- the three checks
  unfoldable pub check_services : Prog HealthResponse
  check_services = do
    postgres ← component true check_postgres
    valkey ← component h.has_valkey check_valkey
    queue ← component h.has_queue check_queue
    pure (response_of postgres valkey queue)

  -- HealthCheck of a POST
  unfoldable pub health_check : Bytes → Prog HealthResponse
  health_check pass =
      if require_admin pass then check_services else refuse 401 (codes "unauthorized")

  -- HealthCheck by its method; `none` is the reply "healthy".
  unfoldable pub health_request : Bytes → Bytes → Prog (Option HealthResponse)
  health_request method pass =
      if bytes_eq method (codes "POST")
      then (do response ← health_check pass; pure (some response))
      else pure none

  -- UpdateContests and SyncAll: a run of the scheduler behind requireAdmin
  unfoldable pub update_contests : Bytes → List Bytes → Prog (Unit {0})
  update_contests pass names =
      if require_admin pass then run_extraction names else refuse 401 (codes "unauthorized")

  unfoldable pub sync_all : Bytes → (ℕ → Option (List (Option ℕ))) → ℕ → Prog (Unit {0})
  sync_all pass query passes =
      if require_admin pass then run_sync_all query passes else refuse 401 (codes "unauthorized")
