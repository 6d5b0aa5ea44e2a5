-- ===== src/Worker.antt =====
-- The HTTP handlers of cmd/worker/main.go.
pub mod Health
use contest_sync.Common.{
  ℕ, Bool, true, false, ◌&&◌, ◌||◌, not, Option, none, some, List, [], ◌∷◌, ◌++◌, Bytes, codes,
  is_empty, bytes_eq, ltb, length, if◌then◌else◌,
}
use contest_sync.World.Models.{Err}

-- What the handler has: cfg.AdminPassword, and whether pool.ReadDB() and the client of Valkey are not
-- nil. The pool and the queue are not nil, since main ends where they cannot be made.
pub record Worker : Type 0 where
  pub admin_password : Bytes
  pub has_read_db : Bool
  pub has_valkey : Bool

-- a call of the handler to a service
pub data Probe : Type 0 where
  query_read begin_write rollback ping queue_health : Probe

-- what the services answer, an error or nil
pub record Answers : Type 0 where
  pub on_query : Option Err
  pub on_begin : Option Err
  pub on_ping : Option Err
  pub on_queue : Option Err

pub data Status : Type 0 where
  healthy not_configured : Status
  unhealthy : Err → Status

pub data Reply : Type 0 where
  -- "/", and "/health" of another method than POST
  page alive : Reply
  unauthorized : Reply
  -- the states of postgres, valkey and kafka: with 200 where `ok` is "ok", with 503 where it is "degraded"
  services : Bool → Status → Status → Status → Reply

abbrev pub state_of : Option Err → Status
state_of none = healthy
state_of (some e) = unhealthy e

abbrev pub is_fine : Status → Bool
is_fine healthy = true
is_fine not_configured = true
is_fine (unhealthy e) = false

-- the transaction: begun, and rolled back where it could be begun
unfoldable pub begin_probe : Option Err → List Probe × Option Err
begin_probe none = (begin_write ∷ rollback ∷ [], none)
begin_probe (some e) = (begin_write ∷ [], some e)

-- behind the query: `if pgErr == nil { … }`
unfoldable pub query_probe : Option Err → Option Err → List Probe × Option Err
unfolding begin_probe
query_probe (some e) begins = (query_read ∷ [], some e)
query_probe none begins = (query_read ∷ (begin_probe begins).0, (begin_probe begins).1)

unfoldable pub postgres_probe : Worker → Answers → List Probe × Option Err
unfolding query_probe begin_probe
postgres_probe w a =
    if w.has_read_db then query_probe a.on_query a.on_begin else begin_probe a.on_begin

unfoldable pub valkey_probe : Worker → Answers → List Probe × Status
valkey_probe w a = if w.has_valkey then (ping ∷ [], state_of a.on_ping) else ([], not_configured)

-- the password of the header
unfoldable pub admits_password : Worker → Bytes → Bool
admits_password w pass =
    not (ltb 256 (length pass))
    && not (is_empty w.admin_password || not (bytes_eq pass w.admin_password))

unfoldable pub reported : Status → Status → Status → Reply
reported postgres valkey queue =
    services (is_fine postgres && (is_fine valkey && is_fine queue)) postgres valkey queue

-- the probes in their order, and the reply
unfoldable pub probed : Worker → Answers → Reply × List Probe
unfolding postgres_probe valkey_probe reported
probed w a = (
  reported (state_of (postgres_probe w a).1) (valkey_probe w a).1 (state_of a.on_queue),
  (postgres_probe w a).0 ++ ((valkey_probe w a).0 ++ queue_health ∷ []),
)

unfoldable pub health_report : Worker → Bytes → Bytes → Answers → Reply × List Probe
unfolding admits_password probed
health_report w method pass a =
    if bytes_eq method (codes "POST")
    then if admits_password w pass then probed w a else (unauthorized, [])
    else (alive, [])

-- the mux: "/health", and "/" for every other path
unfoldable pub serve : Worker → Bytes → Bytes → Bytes → Answers → Reply × List Probe
unfolding health_report
serve w path method pass a =
    if bytes_eq path (codes "/health") then health_report w method pass a else (page, [])
