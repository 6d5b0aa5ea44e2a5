-- ===== src/Process.antt =====
-- The lives of the two processes, cmd/server/main.go and cmd/worker/main.go: what main opens, starts
-- and, on its way out, closes, by its deferred functions. log.Fatal ends the process at once, and runs
-- none of these. Where ListenAndServe fails, its goroutine ends the process before main goes on.
pub mod Released
use contest_sync.Common.{
  ℕ, Bool, true, false, ◌&&◌, not, ◌==◌, Option, none, some, List, [], ◌∷◌, ◌++◌, Bytes, codes,
  is_empty, length, if◌then◌else◌,
}
use contest_sync.World.Models.{Err}
use contest_sync.Config.{Config}
use contest_sync.Server.{startup_error}

-- what main opens and closes by a deferred call
pub data Resource : Type 0 where
  telegram metrics signals pool valkey queue scheduler : Resource

-- What main does; the goroutine that sends the event STARTUP and then listens is run where it starts.
pub data Step : Type 0 where
  opened closed : Resource → Step
  started_consumers listening event_startup event_shutdown shut_down waited_cleanups drained_queue :
      Step

-- The end of main: log.Fatal with its text, or a return.
pub data Life : Type 0 where
  exited : Bytes → List Step → Life
  returned : List Step → Life

-- What the start meets: whether there are metrics, os.Getenv of HCAPTCHA_SECRET, and the errors of
-- db.Init, redis.ParseURL, Ping, queue.New, of fs.Sub and NewStaticServer, and of ListenAndServe,
-- `none` where it listens until the shutdown.
pub record Surroundings : Type 0 where
  pub has_metrics : Bool
  pub hcaptcha_secret : Bytes
  pub pool_error : Option Err
  pub parse_error : Option Err
  pub ping_error : Option Err
  pub queue_error : Option Err
  pub static_error : Option Err
  pub listen_error : Option Err

abbrev pub fatal : Bytes → Life
fatal text = exited text []

-- a step, and the rest of main behind it
unfoldable pub also : Step → Life → Life
also s (exited text l) = exited text (s ∷ l)
also s (returned l) = returned (s ∷ l)

-- `r` is opened, its end is deferred, and the rest of main follows.
unfoldable pub defers : Resource → Life → Life
defers r (exited text l) = exited text (opened r ∷ l)
defers r (returned l) = returned (opened r ∷ (l ++ closed r ∷ []))

unfoldable pub defers_if : Bool → Resource → Life → Life
unfolding defers
defers_if true r life = defers r life
defers_if false r life = life

-- `if err != nil { log.Fatal… }`
unfoldable pub or_fatal : Bytes → Option Err → Life → Life
or_fatal text none life = life
or_fatal text (some e) life = fatal (text ++ e.text)

-- The manager that observability.Init makes is not nil.
abbrev pub has_telegram : Config → Bool
has_telegram cfg = not (is_empty cfg.telegram_proxy_url) && not (is_empty cfg.telegram_group_id)

abbrev pub step_if : Bool → Step → List Step → List Step
step_if true s l = s ∷ l
step_if false s l = l

unfoldable pub with_valkey : Config → Surroundings → Life → Life
unfolding defers or_fatal
with_valkey cfg o life =
    if is_empty cfg.valkey_uri
    then life
    else or_fatal (codes "failed to parse VALKEY_URI: ") o.parse_error
        (or_fatal (codes "failed to connect to Valkey: ") o.ping_error (defers valkey life))

-- from signal.NotifyContext to `defer q.Close()`
unfoldable pub with_services : Config → Surroundings → Life → Life
unfolding with_valkey defers or_fatal
with_services cfg o life = defers signals (
    or_fatal [] o.pool_error (
      defers pool (
        with_valkey cfg o
          (or_fatal (codes "failed to initialize queue: ") o.queue_error (defers queue life)))))

-- the first half of main, up to the checks
unfoldable pub observed : Config → Surroundings → Life → Life
unfolding defers_if
observed cfg o life = defers_if (has_telegram cfg) telegram (defers_if o.has_metrics metrics life)

-- behind ListenAndServe in its goroutine, with the rest of main: log.Fatalf where it fails
unfoldable pub unless_failed : Bytes → Option Err → List Step → Life
unless_failed text none l = returned l
unless_failed text (some e) l = exited (text ++ e.text) []

-- from ListenAndServe to the last line of main, with the text of its failure and the waits before
-- q.Drain
unfoldable pub serving : Config → Surroundings → Bytes → List Step → Life
unfolding also unless_failed
serving cfg o text waits =
    let rest =
      unless_failed text o.listen_error
        (step_if (has_telegram cfg) event_shutdown (shut_down ∷ (waits ++ drained_queue ∷ []))) in
    if has_telegram cfg then also event_startup (also listening rest) else also listening rest

-- main of cmd/worker
unfoldable pub worker_life : Config → Surroundings → Life
unfolding observed with_services also serving
worker_life cfg o = observed cfg o (
    if length cfg.encryption_key == 32
    then with_services cfg o
        (also started_consumers (serving cfg o (codes "failed to start worker: ") []))
    else fatal (codes "ENCRYPTION_KEY must be exactly 32 bytes"))

unfoldable pub unless_fatal : Option Bytes → Life → Life
unless_fatal none life = life
unless_fatal (some text) life = fatal text

-- main of cmd/server
unfoldable pub server_life : Config → Surroundings → Life
unfolding observed with_services also serving defers or_fatal unless_fatal startup_error
server_life cfg o = observed cfg o (
    unless_fatal (startup_error cfg o.hcaptcha_secret) (
      with_services cfg o (
        also started_consumers (
          defers scheduler (
            or_fatal [] o.static_error
              (serving cfg o (codes "failed to start server: ") (waited_cleanups ∷ [])))))))
