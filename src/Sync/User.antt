-- ===== src/Sync/User.antt =====
-- SyncUser of internal/sync/sync.go, put together from its phases: the lock, the user, the two
-- deferred functions, and what stands between them.
use contest_sync.Common.{
  ℕ, suc, Bool, true, false, ◌||◌, Option, none, some, List, [], ◌∷◌, ◌++◌, take, Bytes, codes,
  index, ◌==◌, if◌then◌else◌,
}
use contest_sync.World.Models.{Err, Result, ok, err, CachedUser, lock_key, last_sync_key}
use contest_sync.World.Calls.{
  Services, Codec, Status, success, failed, mark_syncing, finish_sync, Notice, sync_success,
  sync_failure,
}
use contest_sync.World.Prog.{
  World, Prog, Flow, next, return, pure, leave, error_of, or_return, set_calendar_id,
  get_calendar_id, ◌>>=◌, ◌>>◌,
}
use contest_sync.World.Api.{setnx, set, del, execute, new_calendar_service, telegram}
use contest_sync.Auth.{Cipher, decrypt_token}
use contest_sync.Sync.Syncer.{Syncer, skip}
use contest_sync.Sync.Load.{
  load_user, primary_timezone, resolve_calendar, load_synced, load_contests,
}
use contest_sync.Sync.Cleanup.{cleanup_unselected}
use contest_sync.Sync.Insert.{sync_contests, invalidate_synced}
use contest_sync.Telegram.Escape.{escape_telegram_html}

-- `errStr[:idx] + "[REDACTED]"` in front of an `@` that is not the first character
unfoldable pub redacted : Bytes → Bytes
redacted text = elim (index text (codes "@")) [
  | some (suc i) ↦ take (suc i) text ++ codes "[REDACTED]"
  | _ ↦ text
]

-- What SyncUser runs on: the services, the formats, the hash, the cipher, and the Syncer.
pub record Env : Type 0 where
  pub services : Services
  pub codec : Codec
  pub md5 : Bytes → Bytes
  pub cipher : Cipher
  pub syncer : Syncer

abbrev pub already_syncing : Err
already_syncing = record { text = codes "user already syncing"; code = none }

abbrev pub fail_if : Option Err → Prog (Unit {0})
fail_if none = pure tt
fail_if (some e) = leave (some e)

-- the notice of the deferred function, from retErr and user.CalendarID
unfoldable pub notice_of : ℕ → Option Err → Bytes → Notice
notice_of user_id none cal = sync_success user_id (escape_telegram_html cal)
notice_of user_id (some e) cal = sync_failure user_id (escape_telegram_html (redacted e.text))

abbrev pub status_of : Option Err → Status
status_of none = success
status_of (some e) = failed

-- slices.Contains, for the local map of users
unfoldable pub holds : ℕ → List ℕ → Bool
holds u [] = false
holds u (v ∷ vs) = (v == u) || holds u vs

-- syncingUsers.Delete
unfoldable pub without : ℕ → List ℕ → List ℕ
without u [] = []
without u (v ∷ vs) = let rest = without u vs in if v == u then rest else v ∷ rest

-- `if s.OnTelegramEvent != nil { … }` of the deferred function; user.CalendarID is read there
-- The goroutine that sends the notice is run when it is started.
unfoldable pub announce : Syncer → ℕ → Option Err → Prog (Unit {0})
announce s user_id e =
    if s.has_telegram
    then (do cal ← get_calendar_id; telegram (notice_of user_id e cal))
    else pure tt

module _ (E : Env) where
  open E use {services, codec, md5, cipher, syncer}

  -- from `if len(platforms) == 0` on
  unfoldable pub body : ℕ → CachedUser → Bytes → List Bytes → List Bytes → Prog (Unit {0})
  body user_id u zone synced [] = leave none
  body user_id u zone synced (p ∷ ps) = do
    contests ← load_contests services codec syncer (p ∷ ps)
    any ← sync_contests services codec md5 syncer u zone user_id synced contests false
    invalidate_synced services syncer user_id any

  -- the statements behind the second defer
  unfoldable pub sync_calendar : ℕ → CachedUser → Prog (Unit {0})
  sync_calendar user_id u = do
    refresh_token ← or_return (decrypt_token cipher u.refresh_token syncer.encryption_key)
    service_err ← new_calendar_service services refresh_token
    fail_if service_err
    zone ← primary_timezone services codec syncer user_id
    resolve_calendar services codec syncer user_id u zone
    cleanup_unselected services syncer user_id u.platforms
    synced ← load_synced services codec syncer user_id
    body user_id u zone synced u.platforms

  -- the time of the synchronisation, into the cache
  unfoldable pub stamp : ℕ → Prog (Option Err)
  unfolding skip
  stamp user_id =
      if syncer.has_valkey
      then (λ w. set services (last_sync_key user_id) (services.now_rfc3339 w.trace) 3600 w)
      else skip

  -- the second deferred function
  unfoldable pub finish : ℕ → Option Err → Prog (Unit {0})
  finish user_id e = do
    execute services (finish_sync (status_of e) user_id)
    stamp user_id
    announce syncer user_id e

  -- the function once the user is known, up to its second defer
  unfoldable pub stage : ℕ → CachedUser → Prog (Unit {0})
  stage user_id u = do
    set_calendar_id u.calendar_id
    execute services (mark_syncing user_id)
    sync_calendar user_id u

  -- the same with the deferred function behind it
  unfoldable pub sync_loaded : ℕ → CachedUser → World → Option Err × World
  sync_loaded user_id u w =
      let (r, w1) = stage user_id u w in (error_of r, (finish user_id (error_of r) w1).1)

  unfoldable pub loaded : ℕ → Flow CachedUser → World → Option Err × World
  loaded user_id (return e) w = (e, w)
  loaded user_id (next u) w = sync_loaded user_id u w

  -- the function inside its lock
  unfoldable pub sync_locked : ℕ → World → Option Err × World
  sync_locked user_id w =
      let (r, w1) = load_user services codec syncer user_id w in loaded user_id r w1

  unfoldable pub unlock : ℕ → Option Err × World → Option Err × World
  unlock user_id (e, w) = (e, (del services (lock_key user_id) w).1)

  unfoldable pub lock_answer : ℕ → Result Bool → World → Option Err × World
  lock_answer user_id (err e) w = (some e, w)
  lock_answer user_id (ok false) w = (some already_syncing, w)
  lock_answer user_id (ok true) w = unlock user_id (sync_locked user_id w)

  unfoldable pub release : ℕ → Option Err × World → Option Err × World
  release user_id (e, w) = (e, record w { syncing = without user_id w.syncing })

  unfoldable pub sync_local : ℕ → World → Option Err × World
  sync_local user_id w =
      if holds user_id w.syncing
      then (some already_syncing, w)
      else release user_id (sync_locked user_id (record w { syncing = user_id ∷ w.syncing }))

  -- `if s.Valkey != nil` around the lock
  unfoldable pub lock_by : Bool → ℕ → World → Option Err × World
  lock_by true user_id w =
      lock_answer user_id (services.on_setnx w.trace (lock_key user_id))
        (setnx services (lock_key user_id) w).1
  lock_by false user_id w = sync_local user_id w

  unfoldable pub sync_user : ℕ → World → Option Err × World
  sync_user user_id w = lock_by syncer.has_valkey user_id w
