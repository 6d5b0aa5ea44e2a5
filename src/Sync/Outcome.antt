-- ===== src/Sync/Outcome.antt =====
-- The status that SyncUser writes, and what it reports after it has deleted an account.
use contest_sync.Common.{ℕ, ◌≡◌, Bool, true, false, Option, none, some, [], ◌∷◌, Bytes}
use contest_sync.World.Models.{Err, ok, CachedUser, user_cache_key}
use contest_sync.World.Calls.{
  Trace, Entry, Status, exec, valkey_del, finish_sync, mark_syncing, delete_user, new_service,
  get_primary, Services,
}
use contest_sync.World.Prog.{World}
use contest_sync.World.Emits.{Emits}
use contest_sync.Auth.{decrypt_token}
use contest_sync.Sync.User.{Env}

status_in : Entry → Option Status
status_in (exec (finish_sync s u)) = some s
status_in _ = none

or_else {ℓ} : {A : Type ℓ} → Option A → Option A → Option A
or_else none b = b
or_else (some a) b = some a

-- The status that was written last.
unfoldable pub last_status : Trace → Option Status
unfolding status_in or_else
last_status [] = none
last_status (e ∷ t) = or_else (status_in e) (last_status t)

abbrev Quiet : Entry → Type 0
Quiet e = status_in e ≡ none

-- the world behind the deletion of an account
wiped : Services → Bool → ℕ → World → World
wiped S true u w = record w {
  trace = valkey_del (user_cache_key u) ∷ exec (delete_user u) ∷ w.trace;
}
wiped S false u w = record w { trace = exec (delete_user u) ∷ w.trace }

module _ (E : Env) (u : ℕ) (w : World) (v : CachedUser) (token : Bytes) (e : Err)
    (decrypted : decrypt_token E.cipher v.refresh_token E.syncer.encryption_key ≡ ok token) where
  open E use {services, syncer}

  -- the trace at the call of Calendars.Get
  asked : Trace
  asked = new_service token ∷ exec (mark_syncing u) ∷ w.trace

  before : World
  unfolding asked
  before = record w { trace = get_primary ∷ asked; calendar_id = v.calendar_id }
