-- ===== src/Sync/Syncer.antt =====
-- The Syncer of internal/sync/sync.go, handleSyncError, and the calendar that SyncUser writes to.
use contest_sync.Common.{
  ℕ, Bool, true, false, ◌||◌, Option, none, some, Bytes, codes, contains, if◌then◌else◌,
}
use contest_sync.World.Models.{Err, user_cache_key}
use contest_sync.World.Calls.{Services, Pool, write_pool, read_pool, delete_user}
use contest_sync.World.Prog.{Prog, pure, ◌>>◌}
use contest_sync.World.Api.{execute, del}

-- Which of the pointers of the Syncer are set, and its key.
pub record Syncer : Type 0 where
  pub has_db : Bool
  pub has_read_db : Bool
  pub has_valkey : Bool
  pub has_telegram : Bool
  pub encryption_key : Bytes

-- `dbPool := s.ReadDB; if dbPool == nil { dbPool = s.DB }`
unfoldable pub pool_of : Syncer → Pool
pool_of s = if s.has_read_db then read_pool else write_pool

abbrev pub invalid_grant : Bytes
invalid_grant = codes "invalid_grant"

abbrev pub token_revoked : Bytes
token_revoked = codes "Token has been expired or revoked"

-- the errors that mean the user took the access back
unfoldable pub is_revoked : Err → Bool
is_revoked e = contains e.text invalid_grant || contains e.text token_revoked

-- the variable `err` of `if s.DB != nil` and `if s.Valkey != nil`
unfoldable pub skip : Prog (Option Err)
skip = pure none

module _ (S : Services) where
  -- the deletion of the account, where there are a database and a cache
  unfoldable pub wipe : Bool → Bool → ℕ → Prog (Bool × Option Err)
  unfolding skip
  wipe has_db has_valkey user_id = do
    if has_db then execute S (delete_user user_id) else skip
    if has_valkey then del S (user_cache_key user_id) else skip
    pure (true, none)

module _ (S : Services) (s : Syncer) where
  -- handleSyncError for an error that is not nil: whether the account was deleted, and its error
  unfoldable pub handle_sync_error : ℕ → Err → Prog (Bool × Option Err)
  handle_sync_error user_id e =
      if is_revoked e then wipe S s.has_db s.has_valkey user_id else pure (false, some e)
