-- ===== src/World/Models.antt =====
-- models/models.go: the records, the keys of the cache, and the errors of Go as values.
use contest_sync.Common.{ℕ, ◌*◌, Bool, Option, List, ◌++◌, Bytes, codes, itoa}

-- An error: its text, and its status code where it is a *googleapi.Error.
pub record Err : Type 0 where
  pub text : Bytes
  pub code : Option ℕ

pub data Result {ℓ} (A : Type ℓ) : Type ℓ where
  ok : A → Result A
  err : Err → Result A

pub record CachedUser : Type 0 where
  pub id : ℕ
  pub google_id : Bytes
  pub email : Bytes
  pub refresh_token : Bytes
  pub calendar_id : Bytes
  pub use_dedicated : Bool
  pub platforms : List Bytes
  pub has_calendar_access : Bool

-- A contest as the SELECT statements read it; times are Unix seconds.
pub record Contest : Type 0 where
  pub id : Bytes
  pub name : Bytes
  pub url : Bytes
  pub start_time : ℕ
  pub end_time : ℕ
  pub platform : Bytes

-- durations in seconds
abbrev pub user_cache_ttl : ℕ
user_cache_ttl = 24 * 3600

abbrev pub contests_cache_ttl : ℕ
contests_cache_ttl = 12 * 3600

abbrev pub synced_events_cache_ttl : ℕ
synced_events_cache_ttl = 24 * 3600

abbrev pub platforms_cache_ttl : ℕ
platforms_cache_ttl = 24 * 3600

unfoldable pub user_cache_key : ℕ → Bytes
user_cache_key user_id = codes "cache:user:v2:" ++ itoa user_id

unfoldable pub contests_cache_key : Bytes → Bytes
contests_cache_key platform = codes "cache:contests:" ++ platform

unfoldable pub synced_events_cache_key : ℕ → Bytes
synced_events_cache_key user_id = codes "cache:synced_events:" ++ itoa user_id

unfoldable pub platforms_cache_key : Bytes
platforms_cache_key = codes "cache:platforms"

-- fmt.Sprintf("lock:sync:%d", userID) of SyncUser
unfoldable pub lock_key : ℕ → Bytes
lock_key user_id = codes "lock:sync:" ++ itoa user_id

-- fmt.Sprintf("user:last_sync_at:%d", userID) of SyncUser and ManualSync
unfoldable pub last_sync_key : ℕ → Bytes
last_sync_key user_id = codes "user:last_sync_at:" ++ itoa user_id

-- CalendarValidationCacheKey of internal/api/handlers.go
unfoldable pub calendar_validation_cache_key : ℕ → Bytes
calendar_validation_cache_key user_id = codes "user:cal_val:" ++ itoa user_id
