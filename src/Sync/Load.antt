-- ===== src/Sync/Load.antt =====
-- The phases of SyncUser (internal/sync/sync.go) that read: the user, the calendar, the events that
-- are already there, and the contests. Each looks into the cache first, where there is one.
use contest_sync.Common.{
  ℕ, false, ◌&&◌, not, Option, none, some, List, [], ◌∷◌, ◌++◌, Bytes, codes, is_empty, bytes_eq,
  if◌then◌else◌,
}
use contest_sync.World.Models.{
  Err, Result, ok, err, CachedUser, Contest, user_cache_key, user_cache_ttl, contests_cache_key,
  contests_cache_ttl, synced_events_cache_key, synced_events_cache_ttl,
}
use contest_sync.World.Calls.{Services, Codec, UserRow, set_calendar}
use contest_sync.World.Prog.{Prog, pure, leave, set_calendar_id, or_return, ◌>>=◌, ◌>>◌}
use contest_sync.World.Api.{
  get, set, del, execute, select_user, select_synced, select_contests, primary_calendar,
  calendars_insert,
}
use contest_sync.Sync.Syncer.{Syncer, pool_of, skip, handle_sync_error}

abbrev pub bind_option {ℓ} : {A B : Type ℓ} → Option A → (A → Option B) → Option B
bind_option none f = none
bind_option (some a) f = f a

-- The rows whose Scan succeeds.
unfoldable pub scanned {ℓ} : {A : Type ℓ} → List (Option A) → List A
scanned [] = []
scanned (none ∷ rows) = scanned rows
scanned (some a ∷ rows) = a ∷ scanned rows

-- `cachedUser.CalendarID = ""`, and the column's text where it is not NULL
abbrev pub text_or_empty : Option Bytes → Bytes
text_or_empty none = []
text_or_empty (some t) = t

-- The user as the SELECT of SyncUser fills it in: has_calendar_access is not read.
unfoldable pub user_of_row : UserRow → CachedUser
user_of_row r = record {
  id = r.id;
  google_id = r.google_id;
  email = r.email;
  refresh_token = r.refresh_token;
  calendar_id = text_or_empty r.calendar_id;
  use_dedicated = r.use_dedicated;
  platforms = r.platforms;
  has_calendar_access = false;
}

module _ (S : Services) (J : Codec) (s : Syncer) where
  -- what the cache holds under a key, if there is a cache
  unfoldable pub cached : Bytes → Prog (Option Bytes)
  cached key = if s.has_valkey then get S key else pure none

  unfoldable pub store : Bytes → Bytes → ℕ → Prog (Option Err)
  unfolding skip
  store key val ttl = if s.has_valkey then set S key val ttl else skip

  unfoldable pub read_user : ℕ → Option CachedUser → Prog CachedUser
  read_user user_id (some u) = pure u
  read_user user_id none = do
    answer ← select_user S (pool_of s) user_id
    row ← or_return answer
    let u = user_of_row row
    store (user_cache_key user_id) (J.marshal_user u) user_cache_ttl
    pure u

  unfoldable pub load_user : ℕ → Prog CachedUser
  load_user user_id = do
    val ← cached (user_cache_key user_id)
    read_user user_id (bind_option val J.unmarshal_user)

  -- fmt.Errorf("failed to fetch primary calendar: %w", err)
  unfoldable pub fetch_failed : Err → Err
  fetch_failed e = record {
    text = codes "failed to fetch primary calendar: " ++ e.text;
    code = none;
  }

  unfoldable pub zone_of : ℕ → Result Bytes → Prog Bytes
  zone_of user_id (ok zone) = pure (if is_empty zone then codes "UTC" else zone)
  zone_of user_id (err e) = do
    (deleted, _) ← handle_sync_error S s user_id e
    if deleted then leave none else leave (some (fetch_failed e))

  unfoldable pub primary_timezone : ℕ → Prog Bytes
  primary_timezone user_id = do answer ← primary_calendar S; zone_of user_id answer

  unfoldable pub created : ℕ → Result Bytes → Prog (Unit {0})
  unfolding skip
  created user_id (err e) = do
    (deleted, sync_err) ← handle_sync_error S s user_id e
    if deleted then leave sync_err else pure tt
  created user_id (ok id) = do
    set_calendar_id id
    execute S (set_calendar id user_id)
    if s.has_valkey then del S (user_cache_key user_id) else skip
    pure tt

  -- the choice of user.CalendarID
  unfoldable pub resolve_calendar : ℕ → CachedUser → Bytes → Prog (Unit {0})
  resolve_calendar user_id u zone = do
    set_calendar_id (codes "primary")
    if u.use_dedicated
        then (if not (is_empty u.calendar_id) && not (bytes_eq u.calendar_id (codes "primary"))
            then set_calendar_id u.calendar_id
            else (do
              answer ← calendars_insert S (codes "ContestSync") zone
              created user_id answer))
        else pure tt

  unfoldable pub synced_rows : ℕ → Result (List (Option Bytes)) → Prog (List Bytes)
  synced_rows user_id (err e) = pure []
  synced_rows user_id (ok rows) = do
    store (synced_events_cache_key user_id) (J.marshal_ids (scanned rows)) synced_events_cache_ttl
    pure (scanned rows)

  unfoldable pub read_synced : ℕ → Option (List Bytes) → Prog (List Bytes)
  read_synced user_id (some ids) = pure ids
  read_synced user_id none = do
    answer ← select_synced S (pool_of s) user_id
    synced_rows user_id answer

  -- syncedMap, as the list of its keys
  unfoldable pub load_synced : ℕ → Prog (List Bytes)
  load_synced user_id = do
    val ← cached (synced_events_cache_key user_id)
    read_synced user_id (bind_option val J.unmarshal_ids)

  -- platformMap[p]
  unfoldable pub of_platform : Bytes → List Contest → List Contest
  of_platform p [] = []
  of_platform p (c ∷ cs) =
      let rest = of_platform p cs in if bytes_eq c.platform p then c ∷ rest else rest

  -- the loop that writes the missed platforms back to the cache
  unfoldable pub store_missed : List Bytes → List Contest → List Contest → Prog (List Contest)
  store_missed [] rows contests = pure contests
  store_missed (p ∷ ps) rows contests = do
    store (contests_cache_key p) (J.marshal_contests (of_platform p rows)) contests_cache_ttl
    store_missed ps rows (contests ++ of_platform p rows)

  unfoldable pub read_missed : List Bytes → List Contest → Prog (List Contest)
  read_missed [] contests = pure contests
  read_missed (p ∷ ps) contests = do
    answer ← select_contests S (pool_of s) (p ∷ ps)
    rows ← or_return answer
    store_missed (p ∷ ps) (scanned rows) contests

  -- the loop over the platforms, with the contests and the missed platforms so far
  unfoldable pub cached_contests : List Bytes → List Contest → List Bytes → Prog (List Contest)
  cached_contests [] contests missed = read_missed missed contests
  cached_contests (p ∷ ps) contests missed = do
    val ← get S (contests_cache_key p)
    elim (bind_option val J.unmarshal_contests) [
      | some cs ↦ cached_contests ps (contests ++ cs) missed
      | none ↦ cached_contests ps contests (missed ++ p ∷ [])
    ]

  unfoldable pub load_contests : List Bytes → Prog (List Contest)
  load_contests platforms = if s.has_valkey then cached_contests platforms [] [] else (do
    answer ← select_contests S (pool_of s) platforms
    rows ← or_return answer
    pure (scanned rows))
