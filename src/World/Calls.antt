-- ===== src/World/Calls.antt =====
-- The calls that the program makes to the services outside, as entries of a trace, and the services
-- as functions of what has been called before. A service may answer in any way, errors included.
use contest_sync.Common.{ℕ, Bool, Option, List, Bytes}
use contest_sync.World.Models.{Err, Result, CachedUser, Contest}

pub data Status : Type 0 where
  success failed : Status

-- The statements that the program executes, each named for what its text says.
pub data Sql : Type 0 where
  -- UPDATE users SET sync_status = 'syncing' WHERE id = $1
  mark_syncing : ℕ → Sql
  -- UPDATE users SET sync_status = $1, last_sync_at = NOW() WHERE id = $2
  finish_sync : Status → ℕ → Sql
  -- UPDATE users SET calendar_id = $1 WHERE id = $2
  set_calendar : Bytes → ℕ → Sql
  -- DELETE FROM users WHERE id = $1
  delete_user : ℕ → Sql
  -- DELETE FROM synced_events WHERE user_id = $1 AND contest_id = $2
  delete_synced : ℕ → Bytes → Sql
  -- INSERT INTO synced_events (user_id, contest_id, google_event_id) … ON CONFLICT DO NOTHING
  insert_synced : ℕ → Bytes → Bytes → Sql
  -- DELETE FROM contests WHERE platform = $1 AND start_time > NOW() AND id != ALL($2)
  prune_contests : Bytes → List Bytes → Sql
  -- DELETE FROM contests WHERE end_time < NOW()
  prune_ended : Sql
  -- DELETE FROM users WHERE refresh_token is missing AND created_at < NOW() - INTERVAL '24 hours'
  prune_ungranted : Sql
  -- DELETE FROM oauth_states WHERE created_at < NOW() - INTERVAL '10 minutes'
  cleanup_states : Sql

-- `s.ReadDB`, or `s.DB` where that is nil
pub data Pool : Type 0 where
  write_pool read_pool : Pool

-- calendar.Event, the fields that differ from event to event
pub record Event : Type 0 where
  pub id : Bytes
  pub summary : Bytes
  pub description : Bytes
  pub location : Bytes
  pub start : Bytes
  pub end : Bytes
  pub time_zone : Bytes
  -- event.Status = "confirmed"
  pub confirmed : Bool

pub data Notice : Type 0 where
  -- USER_SYNC_SUCCESS with the calendar's id, USER_SYNC_FAILURE with the error's text
  sync_success : ℕ → Bytes → Notice
  sync_failure : ℕ → Bytes → Notice
  -- an event of another name
  event : Bytes → Notice

-- The calls that only the HTTP handlers and the scheduler make.
pub data WebCall : Type 0 where
  -- SELECT last_sync_at, SELECT refresh_token and SELECT platforms FROM users WHERE id = $1
  query_last_sync : Pool → ℕ → WebCall
  query_token : Pool → ℕ → WebCall
  query_platforms : Pool → ℕ → WebCall
  -- the SELECT of Me
  query_profile : Pool → ℕ → WebCall
  -- SELECT COALESCE(calendar_id, ''), refresh_token FROM users WHERE id = $1
  query_account : ℕ → WebCall
  -- SELECT google_event_id FROM synced_events WHERE user_id = $1
  query_event_ids : ℕ → WebCall
  -- SELECT id, platforms FROM users
  query_all_platforms : Pool → WebCall
  -- the SELECT of the feed
  query_feed : Pool → List Bytes → WebCall
  -- UPDATE users SET platforms = $1, use_dedicated = $2 WHERE id = $3; where the flag is false, it
  -- also sets calendar_id = NULL
  save_platforms : List Bytes → Bool → ℕ → WebCall
  -- INSERT INTO oauth_states (state) VALUES ($1)
  insert_state : Bytes → WebCall
  -- DELETE FROM oauth_states WHERE state = $1 AND created_at > $2 RETURNING state
  take_state : Bytes → WebCall
  -- INSERT INTO users (google_id, email, refresh_token, has_calendar_access) … ON CONFLICT …
  upsert_user : Bytes → Bytes → Bytes → Bool → WebCall
  -- the tokens of Google: a refresh token for an access token, a code for both, what an access token
  -- allows and whose it is, and the revocation
  refresh : Bytes → WebCall
  exchange : Bytes → WebCall
  tokeninfo : Bytes → WebCall
  userinfo : Bytes → WebCall
  revoke : Bytes → WebCall
  delete_calendar : Bytes → WebCall
  verify_captcha : Bytes → WebCall
  -- PublishSyncTask
  publish_sync : ℕ → WebCall
  -- PublishExtractionTask
  publish_extraction : Bytes → WebCall
  -- Del of several keys
  valkey_dels : List Bytes → WebCall
  read_random : WebCall
  -- SessionStore.Get, and Save of a session of the age -1 or with a user and a token
  get_session : WebCall
  clear_session : WebCall
  save_session : ℕ → Bytes → WebCall
  -- the goroutine of DeleteAccount starts, with the token, the calendar, the events and the flag
  start_cleanup : Bytes → Bytes → List Bytes → Bool → WebCall
  -- SELECT 1 + 1, Begin and SELECT pg_sleep(0) of HealthCheck, and the queue's Health
  probe_read : Pool → WebCall
  probe_begin : WebCall
  probe_write : WebCall
  queue_health : WebCall

pub data Entry : Type 0 where
  valkey_setnx : Bytes → Entry
  valkey_get : Bytes → Entry
  -- key, value, time to live in seconds
  valkey_set : Bytes → Bytes → ℕ → Entry
  valkey_del : Bytes → Entry
  exec : Sql → Entry
  query_user : Pool → ℕ → Entry
  query_synced_platforms : Pool → ℕ → Entry
  query_synced : Pool → ℕ → Entry
  query_contests : Pool → List Bytes → Entry
  new_service : Bytes → Entry
  get_primary : Entry
  -- the summary and the time zone of the new calendar
  insert_calendar : Bytes → Bytes → Entry
  insert_event : Bytes → Event → Entry
  update_event : Bytes → Bytes → Event → Entry
  delete_event : Bytes → Bytes → Entry
  notify : Notice → Entry
  -- the batch of INSERT INTO contests … ON CONFLICT (id) DO UPDATE, with each contest's duration
  send_batch : List (Contest × ℕ) → Entry
  -- SELECT platform, COUNT(*) FROM contests WHERE start_time > NOW() GROUP BY platform
  query_counts : Entry
  web : WebCall → Entry
  -- milliseconds
  sleep : ℕ → Entry

-- The newest call stands first.
abbrev pub Trace : Type 0
Trace = List Entry

-- A row of users as SyncUser and SavePreferences scan it; the column calendar_id may be NULL.
pub record UserRow : Type 0 where
  pub id : ℕ
  pub google_id : Bytes
  pub email : Bytes
  pub calendar_id : Option Bytes
  pub use_dedicated : Bool
  pub platforms : List Bytes
  pub refresh_token : Bytes

pub record SyncedRow : Type 0 where
  pub contest_id : Bytes
  pub google_event_id : Bytes
  pub platform : Bytes

-- The services. Each answer may depend on all calls made before. In the lists of rows, `none` is a
-- row whose Scan fails.
pub record Services : Type 0 where
  pub on_setnx : Trace → Bytes → Result Bool
  pub on_get : Trace → Bytes → Option Bytes
  pub on_set : Trace → Bytes → Bytes → Option Err
  pub on_del : Trace → Bytes → Option Err
  pub on_exec : Trace → Sql → Option Err
  pub on_query_user : Trace → Pool → ℕ → Result UserRow
  pub on_query_synced_platforms : Trace → Pool → ℕ → Result (List (Option SyncedRow))
  pub on_query_synced : Trace → Pool → ℕ → Result (List (Option Bytes))
  pub on_query_contests : Trace → Pool → List Bytes → Result (List (Option Contest))
  pub on_new_service : Trace → Bytes → Option Err
  -- the time zone
  pub on_get_primary : Trace → Result Bytes
  pub on_insert_calendar : Trace → Bytes → Bytes → Result Bytes
  pub on_insert_event : Trace → Bytes → Event → Result Bytes
  pub on_update_event : Trace → Bytes → Bytes → Event → Option Err
  pub on_delete_event : Trace → Bytes → Bytes → Option Err
  -- the first error of the statements of a batch
  pub on_send_batch : Trace → List (Contest × ℕ) → Option Err
  pub on_query_counts : Trace → Result (List (Option (Bytes × ℕ)))
  -- time.Now().Format(time.RFC3339)
  pub now_rfc3339 : Trace → Bytes

-- encoding/json on the three kinds of value that the cache holds, and time.Format
pub record Codec : Type 0 where
  pub marshal_user : CachedUser → Bytes
  pub unmarshal_user : Bytes → Option CachedUser
  pub marshal_ids : List Bytes → Bytes
  pub unmarshal_ids : Bytes → Option (List Bytes)
  pub marshal_contests : List Contest → Bytes
  pub unmarshal_contests : Bytes → Option (List Contest)
  pub rfc3339 : ℕ → Bytes
