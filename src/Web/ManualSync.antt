-- ===== src/Web/ManualSync.antt =====
-- ManualSync of internal/api/handlers.go: a user asks for a synchronisation.
pub mod Gate
use contest_sync.Common.{
  ℕ, ◌*◌, ◌-◌, ◌/◌, ◌^◌, ◌≤◌, ◌≡◌, Bool, true, false, ◌&&◌, ◌||◌, not, Option, none, some, Bytes,
  codes, is_empty, contains, leb, ltb, ◌==◌, if◌then◌else◌,
}
use contest_sync.World.Models.{Err, Result, ok, err, last_sync_key, calendar_validation_cache_key}
use contest_sync.World.Calls.{query_last_sync, query_token, refresh, tokeninfo, publish_sync}
use contest_sync.World.Prog.{Prog, pure, leave, ◌>>=◌, ◌>>◌}
use contest_sync.Auth.{decrypt_token}
use contest_sync.Sync.Syncer.{pool_of}
use contest_sync.Sync.Load.{bind_option, cached, store}
use contest_sync.Web.Calls.{
  Site, Http, unbuilt, no_response, responded, syncer_of, Reply, ok_reply, refuse, problem, ask,
  calendar_scope,
}

abbrev pub minute : ℕ
minute = 60 * 10 ^ 9

-- `err == nil && val != ""`
abbrev pub not_empty : Option Bytes → Option Bytes
not_empty none = none
not_empty (some v) = if is_empty v then none else some v

-- time.Since(*lastSyncAt) < 1*time.Minute; a time to come counts as recent
unfoldable pub is_recent : ℕ → Option ℕ → Bool
is_recent now none = false
is_recent now (some t) = ltb (now - t) minute

-- what the cache says of a validation: `json.Unmarshal(…) == nil && !valRes.Valid`
abbrev pub is_invalid : Option Bool → Bool
is_invalid (some false) = true
is_invalid _ = false

module _ (h : Site) where
  open h use {services, web, codec, cipher, has_valkey, encryption_key}

  unfoldable pub store_last_sync : ℕ → Option ℕ → Prog (Option ℕ)
  store_last_sync user_id none = pure none
  store_last_sync user_id (some t) = do
    store services codec (syncer_of h) (last_sync_key user_id) (codec.rfc3339 (t / 10 ^ 9)) 3600
    pure (some t)

  unfoldable pub last_sync_row : ℕ → Result (Option ℕ) → Prog (Option ℕ)
  last_sync_row user_id (err e) = refuse 500 (codes "internal server error")
  last_sync_row user_id (ok t) = store_last_sync user_id t

  unfoldable pub last_sync_of : ℕ → Option ℕ → Prog (Option ℕ)
  last_sync_of user_id (some t) = pure (some t)
  last_sync_of user_id none = do
    answer ←
        ask (query_last_sync (pool_of (syncer_of h)) user_id)
          (λ t. web.on_query_last_sync t (pool_of (syncer_of h)) user_id)
    last_sync_row user_id answer

  -- the variable lastSyncAt
  unfoldable pub last_sync : ℕ → Prog (Option ℕ)
  last_sync user_id = do
    val ← cached services codec (syncer_of h) (last_sync_key user_id)
    last_sync_of user_id (bind_option (not_empty val) web.parse_time)

  -- the column refresh_token, which is not empty
  unfoldable pub stored_token : Result Bytes → Prog Bytes
  stored_token (err e) = refuse 403 (codes "calendar access permission missing")
  stored_token (ok t) =
      if is_empty t then refuse 403 (codes "calendar access permission missing") else pure t

  unfoldable pub opened_token : Result Bytes → Prog Bytes
  opened_token (err e) = refuse 403 (codes "invalid refresh token")
  opened_token (ok t) = if is_empty t then refuse 403 (codes "invalid refresh token") else pure t

  -- the refusal that ValidateCalendarAccess has left in the cache
  unfoldable pub check_cached : Option Bytes → Prog (Unit {0})
  check_cached val =
      if is_invalid (bind_option (not_empty val) web.unmarshal_valid)
      then refuse 403 (codes "calendar access permission missing")
      else pure tt

  unfoldable pub access_token : Result Bytes → Prog Bytes
  access_token (err e) = refuse 403 (codes "google calendar permission revoked")
  access_token (ok t) = pure t

  unfoldable pub check_scope : Option Bytes → Prog (Unit {0})
  check_scope none = refuse 503 (codes "unable to parse validation response, please try again")
  check_scope (some scope) =
      if contains scope calendar_scope
      then pure tt
      else refuse 403 (codes "google calendar permission scope missing")

  unfoldable pub check_info : Http Bytes → Prog (Unit {0})
  check_info unbuilt = refuse 500 (codes "failed to create validation request")
  check_info no_response =
      refuse 503 (codes "unable to verify calendar permissions, please try again")
  check_info (responded status body) =
      if status == 200
      then check_scope body
      else if (status == 429) || leb 500 status
      then refuse 503
          (codes "calendar validation service temporarily unavailable, please try again")
      else refuse 403 (codes "google calendar permission validation failed")

  unfoldable pub published : Option Err → Prog Reply
  published (some e) = refuse 500 (codes "sync failed to queue")
  published none = pure (ok_reply (codes "sync queued"))

  unfoldable pub publish : ℕ → Prog Reply
  publish user_id = do
    failed ← ask (publish_sync user_id) (λ t. web.on_publish_sync t user_id)
    published failed

  -- the exchange of the token, and what the access token allows
  unfoldable pub verify : Bytes → Prog (Unit {0})
  verify token = do
    refreshed ← ask (refresh token) (λ t. web.on_refresh t token)
    access ← access_token refreshed
    info ← ask (tokeninfo access) (λ t. web.on_tokeninfo t access)
    check_info info

  -- the token of the user, checked against Google
  unfoldable pub check_access : ℕ → Prog (Unit {0})
  check_access user_id = do
    answer ←
        ask (query_token (pool_of (syncer_of h)) user_id)
          (λ t. web.on_query_token t (pool_of (syncer_of h)) user_id)
    encrypted ← stored_token answer
    token ← opened_token (decrypt_token cipher encrypted encryption_key)
    val ← cached services codec (syncer_of h) (calendar_validation_cache_key user_id)
    check_cached val
    verify token

  unfoldable pub sync_unless : ℕ → Bool → Prog Reply
  sync_unless user_id true = pure (ok_reply (codes "rate_limited"))
  sync_unless user_id false = do check_access user_id; publish user_id

  -- ManualSync; time.Now is read behind the calls for lastSyncAt
  unfoldable pub manual_sync : ℕ → Prog Reply
  manual_sync user_id = do
    at ← last_sync user_id
    (λ w. sync_unless user_id (is_recent (web.now w.trace) at) w)
