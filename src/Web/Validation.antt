-- ===== src/Web/Validation.antt =====
-- ValidateCalendarAccess and writeJSONAndCache of internal/api/handlers.go.
pub mod Judged
pub mod Outage
use contest_sync.Common.{
  ℕ, ◌*◌, Bool, true, false, not, Option, none, some, Bytes, codes, is_empty, contains, ◌==◌,
  if◌then◌else◌,
}
use contest_sync.World.Models.{Err, Result, ok, err, calendar_validation_cache_key}
use contest_sync.World.Calls.{query_token, refresh, tokeninfo}
use contest_sync.World.Prog.{Prog, pure, leave, ◌>>=◌, ◌>>◌}
use contest_sync.Auth.{decrypt_token}
use contest_sync.Sync.Syncer.{pool_of}
use contest_sync.Sync.Load.{cached, store}
use contest_sync.Web.Calls.{
  Site, Http, unbuilt, no_response, responded, Validity, valid, invalid, syncer_of, ask, signed_in,
  calendar_scope,
}
use contest_sync.Web.ManualSync.{not_empty}

-- seconds
abbrev pub minutes : ℕ → ℕ
minutes n = n * 60

abbrev pub credential_failure : Bytes
credential_failure = codes "credential_failure"

abbrev pub operational_failure : Bytes
operational_failure = codes "operational_failure"

module _ (h : Site) (user_id : ℕ) where
  open h use {services, web, codec, cipher, encryption_key}

  -- the value is the reply
  unfoldable pub write_json_and_cache : Validity → ℕ → Prog Bytes
  write_json_and_cache res ttl = do
    store services codec (syncer_of h) (calendar_validation_cache_key user_id)
        (web.marshal_validity res) ttl
    pure (web.marshal_validity res)

  unfoldable pub validate_scope : Option Bytes → Prog Bytes
  validate_scope none =
      write_json_and_cache (invalid credential_failure (codes "missing_calendar_scope"))
        (minutes 15)
  validate_scope (some scope) =
      if contains scope calendar_scope
      then write_json_and_cache valid (minutes 15)
      else write_json_and_cache (invalid credential_failure (codes "missing_calendar_scope"))
          (minutes 15)

  unfoldable pub validate_info : Http Bytes → Prog Bytes
  validate_info unbuilt =
      write_json_and_cache (invalid operational_failure (codes "request_creation_failed"))
        (minutes 1)
  validate_info no_response =
      write_json_and_cache (invalid operational_failure (codes "tokeninfo_network_error"))
        (minutes 1)
  validate_info (responded status body) =
      if status == 200
      then validate_scope body
      else write_json_and_cache (invalid credential_failure (codes "token_invalid")) (minutes 15)

  unfoldable pub validate_access : Result Bytes → Prog Bytes
  validate_access (err e) =
      write_json_and_cache (invalid credential_failure (codes "invalid_grant")) (minutes 15)
  validate_access (ok access) = do
    info ← ask (tokeninfo access) (λ t. web.on_tokeninfo t access)
    validate_info info

  unfoldable pub validate_opened : Result Bytes → Prog Bytes
  validate_opened (err e) =
      write_json_and_cache (invalid credential_failure (codes "invalid_refresh_token")) (minutes 5)
  validate_opened (ok token) =
      if is_empty token
      then write_json_and_cache (invalid credential_failure (codes "invalid_refresh_token"))
          (minutes 5)
      else (do
        refreshed ← ask (refresh token) (λ t. web.on_refresh t token)
        validate_access refreshed)

  unfoldable pub validate_stored : Result Bytes → Prog Bytes
  validate_stored (err e) =
      write_json_and_cache (invalid credential_failure (codes "missing_refresh_token")) (minutes 5)
  validate_stored (ok encrypted) =
      if is_empty encrypted
      then write_json_and_cache (invalid credential_failure (codes "missing_refresh_token"))
          (minutes 5)
      else validate_opened (decrypt_token cipher encrypted encryption_key)

  unfoldable pub validate_unless : Option Bytes → Prog Bytes
  validate_unless (some reply) = pure reply
  validate_unless none = do
    answer ←
        ask (query_token (pool_of (syncer_of h)) user_id)
          (λ t. web.on_query_token t (pool_of (syncer_of h)) user_id)
    validate_stored answer

  -- behind the test for a user
  unfoldable pub validate_calendar_access : Prog Bytes
  validate_calendar_access = do
    val ← cached services codec (syncer_of h) (calendar_validation_cache_key user_id)
    validate_unless (not_empty val)

-- ValidateCalendarAccess, with the user of the request's context
unfoldable pub validate_request : Site → Option ℕ → Prog Bytes
validate_request h user = signed_in user (validate_calendar_access h)
