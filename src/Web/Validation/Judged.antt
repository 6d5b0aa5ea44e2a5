-- ===== src/Web/Validation/Judged.antt =====
-- What stands behind a reply of ValidateCalendarAccess.
use contest_sync.Common.{◌≡◌, ◌≢◌, ℕ, false, [], codes, ◌⊎◌, Option, none, some, Bytes, contains}
use contest_sync.World.Models.{Err, ok, err, calendar_validation_cache_key}
use contest_sync.World.Calls.{Trace}
use contest_sync.World.Prog.{World, Prog, next, return}
use contest_sync.World.Inversion.{Ending}
use contest_sync.Auth.{decrypt_token}
use contest_sync.Sync.Syncer.{pool_of}
use contest_sync.Web.Calls.{
  Site, Http, unbuilt, no_response, responded, Validity, valid, invalid, calendar_scope, syncer_of,
}
use contest_sync.Web.ManualSync.Gate.{Checked}

-- The user's token opens, and Google gives an access token for it.
abbrev pub Opens : Site → ℕ → Bytes → Type 0
Opens h u token =
    (t : Trace) × (encrypted : Bytes) × (h.web.on_query_token t (pool_of (syncer_of h)) u
      ≡ ok encrypted)
    × (decrypt_token h.cipher encrypted h.encryption_key ≡ ok token)

abbrev pub Grants : Site → ℕ → Bytes → Type 0
Grants h u access =
    (t : Trace) × (token : Bytes) × Opens h u token × (h.web.on_refresh t token ≡ ok access)

-- what Google says of the access token
abbrev pub Says : Site → ℕ → Http Bytes → Type 0
Says h u i = (t : Trace) × (access : Bytes) × Grants h u access × (h.web.on_tokeninfo t access ≡ i)

-- Why a validation is invalid, by its code and its error type.
pub data Refusal (h : Site) (u : ℕ) : Bytes → Bytes → Type 0 where
  no_row :
      (t : Trace) (e : Err)
      → h.web.on_query_token t (pool_of (syncer_of h)) u ≡ err e
      → Refusal h u (codes "credential_failure") (codes "missing_refresh_token")
  no_token :
      (t : Trace)
      → h.web.on_query_token t (pool_of (syncer_of h)) u ≡ ok []
      → Refusal h u (codes "credential_failure") (codes "missing_refresh_token")
  not_opened :
      (t : Trace) (encrypted : Bytes) (e : Err)
      → h.web.on_query_token t (pool_of (syncer_of h)) u ≡ ok encrypted
      → decrypt_token h.cipher encrypted h.encryption_key ≡ err e
      → Refusal h u (codes "credential_failure") (codes "invalid_refresh_token")
  opened_empty :
      Opens h u [] → Refusal h u (codes "credential_failure") (codes "invalid_refresh_token")
  not_granted :
      (t : Trace) (token : Bytes) (e : Err)
      → Opens h u token
      → h.web.on_refresh t token ≡ err e
      → Refusal h u (codes "credential_failure") (codes "invalid_grant")
  not_asked :
      Says h u unbuilt → Refusal h u (codes "operational_failure") (codes "request_creation_failed")
  not_answered :
      Says h u no_response
      → Refusal h u (codes "operational_failure") (codes "tokeninfo_network_error")
  other_status :
      (status : ℕ) (body : Option Bytes)
      → status ≢ 200
      → Says h u (responded status body)
      → Refusal h u (codes "credential_failure") (codes "token_invalid")
  not_read :
      Says h u (responded 200 none)
      → Refusal h u (codes "credential_failure") (codes "missing_calendar_scope")
  no_scope :
      (scope : Bytes)
      → contains scope calendar_scope ≡ false
      → Says h u (responded 200 (some scope))
      → Refusal h u (codes "credential_failure") (codes "missing_calendar_scope")

-- Why a validation says what it says: the valid one, because the user's token opens, Google gives an
-- access token for it, and its scope contains the access to calendars.
abbrev pub Reason : Site → ℕ → Validity → Type 0
Reason h u valid = Checked h u
Reason h u (invalid code error_type) = Refusal h u code error_type

module _ (h : Site) (u : ℕ) (start : Trace) where
  -- A reply that the cache held at the start, or one with a reason.
  abbrev pub Judged : Ending Bytes
  Judged (next reply) w =
      (h.services.on_get start (calendar_validation_cache_key u) ≡ some reply)
      ⊎ ((v : Validity) × (reply ≡ h.web.marshal_validity v) × Reason h u v)
  Judged (return e) w = ⊥
