-- ===== src/Web/Validation/Outage.antt =====
-- A failure of Google's servers, as ValidateCalendarAccess and ManualSync take it.
use contest_sync.Common.{
  ◌≡◌, ℕ, ◌≤◌, true, false, Option, some, ◌⊎◌, Bytes, codes, is_empty, bytes_eq, if◌then◌else◌,
}
use contest_sync.World.Models.{Err, ok, calendar_validation_cache_key}
use contest_sync.World.Calls.{Trace, web}
use contest_sync.World.Prog.{World, Prog, next, return}
use contest_sync.World.Inversion.{Ending}
use contest_sync.Auth.{decrypt_token}
use contest_sync.Sync.Syncer.{pool_of}
use contest_sync.Web.Calls.{Site, responded, syncer_of, invalid, problem, Reply, ok_reply}
use contest_sync.Web.Validation.{credential_failure}

-- ManualSync says that the last synchronisation is too recent, fails to read its time, or ends with
-- the reply `e`.
abbrev pub Refuses : Err → Ending Reply
Refuses e (next reply) w = reply ≡ ok_reply (codes "rate_limited")
Refuses e (return r) w = (r ≡ some (problem 500 (codes "internal server error"))) ⊎ (r ≡ some e)

-- the services, where the cache holds `val` as the validation of the user
abbrev pub remembers : Site → ℕ → Bytes → Site
remembers h u val = record h {
  services = record h.services {
    on_get = λ t key.
        if bytes_eq key (calendar_validation_cache_key u)
        then some val
        else h.services.on_get t key;
  };
}

module _ (h : Site) (u : ℕ) where
  -- The time of the last synchronisation is found, or the query has failed.
  Finds : Ending (Option ℕ)
  Finds (next at) w = Unit
  Finds (return r) w = r ≡ some (problem 500 (codes "internal server error"))

  -- The token of the user opens, and Google grants access for it, but answers with a failure when it
  -- is asked about the access.
  module _ (encrypted token access : Bytes) (status : ℕ) (body : Option Bytes)
      (owns : (t : Trace) → h.web.on_query_token t (pool_of (syncer_of h)) u ≡ ok encrypted)
      (opens : decrypt_token h.cipher encrypted h.encryption_key ≡ ok token)
      (gives : (t : Trace) → h.web.on_refresh t token ≡ ok access)
      (answers : (t : Trace) → h.web.on_tokeninfo t access ≡ responded status body)
      (outage : 500 ≤ status) (stored : is_empty encrypted ≡ false)
      (opened : is_empty token ≡ false) (valkey : h.has_valkey ≡ true) where
    abbrev unavailable : Err
    unavailable =
        problem 503 (codes "calendar validation service temporarily unavailable, please try again")

    abbrev missing : Err
    missing = problem 403 (codes "calendar access permission missing")

    abbrev token_invalid : Bytes
    token_invalid = h.web.marshal_validity (invalid credential_failure (codes "token_invalid"))
