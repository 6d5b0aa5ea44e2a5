-- ===== src/Web/Account.antt =====
-- DeleteAccount of internal/api/handlers.go, and the loops over the attempts of the goroutine that it
-- starts.
pub mod Background
pub mod Deleted
use contest_sync.Common.{
  ℕ, zero, suc, ◌+◌, ◌*◌, Bool, true, false, ◌&&◌, ◌||◌, not, Option, none, some, List, [], ◌∷◌,
  Bytes, codes, is_empty, bytes_eq, ltb, ◌==◌, take, if◌then◌else◌,
}
use contest_sync.World.Models.{Err, Result, ok, err, user_cache_key}
use contest_sync.World.Calls.{
  delete_user, query_account, query_event_ids, start_cleanup, get_session, clear_session,
  delete_calendar, revoke,
}
use contest_sync.World.Prog.{Prog, pure, leave, ◌>>=◌, ◌>>◌}
use contest_sync.World.Api.{del, execute, events_delete, new_calendar_service, pause}
use contest_sync.Auth.{decrypt_token}
use contest_sync.Sync.Load.{scanned}
use contest_sync.Web.Calls.{Site, Found, row, no_rows, failed, refuse, problem, ask}

module _ (h : Site) where
  open h use {services, web, cipher, has_valkey, encryption_key}

  -- `if err == nil && deleteGoogleData { … }`
  unfoldable pub listed_events : Result (List (Option Bytes)) → List Bytes
  listed_events (ok rows) = scanned rows
  listed_events (err e) = []

  unfoldable pub event_ids : ℕ → Bool → Prog (List Bytes)
  event_ids user_id false = pure []
  event_ids user_id true = do
    answer ← ask (query_event_ids user_id) (λ t. web.on_query_event_ids t user_id)
    pure (listed_events answer)

  -- `go func() { … }`, where the token opens and is not empty
  unfoldable pub cleanup_with : Result Bytes → Bytes → List Bytes → Bool → Prog (Unit {0})
  cleanup_with (err e) calendar_id ids google = pure tt
  cleanup_with (ok token) calendar_id ids google =
      if is_empty token then pure tt else ask (start_cleanup token calendar_id ids google) (λ t. tt)

  unfoldable pub cleanup : Bytes → Bytes → List Bytes → Bool → Prog (Unit {0})
  cleanup calendar_id encrypted ids google =
      if is_empty encrypted
      then pure tt
      else cleanup_with (decrypt_token cipher encrypted encryption_key) calendar_id ids google

  unfoldable pub drop_cache : ℕ → Prog (Unit {0})
  drop_cache user_id =
      if has_valkey then (do del services (user_cache_key user_id); pure tt) else pure tt

  -- behind the DELETE
  unfoldable pub row_deleted : ℕ → Option Err → Prog (Unit {0})
  row_deleted user_id (some e) = refuse 500 (codes "internal server error")
  row_deleted user_id none = do
    drop_cache user_id
    ask get_session web.on_get_session
    ask clear_session (λ t. tt)

  unfoldable pub delete_row : ℕ → Prog (Unit {0})
  delete_row user_id = do
    answer ← execute services (delete_user user_id)
    row_deleted user_id answer

  unfoldable pub delete_found : ℕ → Bool → Found (Bytes × Bytes) → Prog (Unit {0})
  delete_found user_id google no_rows = pure tt
  delete_found user_id google (failed e) = delete_row user_id
  delete_found user_id google (row (calendar_id, encrypted)) = do
    ids ← event_ids user_id google
    cleanup calendar_id encrypted ids google
    delete_row user_id

  -- DeleteAccount; the flag is `delete_google_data == "true"`. Its end is the reply "deleted".
  unfoldable pub delete_account : ℕ → Bool → Prog (Unit {0})
  delete_account user_id google = do
    account ← ask (query_account user_id) (λ t. web.on_query_account t user_id)
    delete_found user_id google account

  -- `gErr.Code == …` of an error
  unfoldable pub is_code : ℕ → Err → Bool
  is_code n e = elim e.code [ none ↦ false | some c ↦ c == n ]

  -- the errors behind which an attempt is not repeated: for a calendar and for an event
  unfoldable pub calendar_final : Err → Bool
  calendar_final e = is_code 404 e || (is_code 400 e || is_code 401 e)

  unfoldable pub event_final : Err → Bool
  event_final e = (is_code 404 e || is_code 410 e) || (is_code 400 e || is_code 401 e)

  -- the wait behind an attempt
  unfoldable pub wait_after : ℕ → Prog (Unit {0})
  wait_after attempt = if ltb attempt 3 then pause (attempt * 500) else pure tt

  -- The loop over the attempts at one deletion, with the attempts that are left and the number of the
  -- next one.
  unfoldable pub attempts :
      (Err → Bool) → Prog (Option Err) → ℕ → ℕ → Option Err → Prog (Option Err)
  attempts final send zero attempt last = pure last
  attempts final send (suc left) attempt last = do
    answer ← send
    elim answer [
      | none ↦ pure none
      | some e ↦
          (let again = attempts final send left (attempt + 1) (some e) in
            if final e then pure (some e) else (do wait_after attempt; again))
    ]

  unfoldable pub delete_custom_calendar : Bytes → Prog (Option Err)
  delete_custom_calendar calendar_id =
      attempts calendar_final
        (ask (delete_calendar calendar_id) (λ t. web.on_delete_calendar t calendar_id)) 3 1 none

  -- the goroutine of one event
  unfoldable pub delete_primary_event : Bytes → Prog (Option Err)
  delete_primary_event id =
      attempts event_final (events_delete services (codes "primary") id) 3 1 none

  -- `toDelete`, and the part of it for which a goroutine starts, by the values of badToken that the loop
  -- reads
  unfoldable pub to_delete : List Bytes → List Bytes
  to_delete ids = take 200 ids

  unfoldable pub started : List Bytes → List Bool → List Bytes
  started [] bad = []
  started (id ∷ ids) [] = []
  started (id ∷ ids) (true ∷ bad) = []
  started (id ∷ ids) (false ∷ bad) = id ∷ started ids bad
