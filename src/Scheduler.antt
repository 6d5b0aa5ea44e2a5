-- ===== src/Scheduler.antt =====
-- internal/scheduler/scheduler.go: the tasks that cron starts.
pub mod Tasks
use contest_sync.Common.{
  ℕ, zero, suc, ◌+◌, Bool, false, Option, none, some, List, [], ◌∷◌, ◌++◌, true, ◌&&◌, not,
  is_empty, map, Bytes, codes, ltb, if◌then◌else◌, length, take, drop,
}
use contest_sync.World.Calls.{Services, prune_ended, prune_ungranted, cleanup_states, event}
use contest_sync.World.Prog.{Prog, pure, ◌>>=◌, ◌>>◌}
use contest_sync.World.Api.{execute, telegram}
use contest_sync.Queue.Extraction.{invalidate_contests_cache}

-- `limit := 500`
abbrev pub limit : ℕ
limit = 500

-- the ids of the rows whose Scan succeeds
abbrev pub scanned_ids : List (Option ℕ) → List ℕ
scanned_ids [] = []
scanned_ids (none ∷ rows) = scanned_ids rows
scanned_ids (some id ∷ rows) = id ∷ scanned_ids rows

-- behind a query, with the rest of the loop
abbrev pub page_ids : Option (List (Option ℕ)) → List ℕ → List ℕ
page_ids none rest = []
page_ids (some rows) rest = scanned_ids rows ++ (if ltb (length rows) limit then [] else rest)

-- The loop over the pages, with the number of passes that are left and the offset: the ids for which
-- PublishSyncTask is called. The query gives the rows at an offset, or fails.
unfoldable pub sync_loop : (ℕ → Option (List (Option ℕ))) → ℕ → ℕ → List ℕ
sync_loop query zero offset = []
sync_loop query (suc n) offset = page_ids (query offset) (sync_loop query n (offset + limit))

-- SyncAllUsers, for as many passes as are given
unfoldable pub sync_all_users : (ℕ → Option (List (Option ℕ))) → ℕ → List ℕ
unfolding sync_loop
sync_all_users query passes = sync_loop query passes 0

-- what the query reads of a row of users
pub record UserRow : Type 0 where
  pub id : ℕ
  pub has_calendar_access : Bool
  pub refresh_token : Option Bytes

-- `refresh_token IS NOT NULL AND refresh_token != ''`
abbrev pub has_token : Option Bytes → Bool
has_token none = false
has_token (some t) = not (is_empty t)

-- `has_calendar_access = TRUE AND …`
abbrev pub is_selected : UserRow → Bool
is_selected u = u.has_calendar_access && has_token u.refresh_token

-- `SELECT id FROM users WHERE …` on the rows of users in the order of their ids
abbrev pub selected : List UserRow → List ℕ
selected [] = []
selected (u ∷ us) = if is_selected u then u.id ∷ selected us else selected us

-- `LIMIT $1 OFFSET $2`
abbrev rows_at : List ℕ → ℕ → Option (List (Option ℕ))
rows_at ids offset = some (map some (take limit (drop offset ids)))

-- the whole query, on a table that does not change meanwhile
abbrev pub page_of : List UserRow → ℕ → Option (List (Option ℕ))
page_of users = rows_at (selected users)

-- the rows with calendar access and a refresh token that is not empty
pub data Queued : List UserRow → List ℕ → Type 0 where
  nobody : Queued [] []
  queued :
      {us : List UserRow} {ids : List ℕ} (id : ℕ) (c : ℕ) (token : Bytes)
      → Queued us ids
      → Queued
          (record { id = id; has_calendar_access = true; refresh_token = some (c ∷ token) } ∷ us)
          (id ∷ ids)
  no_access :
      {us : List UserRow} {ids : List ℕ} (id : ℕ) (token : Option Bytes)
      → Queued us ids
      → Queued (record { id = id; has_calendar_access = false; refresh_token = token } ∷ us) ids
  null_token :
      {us : List UserRow} {ids : List ℕ} (id : ℕ) (access : Bool)
      → Queued us ids
      → Queued (record { id = id; has_calendar_access = access; refresh_token = none } ∷ us) ids
  empty_token :
      {us : List UserRow} {ids : List ℕ} (id : ℕ) (access : Bool)
      → Queued us ids
      → Queued (record { id = id; has_calendar_access = access; refresh_token = some [] } ∷ us) ids

module _ (S : Services) where
  -- CleanupOAuthStates
  unfoldable pub cleanup_oauth_states : Prog (Unit {0})
  cleanup_oauth_states = do execute S cleanup_states; pure tt

  -- the loop of PruneOldData over extractor.Platforms
  unfoldable pub invalidate_all : Bool → List Bytes → Prog (Unit {0})
  invalidate_all has_valkey [] = pure tt
  invalidate_all has_valkey (p ∷ ps) = do
    invalidate_contests_cache S has_valkey p
    invalidate_all has_valkey ps

  -- PruneOldData, with a queue and with OnEvent set; `affected` is the number of rows of users that
  -- the second statement deletes.
  unfoldable pub prune_old_data : List Bytes → Bool → ℕ → Prog (Unit {0})
  prune_old_data platforms has_valkey affected = do
    execute S prune_ended
    failed ← execute S prune_ungranted
    elim failed [
      | some e ↦ pure tt
      | none ↦
          if ltb 0 affected then telegram (event (codes "CRON_PRUNE_UNGRANTED_USERS")) else pure tt
    ]
    invalidate_all has_valkey platforms
