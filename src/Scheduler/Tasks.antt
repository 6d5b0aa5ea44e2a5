-- ===== src/Scheduler/Tasks.antt =====
-- RunExtraction and SyncAllUsers of internal/scheduler/scheduler.go as programs over the trace, with
-- OnEvent set. The errors of the publications are only logged.
use contest_sync.Common.{ℕ, Option, List, [], ◌∷◌, Bytes, codes}
use contest_sync.World.Calls.{web, publish_extraction, publish_sync, event}
use contest_sync.World.Prog.{Prog, pure, call, ◌>>◌}
use contest_sync.World.Api.{telegram}
use contest_sync.Scheduler.{sync_all_users}

-- the loop over the names of the fetchers, in the order in which the map gives them
unfoldable pub queue_extractions : List Bytes → Prog (Unit {0})
queue_extractions [] = pure tt
queue_extractions (name ∷ names) = do
  call (web (publish_extraction name)) (λ t. tt)
  queue_extractions names

unfoldable pub run_extraction : List Bytes → Prog (Unit {0})
run_extraction names = do
  queue_extractions names
  telegram (event (codes "CRON_CONTEST_EXTRACTION"))

unfoldable pub queue_syncs : List ℕ → Prog (Unit {0})
queue_syncs [] = pure tt
queue_syncs (user_id ∷ users) = do call (web (publish_sync user_id)) (λ t. tt); queue_syncs users

-- SyncAllUsers with the answers of its query by their offset, for as many passes as are given
unfoldable pub run_sync_all : (ℕ → Option (List (Option ℕ))) → ℕ → Prog (Unit {0})
run_sync_all query passes = do
  telegram (event (codes "CRON_SYNC_ALL_USERS"))
  queue_syncs (sync_all_users query passes)
