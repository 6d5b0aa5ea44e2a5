-- ===== src/Sync/Cleanup.antt =====
-- The phase of SyncUser (internal/sync/sync.go) that takes the events of unselected platforms out of
-- the calendar.
use contest_sync.Common.{
  ℕ, zero, suc, ◌+◌, ◌*◌, Bool, false, ◌||◌, Option, none, some, List, [], ◌∷◌, Bytes, ltb, ◌==◌,
  bytes_eq, if◌then◌else◌,
}
use contest_sync.World.Models.{Err, Result, ok, err}
use contest_sync.World.Calls.{Services, SyncedRow, delete_synced}
use contest_sync.World.Prog.{Prog, pure, get_calendar_id, ◌>>=◌, ◌>>◌}
use contest_sync.World.Api.{execute, events_delete, select_synced_platforms, pause}
use contest_sync.Sync.Syncer.{Syncer, pool_of}
use contest_sync.Sync.Load.{scanned}

-- a map from texts to bool that holds `true` for these
unfoldable pub member : Bytes → List Bytes → Bool
member p [] = false
member p (q ∷ qs) = bytes_eq q p || member p qs

-- `gErr, ok := err.(*googleapi.Error); ok && gErr.Code == n`
unfoldable pub has_code : ℕ → Err → Bool
has_code n e = elim e.code [ none ↦ false | some c ↦ c == n ]

-- listToDelete
unfoldable pub to_delete : List Bytes → List SyncedRow → List SyncedRow
to_delete selected [] = []
to_delete selected (r ∷ rows) =
    let rest = to_delete selected rows in if member r.platform selected then rest else r ∷ rest

-- `if attempt < 3 { time.Sleep(time.Duration(attempt) * 500 * time.Millisecond) }`
unfoldable pub back_off : ℕ → Prog (Unit {0})
back_off attempt = if ltb attempt 3 then pause (attempt * 500) else pure tt

module _ (S : Services) (s : Syncer) where
  -- `for attempt := 1; attempt <= 3; attempt++` with the attempts that are left
  unfoldable pub delete_attempts : ℕ → ℕ → Bytes → Bytes → Prog (Unit {0})
  unfolding back_off
  delete_attempts zero attempt cal id = pure tt
  delete_attempts (suc left) attempt cal id = do
    answer ← events_delete S cal id
    elim answer [
      | none ↦ pure tt
      | some e ↦
          if has_code 404 e
          then pure tt
          else (do back_off attempt; delete_attempts left (attempt + 1) cal id)
    ]

  unfoldable pub delete_items : ℕ → List SyncedRow → Prog (Unit {0})
  delete_items user_id [] = pure tt
  delete_items user_id (item ∷ items) = do
    cal ← get_calendar_id
    delete_attempts 3 1 cal item.google_event_id
    execute S (delete_synced user_id item.contest_id)
    delete_items user_id items

  unfoldable pub delete_rows : ℕ → List Bytes → Result (List (Option SyncedRow)) → Prog (Unit {0})
  delete_rows user_id platforms (err e) = pure tt
  delete_rows user_id platforms (ok rows) =
      delete_items user_id (to_delete platforms (scanned rows))

  unfoldable pub cleanup_unselected : ℕ → List Bytes → Prog (Unit {0})
  cleanup_unselected user_id platforms = do
    answer ← select_synced_platforms S (pool_of s) user_id
    delete_rows user_id platforms answer
