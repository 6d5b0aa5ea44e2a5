-- ===== src/Sync/Insert.antt =====
-- The phase of SyncUser (internal/sync/sync.go) that writes the contests into the calendar.
use contest_sync.Common.{
  ℕ, zero, suc, ◌+◌, Bool, true, false, Option, none, some, List, [], ◌∷◌, ◌++◌, Bytes, codes,
  if◌then◌else◌,
}
use contest_sync.World.Models.{Err, Result, ok, err, CachedUser, Contest, synced_events_cache_key}
use contest_sync.World.Calls.{Services, Codec, Event, insert_synced}
use contest_sync.World.Prog.{Prog, pure, leave, get_calendar_id, ◌>>=◌, ◌>>◌}
use contest_sync.World.Api.{execute, del, events_insert, events_update}
use contest_sync.Sync.Syncer.{Syncer, skip, handle_sync_error}
use contest_sync.Sync.EventId.{deterministic_event_id}
use contest_sync.Sync.Cleanup.{member, has_code, back_off}

-- the literal of a calendar.Event
unfoldable pub event_of : Codec → (Bytes → Bytes) → CachedUser → Bytes → Contest → Event
event_of J md5 u zone c = record {
  id = deterministic_event_id md5 u.google_id c.id;
  summary = codes "[" ++ (c.platform ++ (codes "] " ++ c.name));
  description =
      codes "Platform: "
      ++ (c.platform
          ++ ((b'\n' ∷ codes "URL: ")
              ++ (c.url ++ (b'\n' ∷ b'\n' ∷ codes "Synced by ContestSync"))));
  location = c.url;
  start = J.rfc3339 c.start_time;
  end = J.rfc3339 c.end_time;
  time_zone = zone;
  confirmed = false;
}

module _ (S : Services) (s : Syncer) (user_id : ℕ) where
  -- the loop around Events.Insert, with the attempts that are left and the last error
  unfoldable pub insert_attempts : ℕ → ℕ → Event → Result Bytes → Prog (Result Bytes)
  unfolding back_off
  insert_attempts zero attempt e last = pure last
  insert_attempts (suc left) attempt e last = do
    cal ← get_calendar_id
    answer ← events_insert S cal e
    elim answer [
      | ok id ↦ pure (ok id)
      | err x ↦ if has_code 409 x then pure (err x) else (do
        (deleted, _) ← handle_sync_error S s user_id x
        if deleted
            then leave none
            else (do back_off attempt; insert_attempts left (attempt + 1) e (err x)))
    ]

  -- the loop around Events.Update; updErr is nil at first
  unfoldable pub update_attempts : ℕ → ℕ → Event → Option Err → Prog (Option Err)
  unfolding back_off
  update_attempts zero attempt e last = pure last
  update_attempts (suc left) attempt e last = do
    cal ← get_calendar_id
    answer ← events_update S cal e.id e
    elim answer [
      | none ↦ pure none
      | some x ↦ do back_off attempt; update_attempts left (attempt + 1) e (some x)
    ]

  -- INSERT INTO synced_events, and whether anySynced is set by it
  unfoldable pub save_synced : Bytes → Bytes → Bool → Prog Bool
  save_synced contest_id event_id any = do
    db_err ← execute S (insert_synced user_id contest_id event_id)
    elim db_err [ none ↦ pure true | some e ↦ pure any ]

  -- `if deleted, syncErr := s.handleSyncError(ctx, userID, err); deleted { return syncErr }`
  unfoldable pub give_up : Err → Bool → Prog Bool
  give_up x any = do
    (deleted, sync_err) ← handle_sync_error S s user_id x
    if deleted then leave sync_err else pure any

  -- the conflict: the event was there before, and is written again
  unfoldable pub restored : Bytes → Bytes → Err → Bool → Option Err → Prog Bool
  restored contest_id event_id x any none = save_synced contest_id event_id any
  restored contest_id event_id x any (some upd) = give_up x any

  -- what follows the insertion, up to the end of the loop's body
  unfoldable pub inserted : Bytes → Event → Bool → Result Bytes → Prog Bool
  inserted contest_id e any (ok id) = save_synced contest_id id any
  inserted contest_id e any (err x) =
      if has_code 409 x
      then (do
        upd ← update_attempts 3 1 (record e { confirmed = true }) none
        restored contest_id e.id x any upd)
      else give_up x any

  unfoldable pub sync_contest : Bytes → Event → Bool → Prog Bool
  sync_contest contest_id e any = do
    -- a Go nil error with a nil event does not come up, since an attempt is made
    answer ← insert_attempts 3 1 e (ok [])
    inserted contest_id e any answer

module _ (S : Services) (J : Codec) (md5 : Bytes → Bytes) (s : Syncer) (u : CachedUser)
    (zone : Bytes) where
  -- `for _, c := range contests`, with anySynced
  unfoldable pub sync_contests : ℕ → List Bytes → List Contest → Bool → Prog Bool
  sync_contests user_id synced [] any = pure any
  sync_contests user_id synced (c ∷ cs) any = do
    any' ←
        (if member c.id synced
          then pure any
          else sync_contest S s user_id c.id (event_of J md5 u zone c) any)
    sync_contests user_id synced cs any'

module _ (S : Services) (s : Syncer) where
  unfoldable pub invalidate_synced : ℕ → Bool → Prog (Unit {0})
  unfolding skip
  invalidate_synced user_id any = do
    (if any then (if s.has_valkey then del S (synced_events_cache_key user_id) else skip) else skip)
    pure tt
