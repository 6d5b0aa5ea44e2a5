-- ===== src/Sync/Isolation.antt =====
-- Whom SyncUser touches: every statement and every key that it writes is that user's.
pub mod Rules
pub mod Reads
pub mod Writes
use contest_sync.Common.{
  ℕ, zero, suc, ◌+◌, ◌∙◌, ◌≡◌, ◌≢◌, refl, Bool, true, false, Option, none, some, List, [], ◌∷◌,
  ◌++◌, Bytes, ◌⊎◌, inl, inr, Bool-cases, if◌then◌else◌,
}
use contest_sync.World.Models.{
  Err, Result, ok, err, CachedUser, Contest, lock_key, last_sync_key, user_cache_key,
  synced_events_cache_key, contests_cache_key, contests_cache_ttl,
}
use contest_sync.World.Calls.{
  Services, Codec, Sql, mark_syncing, finish_sync, set_calendar, delete_user, delete_synced,
  insert_synced, Entry, exec, valkey_setnx, valkey_set, valkey_del, insert_event, update_event,
  SyncedRow, Event,
}
use contest_sync.World.Prog.{
  World, Prog, Flow, next, return, error_of, call, pure, leave, ◌>>=◌, ◌>>◌,
}
use contest_sync.World.Emits.{
  Emits, Extends, same, more, Extends-trans, emits_rules, Emits-call, Emits-bind, Emits-option,
  Emits-result, Emits-if, Emits-pure, Emits-leave, Emits-get_calendar_id,
}
use contest_sync.Sync.Syncer.{Syncer, handle_sync_error, skip, is_revoked}
use contest_sync.Sync.Load.{
  load_user, primary_timezone, resolve_calendar, load_synced, load_contests, zone_of, created,
  read_user, store, cached, synced_rows, read_synced, store_missed, read_missed, cached_contests,
  of_platform, bind_option,
}
use contest_sync.Sync.Insert.{
  insert_attempts, update_attempts, save_synced, give_up, restored, inserted, sync_contest,
  sync_contests, invalidate_synced, event_of,
}
use contest_sync.Sync.Cleanup.{
  member, has_code, back_off, delete_attempts, delete_items, delete_rows, cleanup_unselected,
}
use contest_sync.Sync.User.{
  Env, fail_if, body, sync_calendar, finish, stamp, stage, loaded, unlock, release, holds,
  lock_answer, sync_local, lock_by, sync_loaded, sync_locked, sync_user, announce, notice_of,
}
use contest_sync.Sync.Isolation.Rules.{
  About, OwnKey, Own, own_user_cache, own_synced, own_lock, own_last_sync, Own-contests_set,
  OwnKey-set, own_rules, Emits-handle_sync_error,
}
use contest_sync.Sync.Isolation.Reads.{
  Emits-cached, Emits-store, Emits-read_user, Emits-load_user, Emits-zone_of,
  Emits-primary_timezone, Emits-created, Emits-resolve_calendar, Emits-synced_rows,
  Emits-read_synced, Emits-load_synced, Emits-store_missed, Emits-read_missed,
  Emits-cached_contests, Emits-load_contests, Emits-back_off, Emits-delete_attempts,
  Emits-delete_items, Emits-delete_rows, Emits-cleanup_unselected,
}
use contest_sync.Sync.Isolation.Writes.{
  Emits-insert_attempts, Emits-update_attempts, Emits-save_synced, Emits-give_up, Emits-restored,
  Emits-inserted, Emits-sync_contest, Emits-sync_contests,
}

-- every id
abbrev pub Any : Bytes → Type 0
Any id = Unit

module _ (E : Env) (u : ℕ) where
  open E use {services, codec, md5, cipher, syncer}

  Emits-invalidate_synced :
      (any : Bool) → Emits (Own u Any) (invalidate_synced services syncer u any)
  unfolding invalidate_synced
  Emits-invalidate_synced any = search own_rules depth 8

  Emits-fail_if : (e : Option Err) → Emits (Own u Any) (fail_if e)
  Emits-fail_if none = Emits-pure tt
  Emits-fail_if (some e) = Emits-leave (some e)

  Emits-body :
      (v : CachedUser) (zone : Bytes) (synced ps : List Bytes)
      → Emits (Own u Any) (body E u v zone synced ps)
  unfolding body
  Emits-body v zone synced [] = Emits-leave none
  Emits-body v zone synced (p ∷ ps) =
      search (own_rules, Emits-load_contests, Emits-sync_contests, Emits-invalidate_synced)

  Emits-sync_calendar : (v : CachedUser) → Emits (Own u Any) (sync_calendar E u v)
  unfolding sync_calendar
  Emits-sync_calendar v =
      search
        (
          own_rules, Emits-fail_if, Emits-primary_timezone, Emits-resolve_calendar,
          Emits-cleanup_unselected, Emits-load_synced, Emits-body,
        )
        depth 9

  Emits-stamp : Emits (Own u Any) (stamp E u)
  unfolding stamp call
  Emits-stamp =
      Emits-if syncer.has_valkey _ _
        (record {
          at = λ w.
              more _
                (OwnKey-set u Any (last_sync_key u) (services.now_rfc3339 w.trace) 3600
                  (own_last_sync u))
                same;
          keeps = λ w. refl;
        })
        (Emits-pure none)

  Emits-announce : (e : Option Err) → Emits (Own u Any) (announce syncer u e)
  unfolding announce notice_of
  Emits-announce none = search own_rules
  Emits-announce (some e) = search own_rules

  Emits-finish : (e : Option Err) → Emits (Own u Any) (finish E u e)
  unfolding finish
  Emits-finish e = search (own_rules, Emits-stamp, Emits-announce)

  Emits-stage : (v : CachedUser) → Emits (Own u Any) (stage E u v)
  unfolding stage
  Emits-stage v = search (own_rules, Emits-sync_calendar)

  Extends-loaded :
      (r : Flow CachedUser) (w : World) → Extends (Own u Any) w.trace (loaded E u r w).1.trace
  unfolding loaded sync_loaded
  Extends-loaded (return e) w = same
  Extends-loaded (next v) w =
      Extends-trans ((Emits-stage v).at w)
        ((Emits-finish (error_of (stage E u v w).0)).at (stage E u v w).1)

  -- the local map of users is left alone inside the lock
  syncing-loaded : (r : Flow CachedUser) (w : World) → (loaded E u r w).1.syncing ≡ w.syncing
  unfolding loaded sync_loaded
  syncing-loaded (return e) w = refl
  syncing-loaded (next v) w =
      (Emits-finish (error_of (stage E u v w).0)).keeps (stage E u v w).1 ∙ (Emits-stage v).keeps w

  pub syncing-sync_locked : (w : World) → (sync_locked E u w).1.syncing ≡ w.syncing
  unfolding sync_locked
  syncing-sync_locked w =
      let r = load_user services codec syncer u w in
      syncing-loaded r.0 r.1 ∙ (Emits-load_user services codec syncer u Any).keeps w

  Extends-sync_locked : (w : World) → Extends (Own u Any) w.trace (sync_locked E u w).1.trace
  unfolding sync_locked
  Extends-sync_locked w = Extends-trans ((Emits-load_user services codec syncer u Any).at w) (
      Extends-loaded (load_user services codec syncer u w).0
        (load_user services codec syncer u w).1)

  Extends-lock_answer :
      (r : Result Bool) (w : World) → Extends (Own u Any) w.trace (lock_answer E u r w).1.trace
  unfolding lock_answer unlock call
  Extends-lock_answer (err e) w = same
  Extends-lock_answer (ok false) w = same
  Extends-lock_answer (ok true) w = more _ (own_lock u) (Extends-sync_locked w)

  Extends-sync_local : (w : World) → Extends (Own u Any) w.trace (sync_local E u w).1.trace
  unfolding sync_local release
  Extends-sync_local w = elim (Bool-cases (holds u w.syncing)) [
    | inl busy ↦ rw busy same
    | inr idle ↦ rw idle (Extends-sync_locked (record w { syncing = u ∷ w.syncing }))
  ]

  Extends-lock_by :
      (shared : Bool) (w : World) → Extends (Own u Any) w.trace (lock_by E shared u w).1.trace
  unfolding lock_by call
  Extends-lock_by true w = Extends-trans (more _ (own_lock u) same) (Extends-lock_answer _ _)
  Extends-lock_by false w = Extends-sync_local w

-- Whatever the services answer, every statement that SyncUser executes for a user, every row of users
-- or of synced events that it reads, and every notice names that user; and every key of the cache that
-- it locks, reads, writes or deletes is one of that user's, the text of the key with the user's
-- number, apart from the contests' keys, which it only reads and writes.
pub sync_user-Own :
    (E : Env) (u : ℕ) (w : World) → Extends (Own u Any) w.trace (sync_user E u w).1.trace
unfolding sync_user
sync_user-Own E u w = Extends-lock_by E u E.syncer.has_valkey w
