-- ===== src/Sync/Isolation/Reads.antt =====
-- The phases of SyncUser that read, and the cleanup, call only what belongs to the user.
use contest_sync.Common.{ℕ, zero, suc, ◌+◌, refl, Option, none, some, List, [], ◌∷◌, ◌++◌, Bytes}
use contest_sync.World.Models.{
  Result, ok, err, CachedUser, Contest, contests_cache_key, contests_cache_ttl,
}
use contest_sync.World.Calls.{Services, Codec, valkey_get, valkey_set, SyncedRow}
use contest_sync.World.Emits.{
  Emits, Emits-call, Emits-bind, Emits-option, Emits-if, Emits-pure, Emits-get_calendar_id,
}
use contest_sync.Sync.Syncer.{Syncer}
use contest_sync.Sync.Load.{
  load_user, primary_timezone, resolve_calendar, load_synced, load_contests, zone_of, created,
  read_user, store, cached, synced_rows, read_synced, store_missed, read_missed, cached_contests,
  of_platform, bind_option,
}
use contest_sync.Sync.Cleanup.{
  has_code, back_off, delete_attempts, delete_items, delete_rows, cleanup_unselected,
}
use contest_sync.Sync.Isolation.Rules.{
  Own, Own-contests_set, Own-contests_get, own_rules, Emits-handle_sync_error,
}

module _ (S : Services) (J : Codec) (s : Syncer) (u : ℕ) (I : Bytes → Type 0) where
  pub Emits-cached : (key : Bytes) → Own u I (valkey_get key) → Emits (Own u I) (cached S J s key)
  unfolding cached
  Emits-cached key h = search own_rules

  pub Emits-store :
      (key val : Bytes) (ttl : ℕ)
      → Own u I (valkey_set key val ttl)
      → Emits (Own u I) (store S J s key val ttl)
  unfolding store
  Emits-store key val ttl h = search own_rules

  pub Emits-read_user : (o : Option CachedUser) → Emits (Own u I) (read_user S J s u o)
  unfolding read_user
  Emits-read_user none = search (own_rules, Emits-store) depth 8
  Emits-read_user (some v) = search own_rules

  pub Emits-load_user : Emits (Own u I) (load_user S J s u)
  unfolding load_user
  Emits-load_user = search (own_rules, Emits-cached, Emits-read_user)

  pub Emits-zone_of : (r : Result Bytes) → Emits (Own u I) (zone_of S J s u r)
  unfolding zone_of
  Emits-zone_of (ok z) = search own_rules
  Emits-zone_of (err e) = search (own_rules, Emits-handle_sync_error)

  pub Emits-primary_timezone : Emits (Own u I) (primary_timezone S J s u)
  unfolding primary_timezone
  Emits-primary_timezone = search (own_rules, Emits-zone_of)

  pub Emits-created : (r : Result Bytes) → Emits (Own u I) (created S J s u r)
  unfolding created
  Emits-created (ok id) = search own_rules depth 9
  Emits-created (err e) = search (own_rules, Emits-handle_sync_error)

  pub Emits-resolve_calendar :
      (v : CachedUser) (zone : Bytes) → Emits (Own u I) (resolve_calendar S J s u v zone)
  unfolding resolve_calendar
  Emits-resolve_calendar v zone = search (own_rules, Emits-created) depth 8

  pub Emits-synced_rows :
      (r : Result (List (Option Bytes))) → Emits (Own u I) (synced_rows S J s u r)
  unfolding synced_rows
  Emits-synced_rows (ok rows) = search (own_rules, Emits-store) depth 8
  Emits-synced_rows (err e) = search own_rules

  pub Emits-read_synced : (o : Option (List Bytes)) → Emits (Own u I) (read_synced S J s u o)
  unfolding read_synced
  Emits-read_synced none = search (own_rules, Emits-synced_rows)
  Emits-read_synced (some ids) = search own_rules

  pub Emits-load_synced : Emits (Own u I) (load_synced S J s u)
  unfolding load_synced
  Emits-load_synced = search (own_rules, Emits-cached, Emits-read_synced)

  pub Emits-store_missed :
      (ps : List Bytes) (rows contests : List Contest)
      → Emits (Own u I) (store_missed S J s ps rows contests)
  unfolding store_missed
  Emits-store_missed [] rows contests = search own_rules
  Emits-store_missed (p ∷ ps) rows contests =
      Emits-bind _ _
        (Emits-store (contests_cache_key p) (J.marshal_contests (of_platform S J s p rows))
          contests_cache_ttl
          (Own-contests_set u I p (J.marshal_contests (of_platform S J s p rows))
            contests_cache_ttl))
        λ _. Emits-store_missed ps rows (contests ++ of_platform S J s p rows)

  pub Emits-read_missed :
      (ps : List Bytes) (contests : List Contest) → Emits (Own u I) (read_missed S J s ps contests)
  unfolding read_missed
  Emits-read_missed [] contests = search own_rules
  Emits-read_missed (p ∷ ps) contests = search (own_rules, Emits-store_missed) depth 8

  pub Emits-cached_contests :
      (ps : List Bytes) (contests : List Contest) (missed : List Bytes)
      → Emits (Own u I) (cached_contests S J s ps contests missed)
  unfolding cached_contests
  Emits-cached_contests [] contests missed = Emits-read_missed missed contests
  Emits-cached_contests (p ∷ ps) contests missed =
      Emits-bind _ _ (Emits-call _ _ (Own-contests_get u I p)) λ val.
        Emits-option (bind_option val J.unmarshal_contests) _ _
          (Emits-cached_contests ps contests (missed ++ p ∷ []))
          λ cs. Emits-cached_contests ps (contests ++ cs) missed

  pub Emits-load_contests : (ps : List Bytes) → Emits (Own u I) (load_contests S J s ps)
  unfolding load_contests
  Emits-load_contests ps = search (own_rules, Emits-cached_contests) depth 8

module _ (S : Services) (s : Syncer) (u : ℕ) (I : Bytes → Type 0) where
  pub Emits-back_off : (attempt : ℕ) → Emits (Own u I) (back_off attempt)
  unfolding back_off
  Emits-back_off attempt = search own_rules

  pub Emits-delete_attempts :
      (left attempt : ℕ) (cal id : Bytes)
      → Emits (Own u I) (delete_attempts S s left attempt cal id)
  unfolding delete_attempts
  Emits-delete_attempts zero attempt cal id = search own_rules
  Emits-delete_attempts (suc left) attempt cal id = Emits-bind _ _ (Emits-call _ _ tt) λ answer.
      Emits-option answer _ _ (Emits-pure tt) λ e. Emits-if (has_code 404 e) _ _ (Emits-pure tt) (
        Emits-bind _ _ (Emits-back_off attempt)
          λ _. Emits-delete_attempts left (attempt + 1) cal id)

  pub Emits-delete_items : (items : List SyncedRow) → Emits (Own u I) (delete_items S s u items)
  unfolding delete_items
  Emits-delete_items [] = search own_rules
  Emits-delete_items (item ∷ items) = Emits-bind _ _ Emits-get_calendar_id λ cal.
      Emits-bind _ _ (Emits-delete_attempts 3 1 cal item.google_event_id)
        λ _. Emits-bind _ _ (Emits-call _ _ refl) λ _. Emits-delete_items items

  pub Emits-delete_rows :
      (ps : List Bytes) (r : Result (List (Option SyncedRow)))
      → Emits (Own u I) (delete_rows S s u ps r)
  unfolding delete_rows
  Emits-delete_rows ps (ok rows) = Emits-delete_items _
  Emits-delete_rows ps (err e) = search own_rules

  pub Emits-cleanup_unselected : (ps : List Bytes) → Emits (Own u I) (cleanup_unselected S s u ps)
  unfolding cleanup_unselected
  Emits-cleanup_unselected ps = search (own_rules, Emits-delete_rows)
