-- ===== src/Sync/Isolation/Rules.antt =====
-- What belongs to one user among the calls, and the rules to prove it.
use contest_sync.Common.{ℕ, ◌≡◌, refl, Bytes, codes, itoa, ◌++◌, ◌⊎◌, inl, inr}
use contest_sync.World.Models.{
  Err, lock_key, last_sync_key, user_cache_key, synced_events_cache_key, contests_cache_key,
}
use contest_sync.World.Calls.{
  Services, Sql, mark_syncing, finish_sync, set_calendar, delete_user, delete_synced, insert_synced,
  Entry, exec, valkey_setnx, valkey_get, query_user, query_synced_platforms, query_synced,
  query_counts, notify, Notice, sync_success, sync_failure, event, valkey_set, valkey_del,
  insert_event, update_event, send_batch, web,
}
use contest_sync.World.Emits.{
  Emits, Extends, same, more, Extends-trans, emits_rules, Emits-call, Emits-bind, Emits-option,
  Emits-result, Emits-if, Emits-pure, Emits-leave, Emits-get_calendar_id,
}
use contest_sync.Sync.Syncer.{Syncer, wipe, handle_sync_error}

-- A statement about one user, and about the user `u`.
abbrev pub About : ℕ → Sql → Type 0
About u (mark_syncing v) = v ≡ u
About u (finish_sync status v) = v ≡ u
About u (set_calendar id v) = v ≡ u
About u (delete_user v) = v ≡ u
About u (delete_synced v c) = v ≡ u
About u (insert_synced v c e) = v ≡ u
About u _ = ⊥

-- The keys of the user `u`, each a text and the user's number.
abbrev pub OwnKey : ℕ → Bytes → Type 0
OwnKey u k =
    (k ≡ codes "cache:user:v2:" ++ itoa u)
    ⊎ (k ≡ codes "cache:synced_events:" ++ itoa u)
    ⊎ (k ≡ codes "lock:sync:" ++ itoa u)
    ⊎ (k ≡ codes "user:last_sync_at:" ++ itoa u)

-- the keys of the contests, which belong to no user
abbrev pub SharedKey : Bytes → Type 0
SharedKey k = (p : Bytes) × (k ≡ codes "cache:contests:" ++ p)

-- a notice about the user `u`
abbrev pub Tells : ℕ → Notice → Type 0
Tells u (sync_success v cal) = v ≡ u
Tells u (sync_failure v text) = v ≡ u
Tells u (event name) = ⊥

-- The entries about the user `u`, with events whose id is an `I`. The calls to Google name no user.
abbrev pub Own : ℕ → (Bytes → Type 0) → Entry → Type 0
Own u I (exec q) = About u q
Own u I (valkey_del k) = OwnKey u k
Own u I (valkey_setnx k) = OwnKey u k
Own u I (valkey_get k) = OwnKey u k ⊎ SharedKey k
Own u I (valkey_set k v ttl) = OwnKey u k ⊎ SharedKey k
Own u I (query_user p v) = v ≡ u
Own u I (query_synced_platforms p v) = v ≡ u
Own u I (query_synced p v) = v ≡ u
Own u I query_counts = ⊥
Own u I (notify n) = Tells u n
Own u I (insert_event cal e) = I e.id
Own u I (update_event cal id e) = (id ≡ e.id) × I e.id
Own u I (send_batch cs) = ⊥
Own u I (web c) = ⊥
Own u I _ = Unit

module _ (u : ℕ) where
  pub own_user_cache : OwnKey u (user_cache_key u)
  unfolding user_cache_key
  own_user_cache = inl refl

  pub own_synced : OwnKey u (synced_events_cache_key u)
  unfolding synced_events_cache_key
  own_synced = inr (inl refl)

  pub own_lock : OwnKey u (lock_key u)
  unfolding lock_key
  own_lock = inr (inr (inl refl))

  pub own_last_sync : OwnKey u (last_sync_key u)
  unfolding last_sync_key
  own_last_sync = inr (inr (inr refl))

module _ (u : ℕ) (I : Bytes → Type 0) where
  pub Own-contests_set : (p v : Bytes) (ttl : ℕ) → Own u I (valkey_set (contests_cache_key p) v ttl)
  unfolding contests_cache_key
  Own-contests_set p v ttl = inr (p, refl)

  pub Own-contests_get : (p : Bytes) → Own u I (valkey_get (contests_cache_key p))
  unfolding contests_cache_key
  Own-contests_get p = inr (p, refl)

  pub OwnKey-get : (k : Bytes) → OwnKey u k → Own u I (valkey_get k)
  OwnKey-get k h = inl h

  pub OwnKey-set : (k v : Bytes) (ttl : ℕ) → OwnKey u k → Own u I (valkey_set k v ttl)
  OwnKey-set k v ttl h = inl h

pub ruleset own_rules = (
  emits_rules, Emits-call, own_user_cache, own_synced, own_last_sync, own_lock, Own-contests_set,
  OwnKey-set, OwnKey-get, Own-contests_get,
)

module _ (S : Services) (s : Syncer) (u : ℕ) (I : Bytes → Type 0) where
  pub Emits-handle_sync_error : (e : Err) → Emits (Own u I) (handle_sync_error S s u e)
  unfolding handle_sync_error wipe
  Emits-handle_sync_error e = search own_rules depth 8
