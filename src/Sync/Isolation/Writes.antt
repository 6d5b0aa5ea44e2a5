-- ===== src/Sync/Isolation/Writes.antt =====
-- The phase of SyncUser that writes events calls only what belongs to the user.
use contest_sync.Common.{
  ℕ, zero, suc, ◌+◌, ◌≡◌, refl, Bool, true, false, Option, none, some, List, [], ◌∷◌, Bytes,
  if◌then◌else◌,
}
use contest_sync.Sync.EventId.{deterministic_event_id}
use mathlib.Core.List.{Memᴰ}
use contest_sync.World.Models.{Err, Result, ok, err, CachedUser, Contest}
use contest_sync.World.Calls.{Services, Codec, Event}
use contest_sync.World.Prog.{World, pure}
use contest_sync.World.Emits.{
  Emits, Extends, Emits-call, Emits-bind, Emits-option, Emits-result, Emits-if, Emits-pure,
  Emits-leave, Emits-get_calendar_id,
}
use contest_sync.Sync.Syncer.{Syncer}
use contest_sync.Sync.Cleanup.{member, has_code}
use contest_sync.Sync.Insert.{
  insert_attempts, update_attempts, save_synced, give_up, restored, inserted, sync_contest,
  sync_contests, event_of,
}
use contest_sync.Sync.Isolation.Rules.{Own, own_rules, Emits-handle_sync_error}
use contest_sync.Sync.Isolation.Reads.{Emits-back_off}

module _ (S : Services) (s : Syncer) (u : ℕ) (I : Bytes → Type 0) where
  pub Emits-insert_attempts :
      (left attempt : ℕ) (e : Event) (last : Result Bytes)
      → I e.id
      → Emits (Own u I) (insert_attempts S s u left attempt e last)
  unfolding insert_attempts
  Emits-insert_attempts zero attempt e last h = search own_rules
  Emits-insert_attempts (suc left) attempt e last h = Emits-bind _ _ Emits-get_calendar_id λ cal.
      Emits-bind _ _ (Emits-call _ _ h) λ answer.
        Emits-result answer _ _
          (λ x. Emits-if (has_code 409 x) _ _ (Emits-pure (err x)) (
            Emits-bind _ _ (Emits-handle_sync_error S s u I x) λ d.
              Emits-if d.0 _ _ (Emits-leave none) (
                Emits-bind _ _ (Emits-back_off S s u I attempt)
                  λ _. Emits-insert_attempts left (attempt + 1) e (err x) h)))
          λ id. Emits-pure (ok id)

  pub Emits-update_attempts :
      (left attempt : ℕ) (e : Event) (last : Option Err)
      → I e.id
      → Emits (Own u I) (update_attempts S s u left attempt e last)
  unfolding update_attempts
  Emits-update_attempts zero attempt e last h = search own_rules
  Emits-update_attempts (suc left) attempt e last h = Emits-bind _ _ Emits-get_calendar_id λ cal.
      Emits-bind _ _ (Emits-call _ _ (refl, h)) λ answer.
        Emits-option answer _ _ (Emits-pure none) λ x.
          Emits-bind _ _ (Emits-back_off S s u I attempt)
            λ _. Emits-update_attempts left (attempt + 1) e (some x) h

  pub Emits-save_synced : (c id : Bytes) (any : Bool) → Emits (Own u I) (save_synced S s u c id any)
  unfolding save_synced
  Emits-save_synced c id any =
      Emits-bind _ _ (Emits-call _ _ refl)
        λ db. Emits-option db _ _ (Emits-pure true) λ e. Emits-pure any

  pub Emits-give_up : (x : Err) (any : Bool) → Emits (Own u I) (give_up S s u x any)
  unfolding give_up
  Emits-give_up x any = search (own_rules, Emits-handle_sync_error)

  pub Emits-restored :
      (c id : Bytes) (x : Err) (any : Bool) (o : Option Err)
      → Emits (Own u I) (restored S s u c id x any o)
  unfolding restored
  Emits-restored c id x any none = Emits-save_synced c id any
  Emits-restored c id x any (some e) = Emits-give_up x any

  pub Emits-inserted :
      (c : Bytes) (e : Event) (any : Bool) (r : Result Bytes)
      → I e.id
      → Emits (Own u I) (inserted S s u c e any r)
  unfolding inserted
  Emits-inserted c e any (ok id) h = Emits-save_synced c id any
  Emits-inserted c e any (err x) h =
      search (own_rules, Emits-update_attempts, Emits-restored, Emits-give_up)

  pub Emits-sync_contest :
      (c : Bytes) (e : Event) (any : Bool) → I e.id → Emits (Own u I) (sync_contest S s u c e any)
  unfolding sync_contest
  Emits-sync_contest c e any h = search (own_rules, Emits-insert_attempts, Emits-inserted)

-- The ids of the contests of a list that are not synced yet.
abbrev pub Fresh : (Bytes → Bytes) → Bytes → List Bytes → List Contest → Bytes → Type 0
Fresh md5 google_id synced cs id =
    (c : Contest) × Memᴰ c cs
    × (member c.id synced ≡ false)
    × (id ≡ deterministic_event_id md5 google_id c.id)

module _ (S : Services) (J : Codec) (md5 : Bytes → Bytes) (s : Syncer) (v : CachedUser)
    (zone : Bytes) (u : ℕ) (I : Bytes → Type 0) where
  sync_one :
      (synced : List Bytes) (c : Contest) (any known : Bool)
      → member c.id synced ≡ known
      → (known ≡ false → I (deterministic_event_id md5 v.google_id c.id))
      → Emits
          (Own u I)
          (if known then pure any else sync_contest S s u c.id (event_of J md5 v zone c) any)
  unfolding event_of
  sync_one synced c any true e h = Emits-pure any
  sync_one synced c any false e h = Emits-sync_contest S s u I c.id _ any (h refl)

  Emits-sync_contests_for :
      (synced : List Bytes) (cs : List Contest) (any : Bool)
      → ((c : Contest)
          → Memᴰ c cs
          → member c.id synced ≡ false
          → I (deterministic_event_id md5 v.google_id c.id))
      → Emits (Own u I) (sync_contests S J md5 s v zone u synced cs any)
  unfolding sync_contests
  Emits-sync_contests_for synced [] any h = Emits-pure any
  Emits-sync_contests_for synced (c ∷ cs) any h =
      Emits-bind _ _ (sync_one synced c any (member c.id synced) refl (h c (Memᴰ.head refl)))
        λ any'. Emits-sync_contests_for synced cs any' (λ d m. h d (Memᴰ.tail m))

module _ (S : Services) (J : Codec) (md5 : Bytes → Bytes) (s : Syncer) (v : CachedUser)
    (zone : Bytes) (u : ℕ) where
  -- The loop over the contests inserts and updates events for contests of the list that are not
  -- among the synced ones, under their deterministic ids, and for no other.
  pub sync_contests-Fresh :
      (synced : List Bytes) (cs : List Contest) (any : Bool) (w : World)
      → Extends
          (Own u (Fresh md5 v.google_id synced cs))
          w.trace
          (sync_contests S J md5 s v zone u synced cs any w).1.trace
  sync_contests-Fresh synced cs any w =
      (Emits-sync_contests_for S J md5 s v zone u (Fresh md5 v.google_id synced cs) synced cs any
          (λ c m e. (c, m, e, refl))).at
        w

  pub Emits-sync_contests :
      (synced : List Bytes) (cs : List Contest) (any : Bool)
      → Emits (Own u (λ _. Unit {0})) (sync_contests S J md5 s v zone u synced cs any)
  Emits-sync_contests synced cs any =
      Emits-sync_contests_for S J md5 s v zone u (λ _. Unit {0}) synced cs any (λ c m e. tt)
