-- ===== src/Sync/Complete.antt =====
-- That SyncUser's loop over the contests leaves none out, and does nothing when nothing is missing.
use contest_sync.Common.{
  ℕ, ◌≡◌, refl, ap, ◌∙◌, Bool, true, none, List, [], ◌∷◌, Bytes, All, Bool-cases, inl, inr,
  if◌then◌else◌,
}
use contest_sync.World.Models.{Result, ok, CachedUser, Contest}
use contest_sync.World.Calls.{Trace, Services, Codec, Event, Sql, exec, insert_event, insert_synced}
use contest_sync.World.Prog.{World, Flow, next, ◌>>=◌, continue}
use contest_sync.Sync.Syncer.{Syncer}
use contest_sync.Sync.Cleanup.{member}
use contest_sync.Sync.Insert.{
  event_of, insert_attempts, save_synced, inserted, sync_contest, sync_contests,
}

-- the contests of a list that are not synced yet
abbrev pub missing : List Bytes → List Contest → List Contest
missing synced [] = []
missing synced (c ∷ cs) =
    let rest = missing synced cs in if member c.id synced then rest else c ∷ rest

-- The calls for a list of contests: for each of them an insertion, and then the row.
abbrev pub calls_for :
    Codec → (Bytes → Bytes) → CachedUser → Bytes → ℕ → Bytes → List Contest → Trace → Trace
calls_for J md5 v zone u cal [] t = t
calls_for J md5 v zone u cal (c ∷ cs) t =
    let e = event_of J md5 v zone c in
    calls_for J md5 v zone u cal cs (exec (insert_synced u c.id e.id) ∷ insert_event cal e ∷ t)

module _ (S : Services) (J : Codec) (md5 : Bytes → Bytes) (s : Syncer) (v : CachedUser)
    (zone : Bytes) (u : ℕ) where
  -- If every contest of the list is among the synced ones, the loop makes no call and changes nothing.
  pub sync_contests_idle :
      (synced : List Bytes) (cs : List Contest) (any : Bool) (w : World)
      → All (λ c. member c.id synced ≡ true) cs
      → sync_contests S J md5 s v zone u synced cs any w ≡ (next any, w)
  unfolding sync_contests ◌>>=◌
  sync_contests_idle synced [] any w h = refl
  sync_contests_idle synced (c ∷ cs) any w (h, hs) = rw h (sync_contests_idle synced cs any w hs)

  module _ (inserts : (t : Trace) (cal : Bytes) (e : Event) → S.on_insert_event t cal e ≡ ok e.id)
      (executes : (t : Trace) (q : Sql) → S.on_exec t q ≡ none) where
    insert_attempts-ok :
        (e : Event) (w : World)
        → insert_attempts S s u 3 1 e (ok []) w
          ≡ (next (ok e.id), record w { trace = insert_event w.calendar_id e ∷ w.trace })
    unfolding insert_attempts ◌>>=◌
    insert_attempts-ok e w = rw (inserts w.trace w.calendar_id e)

    save_synced-true :
        (c id : Bytes) (any : Bool) (w : World)
        → save_synced S s u c id any w
          ≡ (next true, record w { trace = exec (insert_synced u c id) ∷ w.trace })
    unfolding save_synced ◌>>=◌
    save_synced-true c id any w = rw (executes w.trace (insert_synced u c id))

    -- the trace behind a contest that is not synced
    abbrev behind : Bytes → Event → World → World
    behind c e w = record w {
      trace = exec (insert_synced u c e.id) ∷ insert_event w.calendar_id e ∷ w.trace;
    }

    sync_contest-behind :
        (c : Bytes) (e : Event) (any : Bool) (w : World)
        → sync_contest S s u c e any w ≡ (next true, behind c e w)
    unfolding sync_contest inserted ◌>>=◌
    sync_contest-behind c e any w =
        ap (λ (r : Flow (Result Bytes) × World). continue r.0 (inserted S s u c e any) r.1)
          (insert_attempts-ok e w)
        ∙ save_synced-true c e.id any _

    -- If every insertion into the calendar and every statement succeeds, the calls of the loop are
    -- one insertion and one row of synced_events for each contest that is not synced yet, in their
    -- order, and no other.
    pub sync_contests_complete :
        (synced : List Bytes) (cs : List Contest) (any : Bool) (w : World)
        → (sync_contests S J md5 s v zone u synced cs any w).1
          ≡ record w { trace = calls_for J md5 v zone u w.calendar_id (missing synced cs) w.trace }
    unfolding sync_contests ◌>>=◌
    sync_contests_complete synced [] any w = refl
    sync_contests_complete synced (c ∷ cs) any w = elim (Bool-cases (member c.id synced)) [
      | inl h ↦ rw h (sync_contests_complete synced cs any w)
      | inr h ↦
          rw (h, sync_contest-behind c.id (event_of J md5 v zone c) any w)
            (sync_contests_complete synced cs true (behind c.id (event_of J md5 v zone c) w))
    ]
