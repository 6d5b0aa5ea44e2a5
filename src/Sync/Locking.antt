-- ===== src/Sync/Locking.antt =====
-- The lock of SyncUser and the status that it leaves, on every path.
use contest_sync.Common.{ℕ, ◌≡◌, refl, ap, Bool, true, false, some, ◌∷◌, Bool-cases, inl, inr, ◌⊎◌}
use contest_sync.World.Models.{Err, Result, ok, err, lock_key}
use contest_sync.World.Calls.{valkey_setnx, valkey_del}
use contest_sync.World.Prog.{World, call}
use contest_sync.Sync.User.{
  Env, already_syncing, sync_locked, unlock, lock_answer, lock_by, sync_user,
}

-- The answer to SETNX lets the function in.
abbrev pub granted : Result Bool → Bool
granted (ok true) = true
granted _ = false

-- the world behind the SETNX
abbrev pub tried : ℕ → World → World
tried u w = record w { trace = valkey_setnx (lock_key u) ∷ w.trace }

module _ (E : Env) (u : ℕ) (w : World) where
  inside : World
  inside = (sync_locked E u (record w { syncing = u ∷ w.syncing })).1

  sync_user-shared :
      E.syncer.has_valkey ≡ true
      → sync_user E u w ≡ lock_answer E u (E.services.on_setnx w.trace (lock_key u)) (tried u w)
  unfolding sync_user lock_by call
  sync_user-shared shared = ap (λ b. lock_by E b u w) shared

refused :
    (E : Env) (u : ℕ) (r : Result Bool) (w : World)
    → granted r ≡ false
    → ((lock_answer E u r w).1 ≡ w) × ((e : Err) × ((lock_answer E u r w).0 ≡ some e))
unfolding lock_answer
refused E u (err e) w h = (refl, (e, refl))
refused E u (ok false) w h = (refl, (already_syncing, refl))
refused E u (ok true) w h = cc

entered :
    (E : Env) (u : ℕ) (r : Result Bool) (w : World)
    → granted r ≡ true
    → ((lock_answer E u r w).0 ≡ (sync_locked E u w).0)
      × ((lock_answer E u r w).1.trace ≡ valkey_del (lock_key u) ∷ (sync_locked E u w).1.trace)
unfolding lock_answer unlock call
entered E u (err e) w h = cc
entered E u (ok false) w h = cc
entered E u (ok true) w h = (refl, refl)

-- With Valkey, SyncUser enters only if the SETNX of the user's lock says so: otherwise it returns an
-- error and that SETNX is all it did. If it enters, the deletion of the lock is its last call, on
-- every path, where the goroutine of the notice is run when it is started, and its error is that of
-- the statements inside.
pub sync_user_unlocks :
    (E : Env) (u : ℕ) (w : World)
    → E.syncer.has_valkey ≡ true
    → let r = sync_user E u w in
      let answer = E.services.on_setnx w.trace (lock_key u) in
      ((granted answer ≡ false) × (r.1 ≡ tried u w) × ((e : Err) × (r.0 ≡ some e)))
      ⊎ ((granted answer ≡ true)
          × (r.0 ≡ (sync_locked E u (tried u w)).0)
          × (r.1.trace ≡ valkey_del (lock_key u) ∷ (sync_locked E u (tried u w)).1.trace))
sync_user_unlocks E u w shared =
    let answer = E.services.on_setnx w.trace (lock_key u) in
    rw (sync_user-shared E u w shared) (elim (Bool-cases (granted answer)) [
      | inl enters ↦ let (e, t) = entered E u answer (tried u w) enters in inr (enters, e, t)
      | inr waits ↦ let (t, e) = refused E u answer (tried u w) waits in inl (waits, t, e)
    ])
