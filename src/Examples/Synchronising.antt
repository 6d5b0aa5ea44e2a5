-- ===== src/Examples/Synchronising.antt =====
-- SyncUser and the encryption of tokens on the fixtures.
use contest_sync.Common.{◌≡◌, refl, true, false, some, [], ◌∷◌, Bytes, codes, ◌⊎◌}
use contest_sync.World.Models.{Err, ok, lock_key}
use contest_sync.World.Calls.{valkey_del}
use contest_sync.World.Prog.{World}
use contest_sync.World.Emits.{Extends}
use contest_sync.Auth.{encrypt_token, decrypt_token, is_aes_key}
use contest_sync.Auth.RoundTrip.{IsFaithful, decrypt-encrypt}
use contest_sync.Sync.Load.{load_user, user_of_row}
use contest_sync.Sync.Insert.{sync_contests}
use contest_sync.Sync.User.{sync_user, sync_locked}
use contest_sync.Sync.Isolation.Rules.{Own}
use contest_sync.Sync.Isolation.Writes.{Fresh, sync_contests-Fresh}
use contest_sync.Sync.Isolation.{Any, sync_user-Own}
use contest_sync.Sync.Locking.{granted, tried, sync_user_unlocks}
use contest_sync.Sync.Complete.{missing, calls_for, sync_contests_complete}
use contest_sync.Examples.Fixtures.{
  round_262, nonce, key, row, healthy, codec, plain, zero_sum, syncer, env, start,
}

abbrev behind_load : World
behind_load = (load_user healthy codec (syncer false) 7 start).1

sync_user-Own_example :
    Extends (Own 7 Any) start.trace (sync_user (env healthy true) 7 start).1.trace
sync_user-Own_example = sync_user-Own (env healthy true) 7 start

sync_contests-Fresh_example :
    Extends
      (Own 7 (Fresh zero_sum (codes "g7") [] (round_262 ∷ [])))
      start.trace
      (sync_contests healthy codec zero_sum
        (syncer true)
        (user_of_row row)
        (codes "UTC")
        7
        []
        (round_262 ∷ [])
        false
        start).1.trace
unfolding user_of_row
sync_contests-Fresh_example =
    sync_contests-Fresh healthy codec zero_sum (syncer true) (user_of_row row) (codes "UTC") 7 []
      (round_262 ∷ []) false start

sync_user_unlocks_example :
    let r = sync_user (env healthy true) 7 start in
    ((granted (ok true) ≡ false) × (r.1 ≡ tried 7 start) × ((e : Err) × (r.0 ≡ some e)))
    ⊎ ((granted (ok true) ≡ true)
        × (r.0 ≡ (sync_locked (env healthy true) 7 (tried 7 start)).0)
        × (r.1.trace
            ≡ valkey_del (lock_key 7) ∷ (sync_locked (env healthy true) 7 (tried 7 start)).1.trace))
sync_user_unlocks_example = sync_user_unlocks (env healthy true) 7 start refl

plain-IsFaithful : IsFaithful plain
plain-IsFaithful = record { base64 = λ s. refl; gcm = λ k n p. refl }

decrypt-encrypt_example :
    (text : Bytes) × (encrypt_token plain (some nonce) (codes "secret") key ≡ ok text)
    × (decrypt_token plain text key ≡ ok (codes "secret"))
unfolding is_aes_key
decrypt-encrypt_example =
    decrypt-encrypt plain nonce (codes "secret") key plain-IsFaithful refl refl

sync_contests_complete_example :
    (sync_contests healthy codec zero_sum
      (syncer true)
      (user_of_row row)
      (codes "UTC")
      7
      []
      (round_262 ∷ [])
      false
      start).1
    ≡ record start {
      trace =
          calls_for codec zero_sum
            (user_of_row row)
            (codes "UTC")
            7
            []
            (missing [] (round_262 ∷ []))
            [];
    }
sync_contests_complete_example =
    sync_contests_complete healthy codec zero_sum (syncer true) (user_of_row row) (codes "UTC") 7
      (λ t cal e. refl) (λ t q. refl) [] (round_262 ∷ []) false start
