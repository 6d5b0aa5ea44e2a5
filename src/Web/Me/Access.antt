-- ===== src/Web/Me/Access.antt =====
-- What Me says of the access to the calendar, by who has filled the cache.
use contest_sync.Common.{◌≡◌, refl, ℕ, Bool, true, false, none, some, is_empty, arith, ◌∷◌}
use contest_sync.World.Models.{ok, user_cache_key}
use contest_sync.World.Calls.{UserRow, valkey_get}
use contest_sync.World.Prog.{World, Flow, next, return, pure, ◌>>=◌}
use contest_sync.Sync.Syncer.{pool_of, skip}
use contest_sync.Sync.Load.{user_of_row, cached, store}
use contest_sync.Web.Calls.{Site, syncer_of}
use contest_sync.Web.Feed.{feed_token}
use contest_sync.Web.Me.{
  Profile, user_of_profile, profile_of, csrf_of, read_profile, load_profile, me,
}

-- A reply with these values of has_calendar_access and refresh_token_missing.
abbrev pub Shows : Bool → Bool → Flow Profile → Type 0
Shows access missing (next p) =
    (p.has_calendar_access ≡ access) × (p.refresh_token_missing ≡ missing)
Shows access missing (return e) = ⊥

module _ (h : Site) (u : ℕ) (r : UserRow) where
  -- Let a user have a token and the access to calendars. Where Me reads the row, it says so. Where the
  -- cache holds what SyncUser or SavePreferences has put there of the same row, Me denies both.
  pub me-user_of_row :
      (w v : World)
      → h.has_valkey ≡ true
      → h.codec.unmarshal_user (h.codec.marshal_user (user_of_row r)) ≡ some (user_of_row r)
      → h.services.on_get w.trace (user_cache_key u) ≡ some (h.codec.marshal_user (user_of_row r))
      → h.services.on_get v.trace (user_cache_key u) ≡ none
      → h.web.on_query_profile (valkey_get (user_cache_key u) ∷ v.trace) (pool_of (syncer_of h)) u
        ≡ ok (r, true)
      → is_empty r.refresh_token ≡ false
      → Shows false true (me h u w).0 × Shows true false (me h u v).0
  unfolding me load_profile read_profile profile_of user_of_profile user_of_row cached store skip
      pure ◌>>=◌ user_cache_key pool_of csrf_of is_empty feed_token
  me-user_of_row w v valkey back held absent answer token = (denied, shown)
    where
      denied : Shows false true (me h u w).0
      denied = rw (valkey, held, back) (refl, ground arith)

      shown : Shows true false (me h u v).0
      shown = rw (valkey, absent, answer) (refl, rw token refl)
