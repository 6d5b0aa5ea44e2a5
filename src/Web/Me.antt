-- ===== src/Web/Me.antt =====
-- Me of internal/api/handlers.go: what a user sees of the account.
pub mod Access
use contest_sync.Common.{
  ℕ, ◌≡◌, refl, Bool, true, false, not, ◌||◌, Option, none, some, List, [], ◌++◌, Bytes, codes,
  is_empty, if◌then◌else◌,
}
use contest_sync.World.Models.{Err, Result, ok, err, CachedUser, user_cache_key, user_cache_ttl}
use contest_sync.World.Calls.{Trace, UserRow, valkey_get, web, query_profile, get_session}
use contest_sync.World.Prog.{World, Prog, Flow, next, return, pure, leave, call, ◌>>=◌, ◌>>◌}
use contest_sync.World.Api.{get}
use contest_sync.Sync.Syncer.{pool_of}
use contest_sync.Sync.Load.{bind_option, user_of_row, cached, store}
use contest_sync.Web.Calls.{Site, syncer_of, refuse, problem, ask, signed_in}
use contest_sync.Web.Feed.{feed_token}

-- the struct userResp
pub record Profile : Type 0 where
  pub email : Bytes
  pub use_dedicated : Bool
  pub platforms : List Bytes
  pub has_calendar_access : Bool
  pub csrf_token : Bytes
  pub refresh_token_missing : Bool
  pub ical_feed_url : Bytes

-- the user as the SELECT of Me fills it in, has_calendar_access with the rest
unfoldable pub user_of_profile : UserRow → Bool → CachedUser
unfolding user_of_row
user_of_profile r access = record (user_of_row r) { has_calendar_access = access }

-- `session.Values["csrf_token"]`, where it is there
unfoldable pub csrf_of : Result (Option Bytes) → Bytes
csrf_of (ok (some token)) = token
csrf_of (ok none) = []
csrf_of (err e) = []

module _ (h : Site) where
  open h use {services, web, codec}

  unfoldable pub profile_of : CachedUser → Result (Option Bytes) → Profile
  profile_of u session = record {
    email = u.email;
    use_dedicated = u.use_dedicated;
    platforms = u.platforms;
    has_calendar_access = u.has_calendar_access;
    csrf_token = csrf_of session;
    refresh_token_missing = is_empty u.refresh_token || not u.has_calendar_access;
    ical_feed_url = codes "/feed/ical?token=" ++ feed_token web u.id;
  }

  -- behind the query of the user
  unfoldable pub read_profile : ℕ → Result (UserRow × Bool) → Prog CachedUser
  read_profile user_id (err e) = refuse 404 (codes "user not found")
  read_profile user_id (ok (r, access)) = do
    store services codec (syncer_of h) (user_cache_key user_id)
        (codec.marshal_user (user_of_profile r access)) user_cache_ttl
    pure (user_of_profile r access)

  unfoldable pub load_profile : ℕ → Option CachedUser → Prog CachedUser
  load_profile user_id (some u) = pure u
  load_profile user_id none = do
    answer ←
        ask (query_profile (pool_of (syncer_of h)) user_id)
          (λ t. web.on_query_profile t (pool_of (syncer_of h)) user_id)
    read_profile user_id answer

  -- behind the test for a user
  unfoldable pub me : ℕ → Prog Profile
  me user_id = do
    val ← cached services codec (syncer_of h) (user_cache_key user_id)
    u ← load_profile user_id (bind_option val codec.unmarshal_user)
    session ← ask get_session web.on_get_session
    pure (profile_of u session)

  -- Me, with the user of the request's context
  unfoldable pub me_request : Option ℕ → Prog Profile
  me_request user = signed_in user me
