-- ===== src/Web/Login.antt =====
-- GoogleLogin, GoogleCallback and Logout of internal/api/handlers.go.
pub mod Gate
use contest_sync.Common.{
  ℕ, Bool, true, false, not, ◌&&◌, Option, none, some, List, [], ◌∷◌, Bytes, codes, is_empty,
  bytes_eq, contains, if◌then◌else◌,
}
use contest_sync.World.Models.{Err, Result, ok, err, user_cache_key, calendar_validation_cache_key}
use contest_sync.World.Calls.{
  insert_state, take_state, upsert_user, exchange, userinfo, publish_sync, valkey_dels, read_random,
  get_session, clear_session, save_session,
}
use contest_sync.World.Prog.{Prog, pure, leave, ◌>>=◌, ◌>>◌}
use contest_sync.Auth.{encrypt_token}
use contest_sync.Web.Calls.{Site, Token, refuse, problem, ask, calendar_scope}

-- The cookie oauth_state, with the fields that are not constant, and the address to go on to.
pub record LoginReply : Type 0 where
  pub state : Bytes
  pub secure : Bool
  pub location : Bytes

-- A request of Google's redirect: the values of state and code, and the cookie's where it is there.
pub record Redirect : Type 0 where
  pub state : Bytes
  pub code : Bytes
  pub cookie : Option Bytes

-- `h.Env != "development" && h.Env != "dev" && h.Env != "local"`
abbrev pub is_secure : Bytes → Bool
is_secure env =
    not (bytes_eq env (codes "development"))
    && (not (bytes_eq env (codes "dev")) && not (bytes_eq env (codes "local")))

-- `token.Extra("scope").(string)`, searched
abbrev pub has_calendar_access : Token → Bool
has_calendar_access token = contains token.scope calendar_scope

abbrev pub or_empty : Result Bytes → Bytes
or_empty (ok text) = text
or_empty (err e) = []

abbrev pub random_or_empty : Option Bytes → Bytes
random_or_empty (some text) = text
random_or_empty none = []

module _ (h : Site) where
  open h use {web, cipher, has_valkey, encryption_key}

  unfoldable pub stored_state : Bytes → Option Err → Prog LoginReply
  stored_state state (some e) = refuse 500 (codes "internal server error")
  stored_state state none =
      pure (record { state = state; secure = is_secure h.env; location = web.auth_code_url state })

  unfoldable pub login_with : Option Bytes → Prog LoginReply
  login_with none = refuse 500 (codes "internal server error")
  login_with (some state) = do
    failed ← ask (insert_state state) (λ t. web.on_insert_state t state)
    stored_state state failed

  unfoldable pub google_login : Prog LoginReply
  google_login = do random ← ask read_random web.on_random; login_with random

  -- `encryptedRefreshToken`: empty where there is no token, or it cannot be encrypted
  unfoldable pub sealed_token : Option Bytes → Bytes → Bytes
  sealed_token nonce token =
      if is_empty token then [] else or_empty (encrypt_token cipher nonce token encryption_key)

  unfoldable pub check_cookie : Bytes → Option Bytes → Prog (Unit {0})
  check_cookie state none = refuse 400 (codes "missing state cookie")
  check_cookie state (some value) =
      if bytes_eq value state then pure tt else refuse 400 (codes "invalid state")

  unfoldable pub check_taken : Option Err → Prog (Unit {0})
  check_taken (some e) = refuse 400 (codes "invalid state or expired")
  check_taken none = pure tt

  unfoldable pub exchanged : Result Token → Prog Token
  exchanged (err e) = refuse 500 (codes "authentication failed")
  exchanged (ok token) = pure token

  -- the id and the address of the account
  unfoldable pub identified : Result (Option (Bytes × Bytes)) → Prog (Bytes × Bytes)
  identified (err e) = refuse 500 (codes "failed to fetch user info")
  identified (ok none) = refuse 500 (codes "internal server error")
  identified (ok (some who)) = pure who

  unfoldable pub upserted : Result (ℕ × List Bytes) → Prog (ℕ × List Bytes)
  upserted (err e) = refuse 500 (codes "internal server error")
  upserted (ok user) = pure user

  -- `if h.Valkey != nil { … }`
  unfoldable pub invalidate_caches : ℕ → Prog (Unit {0})
  invalidate_caches user_id =
      let keys = user_cache_key user_id ∷ calendar_validation_cache_key user_id ∷ [] in
      if has_valkey
      then (do ask (valkey_dels keys) (λ t. web.on_valkey_dels t keys); pure tt)
      else pure tt

  unfoldable pub check_saved : Option Err → Prog (Unit {0})
  check_saved (some e) = refuse 500 (codes "internal server error")
  check_saved none = pure tt

  -- the old session ends and a new one begins
  unfoldable pub renew_session : ℕ → Prog (Unit {0})
  renew_session user_id = do
    ask get_session web.on_get_session
    ask clear_session (λ t. tt)
    random ← ask read_random web.on_random
    let csrf_token = random_or_empty random
    failed ← ask (save_session user_id csrf_token) (λ t. web.on_save_session t user_id csrf_token)
    check_saved failed

  -- `if len(platforms) > 0 { … }`
  unfoldable pub initial_sync : ℕ → List Bytes → Prog (Unit {0})
  initial_sync user_id [] = pure tt
  initial_sync user_id (p ∷ ps) = do
    ask (publish_sync user_id) (λ t. web.on_publish_sync t user_id)
    pure tt

  -- behind the upsert
  unfoldable pub log_in : ℕ × List Bytes → Prog (Unit {0})
  log_in (user_id, platforms) = do
    invalidate_caches user_id
    renew_session user_id
    initial_sync user_id platforms

  -- what the answers of Google are written to the table for
  unfoldable pub upsert : Option Bytes → Token → Bytes × Bytes → Prog (ℕ × List Bytes)
  upsert nonce token (google_id, email) = do
    answer ←
        ask
          (upsert_user google_id email (sealed_token nonce token.refresh_token)
            (has_calendar_access token))
          (λ t.
            web.on_upsert_user t google_id email (sealed_token nonce token.refresh_token)
              (has_calendar_access token))
    upserted answer

  -- GoogleCallback, with the nonce that EncryptToken draws, `none` where that fails; its end is the redirect to /preferences.
  unfoldable pub google_callback : Option Bytes → Redirect → Prog (Unit {0})
  google_callback nonce r = do
    check_cookie r.state r.cookie
    failed ← ask (take_state r.state) (λ t. web.on_take_state t r.state)
    check_taken failed
    answer ← ask (exchange r.code) (λ t. web.on_exchange t r.code)
    token ← exchanged answer
    info ← ask (userinfo token.access_token) (λ t. web.on_userinfo t token.access_token)
    who ← identified info
    user ← upsert nonce token who
    log_in user

  unfoldable pub logged_out : Result (Option Bytes) → Prog (Unit {0})
  logged_out (err e) = pure tt
  logged_out (ok csrf) = do ask clear_session (λ t. tt); pure tt

  unfoldable pub logout : Prog (Unit {0})
  logout = do session ← ask get_session web.on_get_session; logged_out session
