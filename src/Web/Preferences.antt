-- ===== src/Web/Preferences.antt =====
-- SavePreferences of internal/api/handlers.go.
pub mod Changed
pub mod Effects
use contest_sync.Common.{
  ℕ, zero, suc, Bool, true, false, ◌&&◌, ◌||◌, not, Option, none, some, List, [], ◌∷◌, Bytes, codes,
  is_empty, bytes_eq, ◌==◌, if◌then◌else◌, length,
}
use contest_sync.World.Models.{Err, Result, ok, err, CachedUser, user_cache_key, user_cache_ttl}
use contest_sync.World.Calls.{UserRow, save_platforms, verify_captcha}
use contest_sync.World.Prog.{Prog, pure, leave, ◌>>=◌, ◌>>◌}
use contest_sync.World.Api.{select_user, del}
use contest_sync.Sync.Syncer.{pool_of}
use contest_sync.Sync.Load.{bind_option, user_of_row, cached, store}
use contest_sync.Auth.{plain_error}
use contest_sync.Web.Calls.{
  ℤ, pos, negsuc, Http, unbuilt, no_response, responded, Site, syncer_of, Reply, ok_reply, refuse,
  problem, ask,
}

-- extractor.Platforms
abbrev pub known_platforms : List Bytes
known_platforms =
    codes "codechef"
    ∷ codes "codeforces"
    ∷ codes "leetcode"
    ∷ codes "atcoder"
    ∷ codes "hackerrank"
    ∷ codes "geeksforgeeks"
    ∷ codes "code360"
    ∷ []

-- The body of the request.
pub record Request : Type 0 where
  pub platforms : List Bytes
  pub use_dedicated : Bool
  pub captcha_response : Bytes

-- `allowed[p]` for a platform, and for all of them
unfoldable pub allowed : List Bytes → Bytes → Bool
allowed [] p = false
allowed (k ∷ ks) p = bytes_eq k p || allowed ks p

unfoldable pub all_allowed : List Bytes → Bool
all_allowed [] = true
all_allowed (p ∷ ps) = allowed known_platforms p && all_allowed ps

-- `c++` and `c--`
unfoldable pub increase : ℤ → ℤ
increase (pos n) = pos (suc n)
increase (negsuc zero) = pos 0
increase (negsuc (suc n)) = negsuc n

unfoldable pub decrease : ℤ → ℤ
decrease (pos zero) = negsuc 0
decrease (pos (suc n)) = pos n
decrease (negsuc n) = negsuc (suc n)

abbrev pub is_zero : ℤ → Bool
is_zero (pos zero) = true
is_zero _ = false

-- map[string]int, and `f` on the value of a key, which is 0 at first
abbrev pub Counts : Type 0
Counts = List (Bytes × ℤ)

unfoldable pub change : (ℤ → ℤ) → Bytes → Counts → Counts
change f p [] = (p, f (pos 0)) ∷ []
change f p ((k, v) ∷ m) =
    let rest = change f p m in if bytes_eq k p then (k, f v) ∷ m else (k, v) ∷ rest

-- the two loops over the platforms
unfoldable pub change_all : (ℤ → ℤ) → List Bytes → Counts → Counts
change_all f [] m = m
change_all f (p ∷ ps) m = change_all f ps (change f p m)

unfoldable pub some_nonzero : Counts → Bool
some_nonzero [] = false
some_nonzero ((k, v) ∷ m) = not (is_zero v) || some_nonzero m

abbrev pub same_flag : Bool → Bool → Bool
same_flag true b = b
same_flag false b = not b

-- the variable `changed`
unfoldable pub changed : List Bytes → Bool → List Bytes → Bool → Bool
changed ps dedicated current current_dedicated =
    if not (length ps == length current) || not (same_flag dedicated current_dedicated)
    then true
    else some_nonzero (change_all decrease ps (change_all increase current []))

-- `h.Env == "development" || …`
abbrev pub is_dev : Bytes → Bool
is_dev env =
    bytes_eq env (codes "development")
    || (bytes_eq env (codes "dev") || (bytes_eq env (codes "local") || is_empty env))

module _ (h : Site) where
  -- behind the request to hCaptcha, whose status is not looked at
  unfoldable pub captcha_answer : Http Bool → Result Bool
  captcha_answer (responded status (some success)) = ok success
  captcha_answer (responded status none) = err (plain_error (codes "unexpected end of JSON input"))
  captcha_answer no_response = err (plain_error (codes "no response"))
  captcha_answer unbuilt = err (plain_error (codes "invalid request"))

  -- verifyHCaptcha; env_variable is os.Getenv("ENV")
  unfoldable pub verify_hcaptcha : Bytes → Prog (Result Bool)
  verify_hcaptcha response =
      if is_empty h.hcaptcha_secret
      then pure (
          if is_dev h.env_variable
          then ok true
          else err (plain_error (codes "hcaptcha secret is missing")))
      else (do
        answer ← ask (verify_captcha response) (λ t. h.web.on_verify_captcha t response)
        pure (captcha_answer answer))

  unfoldable pub captcha_checked : Result Bool → Prog (Unit {0})
  captcha_checked (ok true) = pure tt
  captcha_checked _ = refuse 403 (codes "captcha verification failed")

  -- the checks around verifyHCaptcha
  unfoldable pub check_captcha : Bytes → Prog (Unit {0})
  check_captcha response =
      if is_empty h.hcaptcha_secret
      then (if is_dev h.env then pure tt else refuse 500 (codes "captcha configuration error"))
      else if is_empty response
      then refuse 400 (codes "captcha verification required")
      else (do answer ← verify_hcaptcha response; captcha_checked answer)

  -- behind the query of the user
  unfoldable pub current_row : ℕ → Result UserRow → Prog CachedUser
  current_row user_id (err e) = refuse 500 (codes "internal server error")
  current_row user_id (ok row) = do
    store h.services h.codec (syncer_of h) (user_cache_key user_id)
        (h.codec.marshal_user (user_of_row row)) user_cache_ttl
    pure (user_of_row row)

  unfoldable pub current_of : ℕ → Option CachedUser → Prog CachedUser
  current_of user_id (some u) = pure u
  current_of user_id none = do
    answer ← select_user h.services (pool_of (syncer_of h)) user_id
    current_row user_id answer

  -- behind the UPDATE
  unfoldable pub updated : ℕ → Option Err → Prog (Unit {0})
  updated user_id (some e) = refuse 500 (codes "internal server error")
  updated user_id none =
      if h.has_valkey then (do del h.services (user_cache_key user_id); pure tt) else pure tt

  -- `if changed { … }`
  unfoldable pub update : ℕ → Request → Prog (Unit {0})
  update user_id r = do
    failed ←
        ask (save_platforms r.platforms r.use_dedicated user_id)
          (λ t. h.web.on_save_platforms t r.platforms r.use_dedicated user_id)
    updated user_id failed

  -- behind the checks of the request
  unfoldable pub save_accepted : ℕ → Request → Prog Bool
  save_accepted user_id r = do
    val ← cached h.services h.codec (syncer_of h) (user_cache_key user_id)
    u ← current_of user_id (bind_option val h.codec.unmarshal_user)
    let c = changed r.platforms r.use_dedicated u.platforms u.use_dedicated
    if c then update user_id r else pure tt
    pure c

  unfoldable pub check_platforms : Request → Prog (Unit {0})
  check_platforms r =
      if all_allowed r.platforms then pure tt else refuse 400 (codes "invalid platform")

  -- SavePreferences; the request is `none` where its body does not decode. The value is the field
  -- "changed" of the reply.
  unfoldable pub save_preferences : ℕ → Option Request → Prog Bool
  save_preferences user_id none = refuse 400 (codes "invalid request")
  save_preferences user_id (some r) = do
    check_captcha r.captcha_response
    check_platforms r
    save_accepted user_id r
