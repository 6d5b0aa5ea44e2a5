-- ===== src/Server/Started.antt =====
-- What the checks of main are good for: the handlers behind them never meet a missing configuration.
use contest_sync.Common.{
  ◌≡◌, ◌≢◌, refl, ap, Bool, true, false, ◌&&◌, none, some, [], Bytes, is_empty, length, ◌++◌, arith,
  if_split,
}
use contest_sync.Config.{Config}
use contest_sync.World.Models.{Result, ok, err}
use contest_sync.World.Prog.{World, Prog, next, return, pure, leave, ◌>>=◌, call}
use contest_sync.World.Inversion.{Ending, Ends, if_by}
use contest_sync.Auth.{Cipher, is_aes_key, encrypt_token}
use contest_sync.Web.Calls.{Site}
use contest_sync.Web.Preferences.{is_dev, captcha_checked, verify_hcaptcha, check_captcha}
use contest_sync.Server.{is_deployed, startup_error}

-- A run that does not end with the status 500.
abbrev pub NoServerError : Ending (Unit {0})
NoServerError (next x) w = Unit
NoServerError (return none) w = Unit
NoServerError (return (some e)) w = e.code ≢ some 500

checks_pass :
    (cfg : Config) (secret : Bytes)
    → startup_error cfg secret ≡ none
    → (length cfg.encryption_key ≡ 32)
      × (is_empty cfg.session_secret ≡ false)
      × ((is_deployed cfg.env && is_empty secret) ≡ false)
unfolding startup_error
checks_pass cfg secret starts =
    (ground (arith, starts), ground (arith, starts), ground (arith, starts))

-- an environment that is not deployed counts as development in SavePreferences
is_dev-is_deployed : (env : Bytes) → is_deployed env ≡ false → is_dev env ≡ true
is_dev-is_deployed env e = ground (arith, e)

captcha_checked-NoServerError :
    (h : Site) (r : Result Bool) (w : World) → Ends NoServerError (captcha_checked h r) w
unfolding captcha_checked pure leave
captcha_checked-NoServerError h (ok true) w = tt
captcha_checked-NoServerError h (ok false) w = λ e. ground (arith, e)
captcha_checked-NoServerError h (err x) w = λ e. ground (arith, e)

verified-NoServerError :
    (h : Site) (response : Bytes) (w : World)
    → Ends NoServerError (verify_hcaptcha h response >>= captcha_checked h) w
unfolding verify_hcaptcha ◌>>=◌ pure call
verified-NoServerError h response w =
    if_split (λ (m : Prog (Result Bool)). Ends NoServerError (m >>= captcha_checked h) w)
      (is_empty h.hcaptcha_secret) (λ _. captcha_checked-NoServerError h _ w)
      (λ _. captcha_checked-NoServerError h _ _)

check_captcha-NoServerError :
    (h : Site) (response : Bytes) (w : World)
    → (is_empty h.hcaptcha_secret ≡ true → is_dev h.env ≡ true)
    → Ends NoServerError (check_captcha h response) w
unfolding check_captcha pure leave
check_captcha-NoServerError h response w dev =
    let P = NoServerError in
    if_by P (is_empty h.hcaptcha_secret) _ _ w
      (λ e. if_by P (is_dev h.env) _ _ w (λ _. tt) (λ d. (let d' = dev e in cc)))
      (λ _.
        if_by P (is_empty response) _ _ w (λ _ e. ground (arith, e))
          (λ _. verified-NoServerError h response w))

-- Where the checks of main find no error, EncryptToken under the key of the configuration fails for no
-- token, if its generator gives a nonce; the secret of the sessions is not empty; and the captcha's
-- check of SavePreferences, with the same environment and secret, never ends with the status 500.
pub startup_error_sound :
    (cfg : Config) (secret : Bytes) (c : Cipher) (nonce token : Bytes) (h : Site) (response : Bytes)
    (w : World)
    → startup_error cfg secret ≡ none
    → h.env ≡ cfg.env
    → h.hcaptcha_secret ≡ secret
    → (encrypt_token c (some nonce) token cfg.encryption_key
        ≡ ok (c.to_base64 (nonce ++ c.sealed cfg.encryption_key nonce token)))
      × (cfg.session_secret ≢ [])
      × Ends NoServerError (check_captcha h response) w
startup_error_sound cfg secret c nonce token h response w starts env same_secret =
    let (key, session, captcha) = checks_pass cfg secret starts in
    (
      encrypts key,
      λ e. (let e' = ap is_empty e in unfold is_empty in ground (arith, e', session)),
      check_captcha-NoServerError h response w (λ e.
          rw env
            (is_dev-is_deployed cfg.env (ground (arith, captcha, ap is_empty same_secret, e)))),
    )
  where
    encrypts :
        length cfg.encryption_key ≡ 32
        → encrypt_token c (some nonce) token cfg.encryption_key
          ≡ ok (c.to_base64 (nonce ++ c.sealed cfg.encryption_key nonce token))
    encrypts key = unfold encrypt_token is_aes_key in rw key refl
