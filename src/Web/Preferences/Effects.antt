-- ===== src/Web/Preferences/Effects.antt =====
-- What SavePreferences does to the database and to the cache.
use contest_sync.Common.{
  ℕ, ◌≡◌, refl, ap, ◌∙◌, Bool, true, false, ◌⊎◌, inl, inr, Option, none, some, List, [], ◌∷◌, Bytes,
  if◌then◌else◌,
}
use contest_sync.World.Models.{Err, Result, ok, err, CachedUser, user_cache_key}
use contest_sync.World.Calls.{
  Trace, Entry, exec, web, save_platforms, valkey_del, UserRow, query_user, valkey_get, valkey_set,
}
use contest_sync.World.Prog.{World, Prog, next, return, pure, call, ◌>>=◌, ◌>>◌}
use contest_sync.World.Emits.{Emits, Extends, same, more, emits_rules, Emits-call}
use contest_sync.Web.Calls.{Site, syncer_of}
use contest_sync.Web.Preferences.{
  Request, captcha_checked, verify_hcaptcha, check_captcha, check_platforms, current_of,
  current_row, updated, update, save_accepted, save_preferences,
}
use contest_sync.World.Inversion.{Ending, Ends, bind_by}
use contest_sync.Sync.Syncer.{skip}
use contest_sync.World.Calls.{Pool, verify_captcha}
use contest_sync.Sync.Load.{cached, store, bind_option}

-- The statements that change the row of a user, the newest first.
abbrev pub saves : Trace → List Entry
saves [] = []
saves (web (save_platforms ps d u) ∷ t) = web (save_platforms ps d u) ∷ saves t
saves (exec q ∷ t) = exec q ∷ saves t
saves (_ ∷ t) = saves t

abbrev KeepsRow : Entry → Type 0
KeepsRow e = (t : Trace) → saves (e ∷ t) ≡ saves t

saves-Extends : {t t' : Trace} → Extends KeepsRow t t' → saves t' ≡ saves t
saves-Extends same = refl
saves-Extends (more e q r) = q _ ∙ saves-Extends r

saves-Emits :
    {A : Type 0} (m : Prog A) → Emits KeepsRow m → (w : World) → saves (m w).1.trace ≡ saves w.trace
saves-Emits m e w = saves-Extends (e.at w)

kept_get : (k : Bytes) → KeepsRow (valkey_get k)
kept_get k t = refl

kept_set : (k v : Bytes) (ttl : ℕ) → KeepsRow (valkey_set k v ttl)
kept_set k v ttl t = refl

kept_user : (p : Pool) (u : ℕ) → KeepsRow (query_user p u)
kept_user p u t = refl

kept_captcha : (r : Bytes) → KeepsRow (web (verify_captcha r))
kept_captcha r t = refl

kept_del : (k : Bytes) → KeepsRow (valkey_del k)
kept_del k t = refl

ruleset kept_rules =
    (emits_rules, Emits-call, kept_get, kept_set, kept_user, kept_captcha, kept_del)

module _ (h : Site) (u : ℕ) where
  Emits-captcha_checked : (r : Result Bool) → Emits KeepsRow (captcha_checked h r)
  unfolding captcha_checked
  Emits-captcha_checked (ok true) = search emits_rules
  Emits-captcha_checked (ok false) = search emits_rules
  Emits-captcha_checked (err e) = search emits_rules

  Emits-verify_hcaptcha : (response : Bytes) → Emits KeepsRow (verify_hcaptcha h response)
  unfolding verify_hcaptcha
  Emits-verify_hcaptcha response = search kept_rules depth 8

  Emits-check_captcha : (response : Bytes) → Emits KeepsRow (check_captcha h response)
  unfolding check_captcha
  Emits-check_captcha response =
      search (kept_rules, Emits-captcha_checked, Emits-verify_hcaptcha) depth 8

  Emits-check_platforms : (r : Request) → Emits KeepsRow (check_platforms h r)
  unfolding check_platforms
  Emits-check_platforms r = search kept_rules

  Emits-cached : (key : Bytes) → Emits KeepsRow (cached h.services h.codec (syncer_of h) key)
  unfolding cached
  Emits-cached key = search kept_rules

  Emits-store :
      (key val : Bytes) (ttl : ℕ)
      → Emits KeepsRow (store h.services h.codec (syncer_of h) key val ttl)
  unfolding store skip
  Emits-store key val ttl = search kept_rules

  Emits-current_row : (r : Result UserRow) → Emits KeepsRow (current_row h u r)
  unfolding current_row
  Emits-current_row (err e) = search emits_rules
  Emits-current_row (ok r) = search (kept_rules, Emits-store)

  Emits-current_of : (o : Option CachedUser) → Emits KeepsRow (current_of h u o)
  unfolding current_of
  Emits-current_of (some v) = search emits_rules
  Emits-current_of none = search (kept_rules, Emits-current_row)

  Emits-updated : (o : Option Err) → Emits KeepsRow (updated h u o)
  unfolding updated
  Emits-updated (some e) = search emits_rules
  Emits-updated none = search kept_rules depth 8

  abbrev pub save_of : Request → Entry
  save_of r = web (save_platforms r.platforms r.use_dedicated u)

  saves-update :
      (r : Request) (w : World) → saves (update h u r w).1.trace ≡ save_of r ∷ saves w.trace
  unfolding update ◌>>=◌ call
  saves-update r w = saves-Emits (updated h u _) (Emits-updated _) _

  -- How a run of SavePreferences ends: with a change it has executed one statement, with the
  -- platforms of the request; with no change none; with an error one or none.
  abbrev pub Saved : Request → Trace → Ending Bool
  Saved r t (next true) w = saves w.trace ≡ save_of r ∷ saves t
  Saved r t (next false) w = saves w.trace ≡ saves t
  Saved r t (return e) w = (saves w.trace ≡ saves t) ⊎ (saves w.trace ≡ save_of r ∷ saves t)

  update_then_Saved :
      (r : Request) (c : Bool) (t : Trace) (w : World)
      → saves w.trace ≡ saves t
      → Ends (Saved r t) ((if c then update h u r else pure tt) >> pure c) w
  update_then_Saved r true t w q =
      bind_by (Saved r t) (update h u r) (λ _. pure true) w
        (λ e _. inr (saves-update r w ∙ ap (λ l. save_of r ∷ l) q))
        (λ _ _. unfold pure in (saves-update r w ∙ ap (λ l. save_of r ∷ l) q))
  update_then_Saved r false t w q =
      bind_by (Saved r t) (pure tt) (λ _. pure false) w (λ e _. inl (unfold pure in q))
        (λ _ _. unfold pure in q)

  accepted-Saved :
      (r : Request) (t : Trace) (w : World)
      → saves w.trace ≡ saves t
      → Ends (Saved r t) (save_accepted h u r) w
  unfolding save_accepted
  accepted-Saved r t w q =
      bind_by (Saved r t) (cached h.services h.codec (syncer_of h) (user_cache_key u)) _ w
        (λ e _. inl (saves-Emits _ (Emits-cached _) w ∙ q))
        (λ val _.
          bind_by (Saved r t) (current_of h u (bind_option val h.codec.unmarshal_user)) _ _
            (λ e _.
              inl (saves-Emits _ (Emits-current_of _) _ ∙ saves-Emits _ (Emits-cached _) w ∙ q))
            (λ v _.
              update_then_Saved r _ t _
                (saves-Emits _ (Emits-current_of _) _ ∙ saves-Emits _ (Emits-cached _) w ∙ q)))

  -- SavePreferences changes the user's row by one statement with the platforms of the request if it
  -- reports a change, by none if it reports no change, and by one or none if it ends with an error.
  pub save_preferences-Saved :
      (r : Request) (w : World) → Ends (Saved r w.trace) (save_preferences h u (some r)) w
  unfolding save_preferences
  save_preferences-Saved r w =
      let captcha = saves-Emits (check_captcha h r.captcha_response) (Emits-check_captcha _) w in
      bind_by (Saved r w.trace) (check_captcha h r.captcha_response) _ w (λ e _. inl captcha)
        (λ _ _.
          let platforms = saves-Emits (check_platforms h r) (Emits-check_platforms r) _ ∙ captcha in
          bind_by (Saved r w.trace) (check_platforms h r) _ _ (λ e _. inl platforms)
            (λ _ _. accepted-Saved r w.trace _ platforms))
