-- ===== src/Server/Guarded.antt =====
-- What stands behind a request that reaches a handler.
use contest_sync.Common.{
  ℕ, ◌≡◌, ◌≢◌, refl, subst, sym, Bool, true, false, ◌⊎◌, inl, inr, Option, none, some, List, [],
  ◌∷◌, Bytes, ◌==◌, arith, if◌then◌else◌, if_split, Bool-cases, All,
}
use contest_sync.Middleware.{
  Limiters, Verdict, served, too_many, Admission, require_auth, has_cookie, csrf_passes,
}
use contest_sync.Middleware.Tokens.{csrf_passes_lem}
use contest_sync.Server.{
  Handler, update_contests, sync_all, me, get_platforms, validate_calendar_access, save_preferences,
  manual_sync, delete_account, logout, Guard, request_id, security_headers, compress,
  request_logger, recoverer, limit, auth, csrf, Route, group, routes, Router, Visit, Served,
  reached, refused, limited, signed, run, serve_route, serve,
}

-- The session has been read, and its user is the request's.
abbrev pub SignedIn : Visit → Option ℕ → Type 0
SignedIn v user =
    (id : ℕ) × (user ≡ some id) × (id ≢ 0) × (v.user_id ≡ some id) × (v.get_fails ≡ false)

-- The request carries the token of its session, which is not empty.
abbrev pub HasToken : Visit → Type 0
HasToken v = (v.csrf_token ≡ some v.request.x_csrf_token) × (v.request.x_csrf_token ≢ [])

-- What each handler can rely on.
abbrev pub Allowed : Handler → Visit → Option ℕ → Type 0
Allowed me v user = SignedIn v user
Allowed get_platforms v user = SignedIn v user
Allowed validate_calendar_access v user = SignedIn v user
Allowed save_preferences v user = SignedIn v user × HasToken v
Allowed manual_sync v user = SignedIn v user × HasToken v
Allowed delete_account v user = SignedIn v user × HasToken v
Allowed logout v user = SignedIn v user × HasToken v
Allowed update_contests v user = (has_cookie v.request ≡ false) ⊎ HasToken v
Allowed sync_all v user = (has_cookie v.request ≡ false) ⊎ HasToken v
Allowed _ v user = user ≡ none

abbrev pub Guarded : Visit → Served → Type 0
Guarded v (reached h user) = Allowed h v user
Guarded v (refused status) = Unit

-- what the guards have let through, from the user before them to the user behind them
abbrev Passed : Visit → List Guard → Option ℕ → Option ℕ → Type 0
Passed v [] user behind = behind ≡ user
Passed v (auth ∷ gs) user behind =
    (id : ℕ) × (id ≢ 0)
    × (v.user_id ≡ some id)
    × (v.get_fails ≡ false)
    × Passed v gs (some id) behind
Passed v (csrf ∷ gs) user behind =
    ((has_cookie v.request ≡ false) ⊎ HasToken v) × Passed v gs user behind
Passed v (limit max duration ∷ gs) user behind = Passed v gs user behind
Passed v (request_id ∷ gs) user behind = Passed v gs user behind
Passed v (security_headers ∷ gs) user behind = Passed v gs user behind
Passed v (compress ∷ gs) user behind = Passed v gs user behind
Passed v (request_logger ∷ gs) user behind = Passed v gs user behind
Passed v (recoverer ∷ gs) user behind = Passed v gs user behind

module _ (v : Visit) (h : Handler) where
  -- a statement of what is reached
  abbrev Reaches : (Option ℕ → Type 0) → Served → Type 0
  Reaches P (reached h' user) = (h' ≡ h) × P user
  Reaches P (refused status) = Unit

  limited-Reaches :
      (P : Option ℕ → Type 0) (verdict : Verdict × Limiters) (go : Limiters → Served × Limiters)
      → ((l : Limiters) → Reaches P (go l).0)
      → Reaches P (limited verdict go).0
  limited-Reaches P (served, l) go f = f l
  limited-Reaches P (too_many after, l) go f = tt

  signed-Reaches :
      (P : Option ℕ → Type 0) (fails : Bool) (id : Option ℕ) (l : Limiters)
      (go : ℕ → Served × Limiters)
      → ((n : ℕ) → n ≢ 0 → id ≡ some n → fails ≡ false → Reaches P (go n).0)
      → Reaches P (signed (require_auth fails id).0 l go).0
  unfolding require_auth
  signed-Reaches P true id l go f = tt
  signed-Reaches P false none l go f = tt
  signed-Reaches P false (some n) l go f =
      if_split (λ (a : Admission × Option Bool). Reaches P (signed a.0 l go).0) (n == 0) (λ _. tt)
        (λ e. f n (ground (arith, e)) refl refl)

  weaken :
      (P Q : Option ℕ → Type 0) (s : Served)
      → ((u : Option ℕ) → P u → Q u)
      → Reaches P s
      → Reaches Q s
  weaken P Q (reached h' user) f (e, p) = (e, f user p)
  weaken P Q (refused status) f r = tt

  csrf-Reaches :
      (P : Option ℕ → Type 0) (l : Limiters) (s : Served × Limiters)
      → Reaches P s.0
      → Reaches
          (λ u. ((has_cookie v.request ≡ false) ⊎ HasToken v) × P u)
          (if csrf_passes v.request v.csrf_token then s else (refused 403, l)).0
  csrf-Reaches P l s r =
      if_split
        (λ (t : Served × Limiters).
          Reaches (λ u. ((has_cookie v.request ≡ false) ⊎ HasToken v) × P u) t.0)
        (csrf_passes v.request v.csrf_token) (λ e. weaken P _ s.0 (λ u p. (token e, p)) r) (λ _. tt)
    where
      token :
          csrf_passes v.request v.csrf_token ≡ true → (has_cookie v.request ≡ false) ⊎ HasToken v
      token e = elim (Bool-cases (has_cookie v.request)) [
        | inl c ↦ inr ((csrf_passes_lem v.request v.csrf_token c).0 e)
        | inr c ↦ inl c
      ]

  run-Passed :
      (gs : List Guard) (user : Option ℕ) (l : Limiters)
      → Reaches (Passed v gs user) (run v h gs user l).0
  unfolding run
  run-Passed [] user l = (refl, refl)
  run-Passed (limit max duration ∷ gs) user l =
      limited-Reaches (Passed v gs user) _ _ (run-Passed gs user)
  run-Passed (auth ∷ gs) user l =
      signed-Reaches (Passed v (auth ∷ gs) user) _ _ l _ λ n ne id fails.
        weaken (Passed v gs (some n)) (Passed v (auth ∷ gs) user) _ (λ u p. (n, ne, id, fails, p))
          (run-Passed gs (some n) l)
  run-Passed (csrf ∷ gs) user l = csrf-Reaches (Passed v gs user) l _ (run-Passed gs user l)
  run-Passed (request_id ∷ gs) user l = run-Passed gs user l
  run-Passed (security_headers ∷ gs) user l = run-Passed gs user l
  run-Passed (compress ∷ gs) user l = run-Passed gs user l
  run-Passed (request_logger ∷ gs) user l = run-Passed gs user l
  run-Passed (recoverer ∷ gs) user l = run-Passed gs user l

abbrev pub IsIn : Route → List Route → Type 0
IsIn r [] = ⊥
IsIn r (s ∷ rs) = (r ≡ s) ⊎ IsIn r rs

-- The router takes a route that is registered, if it takes one.
abbrev pub IsRegistered : Option Route → List Route → Type 0
IsRegistered none rs = Unit
IsRegistered (some r) rs = IsIn r rs

All-IsIn : (P : Route → Type 0) (r : Route) (rs : List Route) → All P rs → IsIn r rs → P r
All-IsIn P r [] all i = absurd i
All-IsIn P r (s ∷ rs) (p, all) (inl e) = subst P (sym e) p
All-IsIn P r (s ∷ rs) (p, all) (inr i) = All-IsIn P r rs all i

module _ (v : Visit) (cookie : has_cookie v.request ≡ false → v.user_id ≡ none) where
  abbrev IsSound : Route → Type 0
  IsSound r = (user : Option ℕ) → Passed v r.guards none user → Allowed r.handler v user

  -- a user who is signed in has a cookie
  has_token :
      (id : ℕ) → v.user_id ≡ some id → (has_cookie v.request ≡ false) ⊎ HasToken v → HasToken v
  has_token id e (inr token) = token
  has_token id e (inl c) = (let none_there = cookie c in cc)

  IsSound-routes : All IsSound routes
  unfolding routes group
  IsSound-routes = (
    λ u p. p,
    (
      λ u p. p,
      (
        λ u p. p,
        (
          λ u p. p,
          (
            λ u (token, p). token,
            (
              λ u (token, p). token,
              (
                λ u (id, ne, e, fails, p). (id, p, ne, e, fails),
                (
                  λ u (id, ne, e, fails, p). (id, p, ne, e, fails),
                  (
                    λ u (id, ne, e, fails, p). (id, p, ne, e, fails),
                    (
                      λ u (id, ne, e, fails, (token, p)).
                          ((id, p, ne, e, fails), has_token id e token),
                      (
                        λ u (id, ne, e, fails, (token, p)).
                            ((id, p, ne, e, fails), has_token id e token),
                        (
                          λ u (id, ne, e, fails, (token, p)).
                              ((id, p, ne, e, fails), has_token id e token),
                          (
                            λ u (id, ne, e, fails, (token, p)).
                                ((id, p, ne, e, fails), has_token id e token),
                            (λ u p. p, tt),
                          ),
                        ),
                      ),
                    ),
                  ),
                ),
              ),
            ),
          ),
        ),
      ),
    ),
  )

  serve_route-Guarded :
      (o : Option Route) (l : Limiters) → IsRegistered o routes → Guarded v (serve_route v o l).0
  unfolding serve_route
  serve_route-Guarded none l i = tt
  serve_route-Guarded (some r) l i =
      from_run (run v r.handler r.guards none l).0 (run-Passed v r.handler r.guards none l)
    where
      from_run : (s : Served) → Reaches v r.handler (Passed v r.guards none) s → Guarded v s
      from_run (reached h user) (e, p) =
          subst (λ k. Allowed k v user) (sym e) (All-IsIn IsSound r routes IsSound-routes i user p)
      from_run (refused status) r = tt

  -- Let the session of a request without the cookie have no user, and let the router take one of the
  -- registered routes or none. Whatever the method, the path and the limiters are, a request reaches
  -- Me, GetPlatforms and ValidateCalendarAccess only as the user of its session, who is not 0; it
  -- reaches SavePreferences, ManualSync, DeleteAccount and Logout only with the token of that session
  -- besides, which is not empty; it reaches UpdateContests and SyncAll only with that token or without
  -- a cookie; and every other handler as no user.
  pub serve-Guarded :
      (router : Router)
      → ((method path : Bytes) (rs : List Route) → IsRegistered (router method path rs) rs)
      → (method path : Bytes) (l : Limiters) → Guarded v (serve router method path v l).0
  unfolding serve
  serve-Guarded router registered method path l =
      serve_route-Guarded (router method path routes) l (registered method path routes)
