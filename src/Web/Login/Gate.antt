-- ===== src/Web/Login/Gate.antt =====
-- Who gets a session by GoogleCallback.
use contest_sync.Common.{
  ◌≡◌, refl, ap, ◌∙◌, ℕ, ◌⊎◌, inl, inr, Option, none, some, List, [], ◌∷◌, Bytes, bytes_eq,
  bytes_eq→eq, if_split,
}
use contest_sync.World.Models.{Err, Result, ok, err, user_cache_key, calendar_validation_cache_key}
use contest_sync.World.Calls.{Trace, web, take_state, upsert_user, exchange, userinfo, save_session}
use contest_sync.World.Prog.{World, Prog, return, pure, leave, ◌>>=◌}
use contest_sync.World.Inversion.{Ending, Ends, call_by, bind_by}
use contest_sync.Web.Calls.{Site, Token}
use contest_sync.Web.Login.{
  Redirect, sealed_token, has_calendar_access, check_cookie, check_taken, exchanged, identified,
  upserted, upsert, invalidate_caches, check_saved, renew_session, initial_sync, log_in,
  google_callback,
}

-- The users whose session has been saved, the newest first.
abbrev pub sessions : Trace → List ℕ
sessions [] = []
sessions (web (save_session u csrf) ∷ t) = u ∷ sessions t
sessions (_ ∷ t) = sessions t

-- The steps of the callback that can refuse: they leave the world alone.
module _ (h : Site) {B : Type 0} (P : Ending B) (w : World)
    (left : (e : Option Err) → P (return e) w) where
  check_cookie_by :
      (state : Bytes) (cookie : Option Bytes) (f : Unit {0} → Prog B)
      → (cookie ≡ some state → Ends P (f tt) w)
      → Ends P (check_cookie h state cookie >>= f) w
  unfolding check_cookie ◌>>=◌ leave pure
  check_cookie_by state none f go = left _
  check_cookie_by state (some value) f go =
      if_split (λ (m : Prog (Unit {0})). Ends P (m >>= f) w) (bytes_eq value state)
        (λ e. go (ap some (bytes_eq→eq value state e))) (λ _. left _)

  check_taken_by :
      (o : Option Err) (f : Unit {0} → Prog B)
      → (o ≡ none → Ends P (f tt) w)
      → Ends P (check_taken h o >>= f) w
  unfolding check_taken ◌>>=◌ leave pure
  check_taken_by none f go = go refl
  check_taken_by (some e) f go = left _

  exchanged_by :
      (r : Result Token) (f : Token → Prog B)
      → ((token : Token) → r ≡ ok token → Ends P (f token) w)
      → Ends P (exchanged h r >>= f) w
  unfolding exchanged ◌>>=◌ leave pure
  exchanged_by (ok token) f go = go token refl
  exchanged_by (err e) f go = left _

  identified_by :
      (r : Result (Option (Bytes × Bytes))) (f : Bytes × Bytes → Prog B)
      → ((who : Bytes × Bytes) → r ≡ ok (some who) → Ends P (f who) w)
      → Ends P (identified h r >>= f) w
  unfolding identified ◌>>=◌ leave pure
  identified_by (ok (some who)) f go = go who refl
  identified_by (ok none) f go = left _
  identified_by (err e) f go = left _

  upserted_by :
      (r : Result (ℕ × List Bytes)) (f : ℕ × List Bytes → Prog B)
      → ((user : ℕ × List Bytes) → r ≡ ok user → Ends P (f user) w)
      → Ends P (upserted h r >>= f) w
  unfolding upserted ◌>>=◌ leave pure
  upserted_by (ok user) f go = go user refl
  upserted_by (err e) f go = left _

module _ (h : Site) where
  invalidate_caches-still :
      (u : ℕ) (w : World) → sessions (invalidate_caches h u w).1.trace ≡ sessions w.trace
  unfolding invalidate_caches ◌>>=◌ pure
  invalidate_caches-still u w =
      let keys = user_cache_key u ∷ calendar_validation_cache_key u ∷ [] in
      if_split (λ (m : Prog (Unit {0})). sessions (m w).1.trace ≡ sessions w.trace) h.has_valkey
        (λ _. refl) (λ _. refl)

  check_saved-still : (o : Option Err) (w : World) → (check_saved h o w).1 ≡ w
  unfolding check_saved leave pure
  check_saved-still none w = refl
  check_saved-still (some e) w = refl

  initial_sync-still :
      (u : ℕ) (platforms : List Bytes) (w : World)
      → sessions (initial_sync h u platforms w).1.trace ≡ sessions w.trace
  unfolding initial_sync ◌>>=◌ pure
  initial_sync-still u [] w = refl
  initial_sync-still u (p ∷ ps) w = refl

  renew_session-saves :
      (u : ℕ) (w : World) → sessions (renew_session h u w).1.trace ≡ u ∷ sessions w.trace
  unfolding renew_session ◌>>=◌
  renew_session-saves u w = ap (λ (v : World). sessions v.trace) (check_saved-still _ _)

-- The request carries the state that its cookie holds; the database had that state; Google gives a
-- token for the code and an account for the token; and the user is that account's.
abbrev pub Admitted : Site → Option Bytes → Redirect → ℕ → Type 0
Admitted h nonce r u =
    (t1 : Trace) × (t2 : Trace) × (t3 : Trace) × (t4 : Trace) × (token : Token)
    × (google_id : Bytes) × (email : Bytes) × (platforms : List Bytes) × (r.cookie ≡ some r.state)
    × (h.web.on_take_state t1 r.state ≡ none)
    × (h.web.on_exchange t2 r.code ≡ ok token)
    × (h.web.on_userinfo t3 token.access_token ≡ ok (some (google_id, email)))
    × (h.web.on_upsert_user t4 google_id email (sealed_token h nonce token.refresh_token)
          (has_calendar_access token)
        ≡ ok (u, platforms))

module _ (h : Site) (nonce : Option Bytes) (r : Redirect) where
  -- How GoogleCallback ends: with no session saved, or with one of an admitted user.
  abbrev pub Gated : Trace → Ending (Unit {0})
  Gated t a w =
      (sessions w.trace ≡ sessions t)
      ⊎ ((u : ℕ) × (sessions w.trace ≡ u ∷ sessions t) × Admitted h nonce r u)

  log_in-Gated :
      (t : Trace) (u : ℕ) (platforms : List Bytes) (w : World)
      → sessions w.trace ≡ sessions t
      → Admitted h nonce r u
      → Ends (Gated t) (log_in h (u, platforms)) w
  unfolding log_in
  log_in-Gated t u platforms w q admitted =
      let q1 = invalidate_caches-still h u w ∙ q in
      let q2 = renew_session-saves h u (invalidate_caches h u w).1 ∙ ap (λ l. u ∷ l) q1 in
      bind_by (Gated t) (invalidate_caches h u) _ w (λ e _. inl q1)
        (λ x _.
          bind_by (Gated t) (renew_session h u) _ _ (λ e _. inr (u, q2, admitted))
            (λ y _. inr (u, initial_sync-still h u platforms _ ∙ q2, admitted)))

  -- the world behind the upsert
  abbrev upserting : World → Token → Bytes × Bytes → World
  upserting w token who = record w {
    trace =
        web (
          upsert_user who.0 who.1 (sealed_token h nonce token.refresh_token)
            (has_calendar_access token))
        ∷ w.trace;
  }

  upsert_by :
      (P : Ending (Unit {0})) (w : World) (token : Token) (who : Bytes × Bytes)
      (f : ℕ × List Bytes → Prog (Unit {0}))
      → ((e : Option Err) → P (return e) (upserting w token who))
      → ((user : ℕ × List Bytes)
          → h.web.on_upsert_user w.trace who.0 who.1
              (sealed_token h nonce token.refresh_token)
              (has_calendar_access token)
            ≡ ok user
          → Ends P (f user) (upserting w token who))
      → Ends P (upsert h nonce token who >>= f) w
  unfolding upsert ◌>>=◌
  upsert_by P w token who f left go = upserted_by h P _ left _ f go

  -- GoogleCallback saves no session, or one of a user for whom all this holds: the state of the request
  -- is the cookie's and was in the database, Google gives a token for the code and an account for the
  -- token, and the upsert of that account gives the user.
  pub google_callback-Gated : (w : World) → Ends (Gated w.trace) (google_callback h nonce r) w
  unfolding google_callback
  google_callback-Gated w =
      let P = Gated w.trace in
      check_cookie_by h P w (λ e. inl refl) _ _ _
        λ same_state. call_by P (web (take_state r.state)) _ _ w (
          check_taken_by h P _ (λ e. inl refl) _ _
            λ taken. call_by P (web (exchange r.code)) _ _ _ (
              exchanged_by h P _ (λ e. inl refl) _ _
                λ token gives. call_by P (web (userinfo token.access_token)) _ _ _ (
                  identified_by h P _ (λ e. inl refl) _ _
                    λ who answers.
                      upsert_by P _ token who _ (λ e. inl refl)
                        λ user becomes. log_in-Gated w.trace user.0 user.1 _ refl (
                          w.trace, _, _, _, token, who.0, who.1, user.1, same_state, taken, gives,
                          answers, becomes,
                        ))))
