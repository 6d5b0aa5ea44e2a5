-- ===== src/Web/Account/Background.antt =====
-- The goroutine that DeleteAccount of internal/api/handlers.go starts, and what it calls. The goroutines
-- of the events are run one after another, as they are started; the end of ctx is an error of a call.
use contest_sync.Common.{
  ℕ, ◌≡◌, ◌≢◌, refl, ◌⊎◌, inl, inr, Bool, true, false, ◌&&◌, ◌||◌, not, Option, none, some, List,
  [], ◌∷◌, Bytes, codes, is_empty, bytes_eq, bytes_eq_iff, take, zero, suc, if◌then◌else◌, if_split,
  arith, ltb, ◌*◌, ◌+◌,
}
use contest_sync.World.Models.{Err}
use contest_sync.World.Calls.{Entry, new_service, delete_event, sleep, web, delete_calendar, revoke}
use contest_sync.World.Prog.{Prog, pure, ◌>>=◌, ◌>>◌}
use contest_sync.World.Emits.{Emits, Emits-pure, Emits-call, Emits-bind, Emits-if}
use contest_sync.World.Api.{new_calendar_service, pause}
use contest_sync.Web.Calls.{Site, ask}
use contest_sync.Web.Account.{
  is_code, attempts, wait_after, delete_custom_calendar, delete_primary_event, to_delete,
}

module _ (h : Site) where
  open h use {services, web}

  -- an event's attempt has found the token bad
  unfoldable pub is_bad_token : Option Err → Bool
  is_bad_token none = false
  is_bad_token (some e) = is_code h 400 e || is_code h 401 e

  -- the loop over the events, which ends where badToken is set
  unfoldable pub delete_events : List Bytes → Prog (Unit {0})
  delete_events [] = pure tt
  delete_events (id ∷ ids) = do
    last ← delete_primary_event h id
    pause 100
    if is_bad_token last then pure tt else delete_events ids

  unfoldable pub clean_calendar : Bytes → List Bytes → Prog (Unit {0})
  unfolding delete_events
  clean_calendar calendar_id ids =
      if not (is_empty calendar_id) && not (bytes_eq calendar_id (codes "primary"))
      then (do delete_custom_calendar h calendar_id; pure tt)
      else delete_events (to_delete h ids)

  unfoldable pub with_service : Option Err → Bytes → List Bytes → Prog (Unit {0})
  with_service (some e) calendar_id ids = pure tt
  with_service none calendar_id ids = clean_calendar calendar_id ids

  -- the goroutine behind its timeout; the flag is deleteGoogleData
  unfoldable pub google_cleanup : Bytes → Bytes → List Bytes → Bool → Prog (Unit {0})
  google_cleanup token calendar_id ids true = do
    answer ← new_calendar_service services token
    with_service answer calendar_id ids
    ask (revoke token) (λ t. web.on_revoke t token)
    pure tt
  google_cleanup token calendar_id ids false = do
    ask (revoke token) (λ t. web.on_revoke t token)
    pure tt

abbrev pub IsIn : Bytes → List Bytes → Type 0
IsIn id [] = ⊥
IsIn id (x ∷ ids) = (id ≡ x) ⊎ IsIn id ids

-- The calls that the goroutine may make: for the user's own token, the deletion of the user's own
-- calendar, which is not the primary one, and of events of the list in the primary one.
abbrev pub IsCleanup : Bytes → Bytes → List Bytes → Entry → Type 0
IsCleanup token calendar_id ids (new_service t) = t ≡ token
IsCleanup token calendar_id ids (delete_event cal id) = (cal ≡ codes "primary") × IsIn id ids
IsCleanup token calendar_id ids (sleep ms) = Unit
IsCleanup token calendar_id ids (web (delete_calendar cal)) =
    (cal ≡ calendar_id) × (cal ≢ codes "primary")
IsCleanup token calendar_id ids (web (revoke t)) = t ≡ token
IsCleanup token calendar_id ids _ = ⊥

IsIn-take : (n : ℕ) (id : Bytes) (ids : List Bytes) → IsIn id (take n ids) → IsIn id ids
IsIn-take zero id ids i = absurd i
IsIn-take (suc n) id [] i = absurd i
IsIn-take (suc n) id (x ∷ ids) (inl e) = inl e
IsIn-take (suc n) id (x ∷ ids) (inr i) = inr (IsIn-take n id ids i)

module _ (h : Site) (token calendar_id : Bytes) (ids : List Bytes) where
  abbrev Q : Entry → Type 0
  Q = IsCleanup token calendar_id ids

  Emits-attempts :
      (final : Err → Bool) (try' : Prog (Option Err)) (left n : ℕ) (last : Option Err)
      → Emits Q try'
      → Emits Q (attempts h final try' left n last)
  unfolding attempts wait_after
  Emits-attempts final try' zero n last emits = Emits-pure last
  Emits-attempts final try' (suc left) n last emits =
      Emits-bind try' _ emits
        (λ o. answered o (λ e. Emits-attempts final try' left (n + 1) (some e) emits))
    where
      answered :
          (o : Option Err)
          → ((e : Err) → Emits Q (attempts h final try' left (n + 1) (some e)))
          → Emits Q {A = Option Err} (elim o [
            | none ↦ pure none
            | some e ↦
                (let again = attempts h final try' left (n + 1) (some e) in
                  if final e then pure (some e) else (do wait_after h n; again))
          ])
      answered none more = Emits-pure none
      answered (some e) more = Emits-if (final e) _ _ (Emits-pure (some e)) (
          Emits-bind (wait_after h n) _
            (Emits-if (ltb n 3) _ _ (Emits-call (sleep (n * 500)) _ tt) (Emits-pure tt))
            (λ _. more e))

  Emits-delete_events :
      (batch : List Bytes)
      → ((id : Bytes) → IsIn id batch → IsIn id ids)
      → Emits Q (delete_events h batch)
  unfolding delete_events delete_primary_event
  Emits-delete_events [] listed = Emits-pure tt
  Emits-delete_events (id ∷ batch) listed =
      Emits-bind (delete_primary_event h id) _
        (Emits-attempts _ _ 3 1 none
          (Emits-call (delete_event (codes "primary") id) _ (refl, listed id (inl refl))))
        λ last. Emits-bind (pause 100) _ (Emits-call (sleep 100) _ tt) λ _.
          Emits-if (is_bad_token h last) _ _ (Emits-pure tt)
            (Emits-delete_events batch (λ i p. listed i (inr p)))

  Emits-clean_calendar : Emits Q (clean_calendar h calendar_id ids)
  unfolding clean_calendar delete_custom_calendar to_delete
  Emits-clean_calendar =
      if_split (Emits Q)
        (not (is_empty calendar_id) && not (bytes_eq calendar_id (codes "primary")))
        (λ e.
          Emits-bind (delete_custom_calendar h calendar_id) _
            (Emits-attempts _ _ 3 1 none (
              Emits-call (web (delete_calendar calendar_id)) _ (
                refl,
                λ same.
                    (let e' = (bytes_eq_iff calendar_id (codes "primary")).1 same in
                      ground (arith, e, e')),
              )))
            (λ _. Emits-pure tt))
        (λ e. Emits-delete_events (take 200 ids) (λ id. IsIn-take 200 id ids))

  Emits-with_service : (o : Option Err) → Emits Q (with_service h o calendar_id ids)
  unfolding with_service
  Emits-with_service none = Emits-clean_calendar
  Emits-with_service (some e) = Emits-pure tt

  -- Whatever Google answers, the goroutine of DeleteAccount uses no token but the one that it is given,
  -- deletes no calendar but the one that it is given, never the primary one, and of the primary one no
  -- event but those of its list.
  pub google_cleanup-IsCleanup :
      (google : Bool) → Emits Q (google_cleanup h token calendar_id ids google)
  unfolding google_cleanup
  google_cleanup-IsCleanup true =
      Emits-bind (new_calendar_service h.services token) _ (Emits-call (new_service token) _ refl)
        λ o. Emits-bind (with_service h o calendar_id ids) _ (Emits-with_service o) λ _.
          Emits-bind (ask (revoke token) _) _ (Emits-call (web (revoke token)) _ refl)
            (λ _. Emits-pure tt)
  google_cleanup-IsCleanup false =
      Emits-bind (ask (revoke token) _) _ (Emits-call (web (revoke token)) _ refl)
        (λ _. Emits-pure tt)
