-- ===== src/Web/ManualSync/Gate.antt =====
-- When ManualSync puts a task into the queue.
use contest_sync.Common.{
  ℕ, ◌≡◌, refl, ap, ap₂, subst, ◌∙◌, Bool, true, false, ◌⊎◌, inl, inr, Option, none, some, List, [],
  ◌∷◌, Bytes, is_empty, contains, leb, ◌==◌, ==_iff, if_split, ◌||◌,
}
use contest_sync.World.Models.{Err, Result, ok, err}
use contest_sync.World.Calls.{
  Trace, Entry, Pool, web, valkey_get, valkey_set, query_last_sync, refresh, tokeninfo,
  publish_sync,
}
use contest_sync.World.Prog.{World, Prog, next, return, pure, leave}
use contest_sync.World.Emits.{Emits, Extends, same, more, emits_rules, Emits-call}
use contest_sync.World.Inversion.{Ending, Ends, ending, bind_by, call_by}
use contest_sync.Auth.{decrypt_token}
use contest_sync.Sync.Syncer.{skip, pool_of}
use contest_sync.Sync.Load.{cached, store, bind_option}
use contest_sync.Web.Calls.{
  Site, Http, unbuilt, no_response, responded, syncer_of, Reply, calendar_scope,
}
use contest_sync.Web.ManualSync.{
  is_invalid, not_empty, store_last_sync, last_sync_row, last_sync_of, last_sync, stored_token,
  opened_token, check_cached, access_token, check_scope, check_info, published, publish, verify,
  check_access, sync_unless, manual_sync,
}

-- The tasks that are put into the queue, the newest first.
abbrev pub publishes : Trace → List ℕ
publishes [] = []
publishes (web (publish_sync u) ∷ t) = u ∷ publishes t
publishes (_ ∷ t) = publishes t

abbrev NoTask : Entry → Type 0
NoTask e = (t : Trace) → publishes (e ∷ t) ≡ publishes t

publishes-Extends : {t t' : Trace} → Extends NoTask t t' → publishes t' ≡ publishes t
publishes-Extends same = refl
publishes-Extends (more e q r) = q _ ∙ publishes-Extends r

publishes-Emits :
    {A : Type 0} (m : Prog A)
    → Emits NoTask m
    → (w : World) → publishes (m w).1.trace ≡ publishes w.trace
publishes-Emits m e w = publishes-Extends (e.at w)

no_get : (k : Bytes) → NoTask (valkey_get k)
no_get k t = refl

no_set : (k v : Bytes) (ttl : ℕ) → NoTask (valkey_set k v ttl)
no_set k v ttl t = refl

no_last_sync : (p : Pool) (u : ℕ) → NoTask (web (query_last_sync p u))
no_last_sync p u t = refl

ruleset no_task = (emits_rules, Emits-call, no_get, no_set, no_last_sync)

-- The token of the user, as a query has given it, opens, Google gives an access token for it, and that token allows the access
-- to calendars.
abbrev pub Checked : Site → ℕ → Type 0
Checked h u =
    (encrypted : Bytes) × (token : Bytes) × (access : Bytes) × (scope : Bytes) × (asked : Trace)
    × (before : Trace) × (behind : Trace) × (h.web.on_query_token asked (pool_of (syncer_of h)) u
        ≡ ok encrypted)
    × (decrypt_token h.cipher encrypted h.encryption_key ≡ ok token)
    × (h.web.on_refresh before token ≡ ok access)
    × (h.web.on_tokeninfo behind access ≡ responded 200 (some scope))
    × (contains scope calendar_scope ≡ true)

module _ (h : Site) (u : ℕ) where
  Emits-cached : (key : Bytes) → Emits NoTask (cached h.services h.codec (syncer_of h) key)
  unfolding cached
  Emits-cached key = search no_task

  Emits-store :
      (key val : Bytes) (ttl : ℕ)
      → Emits NoTask (store h.services h.codec (syncer_of h) key val ttl)
  unfolding store skip
  Emits-store key val ttl = search no_task

  Emits-store_last_sync : (o : Option ℕ) → Emits NoTask (store_last_sync h u o)
  unfolding store_last_sync
  Emits-store_last_sync none = search no_task
  Emits-store_last_sync (some t) = search (no_task, Emits-store)

  Emits-last_sync_row : (r : Result (Option ℕ)) → Emits NoTask (last_sync_row h u r)
  unfolding last_sync_row
  Emits-last_sync_row (ok t) = Emits-store_last_sync t
  Emits-last_sync_row (err e) = search no_task

  Emits-last_sync_of : (o : Option ℕ) → Emits NoTask (last_sync_of h u o)
  unfolding last_sync_of
  Emits-last_sync_of (some t) = search no_task
  Emits-last_sync_of none = search (no_task, Emits-last_sync_row)

  Emits-last_sync : Emits NoTask (last_sync h u)
  unfolding last_sync
  Emits-last_sync = search (no_task, Emits-cached, Emits-last_sync_of)

  -- the checks between the calls leave the world alone
  stored_token-next :
      (r : Result Bytes) (w : World)
      → ((stored_token h r w).1 ≡ w) × ((t : Bytes) → (stored_token h r w).0 ≡ next t → r ≡ ok t)
  unfolding stored_token leave pure
  stored_token-next (err e) w = (refl, λ t p. cc)
  stored_token-next (ok t) w =
      if_split (λ (m : Prog Bytes). ((m w).1 ≡ w) × ((s : Bytes) → (m w).0 ≡ next s → ok t ≡ ok s))
        (is_empty t) (λ _. (refl, λ s p. cc)) (λ _. (refl, λ s p. cc))

  opened_token-next :
      (r : Result Bytes) (w : World)
      → ((opened_token h r w).1 ≡ w) × ((t : Bytes) → (opened_token h r w).0 ≡ next t → r ≡ ok t)
  unfolding opened_token leave pure
  opened_token-next (err e) w = (refl, λ t p. cc)
  opened_token-next (ok t) w =
      if_split (λ (m : Prog Bytes). ((m w).1 ≡ w) × ((s : Bytes) → (m w).0 ≡ next s → ok t ≡ ok s))
        (is_empty t) (λ _. (refl, λ s p. cc)) (λ _. (refl, λ s p. cc))

  access_token-next :
      (r : Result Bytes) (w : World)
      → ((access_token h r w).1 ≡ w) × ((t : Bytes) → (access_token h r w).0 ≡ next t → r ≡ ok t)
  unfolding access_token leave pure
  access_token-next (err e) w = (refl, λ t p. cc)
  access_token-next (ok t) w = (refl, λ s p. cc)

  check_cached-still : (v : Option Bytes) (w : World) → (check_cached h v w).1 ≡ w
  unfolding check_cached leave pure
  check_cached-still v w =
      if_split (λ (m : Prog (Unit {0})). (m w).1 ≡ w)
        (is_invalid (bind_option (not_empty v) h.web.unmarshal_valid)) (λ _. refl) (λ _. refl)

  abbrev Allows : Http Bytes → Type 0
  Allows i =
      (scope : Bytes) × (i ≡ responded 200 (some scope)) × (contains scope calendar_scope ≡ true)

  check_scope-next :
      (o : Option Bytes) (w : World)
      → ((check_scope h o w).1 ≡ w)
        × ((x : Unit {0})
            → (check_scope h o w).0 ≡ next x
            → (scope : Bytes) × (o ≡ some scope) × (contains scope calendar_scope ≡ true))
  unfolding check_scope leave pure
  check_scope-next none w = (refl, λ x p. cc)
  check_scope-next (some scope) w =
      if_split
        (λ (m : Prog (Unit {0})).
          ((m w).1 ≡ w)
          × ((x : Unit {0})
              → (m w).0 ≡ next x
              → (s : Bytes) × (some scope ≡ some s) × (contains s calendar_scope ≡ true)))
        (contains scope calendar_scope) (λ yes_scope. (refl, λ x p. (scope, refl, yes_scope)))
        (λ _. (refl, λ x p. cc))

  check_info-next :
      (i : Http Bytes) (w : World)
      → ((check_info h i w).1 ≡ w) × ((x : Unit {0}) → (check_info h i w).0 ≡ next x → Allows i)
  unfolding check_info leave
  check_info-next unbuilt w = (refl, λ x p. cc)
  check_info-next no_response w = (refl, λ x p. cc)
  check_info-next (responded status body) w =
      let P = λ (m : Prog (Unit {0})).
        ((m w).1 ≡ w) × ((x : Unit {0}) → (m w).0 ≡ next x → Allows (responded status body)) in
      if_split P (status == 200)
        (λ e.
          let (still, inner) = check_scope-next body w in
          (
            still,
            λ x p.
                let (scope, q, c) = inner x p in
                (scope, ap₂ responded ((==_iff status 200).0 e) q, c),
          ))
        (λ _.
          if_split P ((status == 429) || leb 500 status) (λ _. (refl, λ x p. cc))
            (λ _. (refl, λ x p. cc)))

  -- Once the checks are passed they have held, and no task has been put into the queue by then.
  Passed : Trace → Ending (Unit {0})
  Passed t (next x) w = (publishes w.trace ≡ publishes t) × Checked h u
  Passed t (return e) w = publishes w.trace ≡ publishes t

  Passed-return :
      (t : Trace) (e : Option Err) (w : World)
      → Passed t (return e) w
      → publishes w.trace ≡ publishes t
  unfolding Passed
  Passed-return t e w p = p

  Passed-next :
      (t : Trace) (x : Unit {0}) (w : World)
      → Passed t (next x) w
      → (publishes w.trace ≡ publishes t) × Checked h u
  unfolding Passed
  Passed-next t x w p = p

  same_world :
      (t : Trace) {w w' : World}
      → w' ≡ w
      → publishes w.trace ≡ publishes t
      → publishes w'.trace ≡ publishes t
  same_world t e q = ap (λ (v : World). publishes v.trace) e ∙ q

  -- from the exchange of the opened token on
  verify-Passed :
      (t asked : Trace) (encrypted token : Bytes) (w : World)
      → h.web.on_query_token asked (pool_of (syncer_of h)) u ≡ ok encrypted
      → decrypt_token h.cipher encrypted h.encryption_key ≡ ok token
      → publishes w.trace ≡ publishes t
      → Ends (Passed t) (verify h token) w
  unfolding verify Passed
  verify-Passed t asked encrypted token w owns opens q =
      let P = Passed t in
      let refreshed = h.web.on_refresh w.trace token in
      let w1 = record w { trace = web (refresh token) ∷ w.trace } in
      call_by P (web (refresh token)) _ _ w (
        bind_by P (access_token h refreshed) _ w1
          (λ e _. same_world t (access_token-next refreshed w1).0 q)
          λ access gives.
            let w2 = (access_token h refreshed w1).1 in
            let q2 = same_world t (access_token-next refreshed w1).0 q in
            let info = h.web.on_tokeninfo w2.trace access in
            let w3 = record w2 { trace = web (tokeninfo access) ∷ w2.trace } in
            call_by P (web (tokeninfo access)) _ _ w2 (
              info_then (Passed t) info w3 (λ e. same_world t (check_info-next info w3).0 q2)
                (λ x allows.
                  let (scope, answers, contained) = (check_info-next info w3).1 x allows in
                  (
                    same_world t (check_info-next info w3).0 q2,
                    (
                      encrypted,
                      token,
                      access,
                      scope,
                      asked,
                      w.trace,
                      w2.trace,
                      owns,
                      opens,
                      (access_token-next refreshed w1).1 access gives,
                      answers,
                      contained,
                    ),
                  ))))
    where
      info_then :
          (P : Ending (Unit {0})) (i : Http Bytes) (v : World)
          → ((e : Option Err) → P (return e) (check_info h i v).1)
          → ((x : Unit {0}) → (check_info h i v).0 ≡ next x → P (next x) (check_info h i v).1)
          → Ends P (check_info h i) v
      info_then P i v left go = ending P (check_info h i v).0 (check_info h i v).1 left go

  check_access-Passed :
      (t : Trace) (w : World)
      → publishes w.trace ≡ publishes t
      → Ends (Passed t) (check_access h u) w
  unfolding check_access Passed
  check_access-Passed t w q =
      let P = Passed t in
      call_by P _ _ _ w (
        let answer = h.web.on_query_token w.trace (pool_of (syncer_of h)) u in
        let stored = stored_token-next answer _ in
        let q1 = same_world t stored.0 q in
        bind_by P (stored_token h answer) _ _ (λ e _. q1)
          λ encrypted holds.
            let opened = opened_token-next (decrypt_token h.cipher encrypted h.encryption_key) _ in
            let q2 = same_world t opened.0 q1 in
            bind_by P (opened_token h (decrypt_token h.cipher encrypted h.encryption_key)) _ _
              (λ e _. q2)
              λ token opens.
                let q3 = publishes-Emits _ (Emits-cached _) _ ∙ q2 in
                bind_by P (cached h.services h.codec (syncer_of h) _) _ _ (λ e _. q3)
                  λ val _.
                    let q4 = same_world t (check_cached-still val _) q3 in
                    bind_by P (check_cached h val) _ _ (λ e _. q4)
                      λ _ _.
                        verify-Passed t w.trace encrypted token _ (stored.1 encrypted holds)
                          (opened.1 token opens) q4)

  -- How ManualSync ends: with no task put into the queue, or with one of this user, which the checks
  -- have let through.
  abbrev pub Gated : Trace → Ending Reply
  Gated t r w =
      (publishes w.trace ≡ publishes t) ⊎ ((publishes w.trace ≡ u ∷ publishes t) × Checked h u)

  publish-Gated :
      (t : Trace) (w : World)
      → publishes w.trace ≡ publishes t
      → Checked h u
      → Ends (Gated t) (publish h u) w
  unfolding publish published
  publish-Gated t w q c =
      call_by (Gated t) (web (publish_sync u)) _ _ w
        (published_then (h.web.on_publish_sync w.trace u))
    where
      published_then :
          (o : Option Err)
          → Ends (Gated t) (published h o) (record w { trace = web (publish_sync u) ∷ w.trace })
      published_then none = unfold pure in inr (ap (λ l. u ∷ l) q, c)
      published_then (some e) = unfold leave in inr (ap (λ l. u ∷ l) q, c)

  sync_unless-Gated :
      (t : Trace) (b : Bool) (w : World)
      → publishes w.trace ≡ publishes t
      → Ends (Gated t) (sync_unless h u b) w
  unfolding sync_unless
  sync_unless-Gated t true w q = unfold pure in inl q
  sync_unless-Gated t false w q =
      let passed = check_access-Passed t w q in
      bind_by (Gated t) (check_access h u) (λ _. publish h u) w
        (λ e left.
          inl (Passed-return t _ _ (subst (λ r. Passed t r (check_access h u w).1) left passed)))
        (λ x went.
          let (unsent, checked) =
            Passed-next t x _ (subst (λ r. Passed t r (check_access h u w).1) went passed) in
          publish-Gated t _ unsent checked)

  -- ManualSync puts no task into the queue, or one of the user; in that case the token of the user
  -- has been opened, Google has given an access token for it, and the scope of that access token
  -- contains the access to calendars.
  pub manual_sync-Gated : (w : World) → Ends (Gated w.trace) (manual_sync h u) w
  unfolding manual_sync
  manual_sync-Gated w =
      let q = publishes-Emits _ Emits-last_sync w in
      bind_by (Gated w.trace) (last_sync h u) _ w (λ e _. inl q)
        (λ at _. sync_unless-Gated w.trace _ _ q)
