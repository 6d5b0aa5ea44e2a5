-- ===== src/Web/Admin/Report.antt =====
-- Who may run HealthCheck, and what stands behind its "ok".
use contest_sync.Common.{
  ℕ, ◌≤◌, ◌≡◌, ◌≢◌, refl, Bool, true, false, ◌⊎◌, inl, inr, Option, none, some, [], ◌∷◌, ◌↔◌, subst,
  Bytes, codes, is_empty, bytes_eq, bytes_eq→eq, bytes_eq_iff, length, ◌==◌, ==_iff, if◌then◌else◌,
  if_split, arith, ap, ◌∙◌,
}
use contest_sync.World.Models.{Err, Result, ok, err}
use contest_sync.World.Calls.{
  Trace, read_pool, write_pool, valkey_set, valkey_get, web, probe_read, probe_begin, probe_write,
  queue_health,
}
use contest_sync.World.Prog.{World, Prog, next, return, pure, leave, call, ◌>>=◌}
use contest_sync.World.Inversion.{Ending, Ends, bind_by, call_by, if_by}
use contest_sync.Web.Calls.{problem}
use contest_sync.Web.Admin.{
  AdminHandlers, Health, healthy, unhealthy, not_configured, HealthResponse, health_of, is_healthy,
  require_admin, read_checked, write_checked, begin_checked, check_write_path, check_postgres,
  value_checked, set_checked, check_valkey_at, check_valkey, check_queue, component, response_of,
  check_services, health_check, health_request,
}

-- A check that finds no error has the reason `C`, and a check always ends by its result.
abbrev pub Finds : Type 0 → Ending (Option Err)
Finds C (next none) w = C
Finds C (next (some e)) w = Unit
Finds C (return e) w = ⊥

module _ (h : AdminHandlers) where
  -- the database: the query gives 2, and the transaction begins and runs
  abbrev pub PostgresPassed : Type 0
  PostgresPassed =
      (t1 : Trace) × (t2 : Trace) × (t3 : Trace) × (h.web.on_probe_read t1
          (if h.has_read_db then read_pool else write_pool)
        ≡ ok 2)
      × (h.web.on_probe_begin t2 ≡ none)
      × (h.web.on_probe_write t3 ≡ none)

  -- Valkey: what has been written under a key is read back
  abbrev pub ValkeyPassed : Type 0
  ValkeyPassed =
      (t1 : Trace) × (t2 : Trace) × (key : Bytes) × (h.services.on_set t1 key (codes "1") ≡ none)
      × (h.services.on_get t2 key ≡ some (codes "1"))

  abbrev pub QueuePassed : Type 0
  QueuePassed = (t : Trace) × (h.web.on_queue_health t ≡ none)

  begin_checked-Finds :
      (t1 t2 : Trace) (o : Option Err) (w : World)
      → h.web.on_probe_read t1 (if h.has_read_db then read_pool else write_pool) ≡ ok 2
      → h.web.on_probe_begin t2 ≡ o
      → Ends (Finds PostgresPassed) (begin_checked h o) w
  unfolding begin_checked
  begin_checked-Finds t1 t2 (some e) w reads begins = unfold pure in tt
  begin_checked-Finds t1 t2 none w reads begins =
      call_by (Finds PostgresPassed) (web probe_write) _ _ w (written _ refl)
    where
      written :
          (o : Option Err)
          → h.web.on_probe_write w.trace ≡ o
          → Ends
              (Finds PostgresPassed)
              (write_checked h o)
              (record w { trace = web probe_write ∷ w.trace })
      written none writes = unfold write_checked pure in (t1, t2, w.trace, reads, begins, writes)
      written (some e) writes = unfold write_checked pure in tt

  read_checked-none : (text : Bytes) (r : Result ℕ) → read_checked h text r ≡ none → r ≡ ok 2
  unfolding read_checked
  read_checked-none text (err e) = λ q. cc
  read_checked-none text (ok n) =
      if_split (λ o. o ≡ none → ok n ≡ ok 2) (n == 2) (λ e _. ap ok ((==_iff n 2).0 e)) (λ _ q. cc)

  check_write_path-Finds :
      (t1 : Trace) (o : Option Err) (w : World)
      → (o ≡ none → h.web.on_probe_read t1 (if h.has_read_db then read_pool else write_pool) ≡ ok 2)
      → Ends (Finds PostgresPassed) (check_write_path h o) w
  unfolding check_write_path
  check_write_path-Finds t1 (some e) w reads = unfold pure in tt
  check_write_path-Finds t1 none w reads =
      call_by (Finds PostgresPassed) (web probe_begin) _ _ w
        (begin_checked-Finds t1 w.trace _ _ (reads refl) refl)

  check_postgres-Finds : (w : World) → Ends (Finds PostgresPassed) (check_postgres h) w
  unfolding check_postgres
  check_postgres-Finds w =
      call_by (Finds PostgresPassed)
        (web (probe_read (if h.has_read_db then read_pool else write_pool))) _ _ w
        (check_write_path-Finds w.trace _ _ (read_checked-none _ _))

  value_checked-Finds :
      (t1 t2 : Trace) (key : Bytes) (o : Option Bytes) (w : World)
      → h.services.on_set t1 key (codes "1") ≡ none
      → h.services.on_get t2 key ≡ o
      → Ends (Finds ValkeyPassed) (value_checked h key o) w
  unfolding value_checked
  value_checked-Finds t1 t2 key none w sets gets = unfold pure in tt
  value_checked-Finds t1 t2 key (some val) w sets gets =
      if_by (Finds ValkeyPassed) (bytes_eq val (codes "1")) _ _ w
        (λ e.
          unfold ◌>>=◌ pure in (t1, t2, key, sets, gets ∙ ap some (bytes_eq→eq val (codes "1") e)))
        (λ _. unfold pure in tt)

  check_valkey_at-Finds :
      (key : Bytes) (w : World) → Ends (Finds ValkeyPassed) (check_valkey_at h key) w
  unfolding check_valkey_at
  check_valkey_at-Finds key w =
      call_by (Finds ValkeyPassed) (valkey_set key (codes "1") 10) _ _ w (after_set _ refl)
    where
      after_set :
          (o : Option Err)
          → h.services.on_set w.trace key (codes "1") ≡ o
          → Ends
              (Finds ValkeyPassed)
              (set_checked h key o)
              (record w { trace = valkey_set key (codes "1") 10 ∷ w.trace })
      after_set (some e) sets = unfold set_checked pure in tt
      after_set none sets =
          unfold set_checked in
          call_by (Finds ValkeyPassed) (valkey_get key) _ _ _
            (value_checked-Finds w.trace _ key _ _ sets refl)

  check_valkey-Finds : (w : World) → Ends (Finds ValkeyPassed) (check_valkey h) w
  unfolding check_valkey
  check_valkey-Finds w = check_valkey_at-Finds _ w

  check_queue-Finds : (w : World) → Ends (Finds QueuePassed) (check_queue h) w
  unfolding check_queue call
  check_queue-Finds w = found (h.web.on_queue_health w.trace) refl
    where
      found :
          (o : Option Err)
          → h.web.on_queue_health w.trace ≡ o
          → Finds QueuePassed (next o) (record w { trace = web queue_health ∷ w.trace })
      found none health = (w.trace, health)
      found (some e) health = tt

  -- The state of a component: healthy for the reason `C`, or not configured.
  abbrev Shows : Type 0 → Bool → Ending Health
  Shows C configured (next healthy) w = C
  Shows C configured (next (unhealthy e)) w = Unit
  Shows C configured (next not_configured) w = configured ≡ false
  Shows C configured (return e) w = ⊥

  component-Shows :
      (C : Type 0) (b : Bool) (check : Prog (Option Err)) (w : World)
      → Ends (Finds C) check w
      → Ends (Shows C b) (component h b check) w
  unfolding component
  component-Shows C false check w found = unfold pure in refl
  component-Shows C true check w found =
      bind_by (Shows C true) check _ w (λ e left. subst (λ r. Finds C r (check w).1) left found)
        (λ o went. shown o (check w).1 (subst (λ r. Finds C r (check w).1) went found))
    where
      shown :
          (o : Option Err) (v : World)
          → Finds C (next o) v
          → Ends (Shows C true) (pure (health_of o)) v
      shown none v c = unfold pure in c
      shown (some e) v c = unfold pure in tt

  Shows-cases :
      (C : Type 0) (b : Bool) (s : Health) (w : World)
      → Shows C b (next s) w
      → (is_healthy s ≡ false) ⊎ ((b ≡ false) ⊎ C)
  Shows-cases C b healthy w c = inr (inr c)
  Shows-cases C b (unhealthy e) w c = inl refl
  Shows-cases C b not_configured w c = inr (inl c)

  -- The password is the one that is set, which is not empty, and has at most 256 bytes.
  abbrev pub IsAdmin : Bytes → Type 0
  IsAdmin pass = (pass ≡ h.admin_password) × (h.admin_password ≢ []) × (length pass ≤ 256)

  is_empty_iff : (s : Bytes) → (is_empty s ≡ false) ↔ (s ≢ [])
  unfolding is_empty
  is_empty_iff [] = (λ e. cc, λ f. absurd (f refl))
  is_empty_iff (c ∷ s) = (λ e f. cc, λ f. refl)

  require_admin_iff : (pass : Bytes) → (require_admin h pass ≡ true) ↔ IsAdmin pass
  unfolding require_admin
  require_admin_iff pass =
      ground (arith, bytes_eq_iff pass h.admin_password, is_empty_iff h.admin_password)

  -- How HealthCheck ends from a world.
  abbrev pub Reports : Bytes → World → Ending HealthResponse
  Reports pass start (next r) w =
      IsAdmin pass
      × ((r.ok ≡ false)
          ⊎ (PostgresPassed
              × ((h.has_valkey ≡ false) ⊎ ValkeyPassed)
              × ((h.has_queue ≡ false) ⊎ QueuePassed)))
  Reports pass start (return e) w =
      ¬ IsAdmin pass × (w ≡ start) × (e ≡ some (problem 401 (codes "unauthorized")))

  component_by :
      {B : Type 0} (P : Ending B) (C : Type 0) (b : Bool) (check : Prog (Option Err))
      (f : Health → Prog B) (w : World)
      → Ends (Finds C) check w
      → ((s : Health) (v : World) → (is_healthy s ≡ false) ⊎ ((b ≡ false) ⊎ C) → Ends P (f s) v)
      → Ends P (component h b check >>= f) w
  component_by P C b check f w found go =
      let shows = component-Shows C b check w found in
      bind_by P (component h b check) f w
        (λ e left. absurd (subst (λ r. Shows C b r (component h b check w).1) left shows))
        (λ s went.
          go s _
            (Shows-cases C b s _ (subst (λ r. Shows C b r (component h b check w).1) went shows)))

  -- how the checks end: `ok` has its reasons
  abbrev Reasons : HealthResponse → Type 0
  Reasons r =
      (r.ok ≡ false)
      ⊎ (PostgresPassed
          × ((h.has_valkey ≡ false) ⊎ ValkeyPassed)
          × ((h.has_queue ≡ false) ⊎ QueuePassed))

  response_of-Reasons :
      (p v q : Health)
      → (is_healthy p ≡ false) ⊎ ((true ≡ false) ⊎ PostgresPassed)
      → (is_healthy v ≡ false) ⊎ ((h.has_valkey ≡ false) ⊎ ValkeyPassed)
      → (is_healthy q ≡ false) ⊎ ((h.has_queue ≡ false) ⊎ QueuePassed)
      → Reasons (response_of h p v q)
  unfolding response_of
  response_of-Reasons p v q (inl a) c d = inl (ground arith)
  response_of-Reasons p v q (inr (inl a)) c d = inl (cc)
  response_of-Reasons p v q (inr (inr a)) (inl c) d = inl (ground arith)
  response_of-Reasons p v q (inr (inr a)) (inr c) (inl d) = inl (ground arith)
  response_of-Reasons p v q (inr (inr a)) (inr c) (inr d) = inr (a, c, d)

  check_services-Reports :
      (pass : Bytes) (start w : World)
      → IsAdmin pass
      → Ends (Reports pass start) (check_services h) w
  unfolding check_services
  check_services-Reports pass start w admin =
      let P = Reports pass start in
      component_by P PostgresPassed true (check_postgres h) _ w (check_postgres-Finds w) λ p w1 a.
        component_by P ValkeyPassed h.has_valkey (check_valkey h) _ w1 (check_valkey-Finds w1)
          λ v w2 b.
            component_by P QueuePassed h.has_queue (check_queue h) (λ q. pure (response_of h p v q))
              w2 (check_queue-Finds w2)
              λ q w3 c. unfold pure in (admin, response_of-Reasons p v q a b c)

  health_check-Reports : (pass : Bytes) (w : World) → Ends (Reports pass w) (health_check h pass) w
  unfolding health_check
  health_check-Reports pass w =
      if_by (Reports pass w) (require_admin h pass) (check_services h) _ w
        (λ admits. check_services-Reports pass w w ((require_admin_iff pass).0 admits))
        (λ refuses.
          unfold leave in
          (λ admin. (let admits = (require_admin_iff pass).1 admin in cc), refl, refl))

  -- How HealthCheck ends from a world; `none` is the reply "healthy".
  abbrev pub Answers : Bytes → Bytes → World → Ending (Option HealthResponse)
  Answers method pass start (next none) w = (method ≢ codes "POST") × (w ≡ start)
  Answers method pass start (next (some r)) w =
      (method ≡ codes "POST") × Reports pass start (next r) w
  Answers method pass start (return e) w = (method ≡ codes "POST") × Reports pass start (return e) w

  -- HealthCheck replies "healthy" exactly to the requests whose method is not POST, with no call and
  -- whatever the password. A POST it refuses with 401, with no call, unless the password is the one
  -- that is set, not empty and at most 256 bytes long. To a POST of an admin it reports, and says ok
  -- only if the database has answered the query with 2, begun the transaction and run its statement,
  -- Valkey has given back what was written, and the queue is healthy, each of the last two where it
  -- is configured.
  pub health_request-Reports :
      (method pass : Bytes) (w : World)
      → Ends (Answers method pass w) (health_request h method pass) w
  unfolding health_request
  health_request-Reports method pass w =
      let P = Answers method pass w in
      let reported : HealthResponse → Prog (Option HealthResponse) = λ r. pure (some r) in
      if_by P (bytes_eq method (codes "POST")) (health_check h pass >>= reported) (pure none) w
        (λ is.
          let post : method ≡ codes "POST" = bytes_eq→eq method (codes "POST") is in
          let report = health_check-Reports pass w in
          bind_by P (health_check h pass) reported w
            (λ e left. (post, subst (λ r. Reports pass w r (health_check h pass w).1) left report))
            (λ r went.
              unfold pure in
              (post, subst (λ x. Reports pass w x (health_check h pass w).1) went report)))
        (λ other.
          unfold pure in
          (λ post. (let is = (bytes_eq_iff method (codes "POST")).1 post in cc), refl))
