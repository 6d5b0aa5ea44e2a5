-- ===== src/Process/Released.antt =====
-- What the processes have open while they work, and that they close it.
use contest_sync.Common.{
  ◌≡◌, refl, sym, subst, Bool, true, false, ◌==◌, Option, none, some, List, [], ◌∷◌, ◌++◌, Bytes,
  codes, is_empty, length, if◌then◌else◌, if_split, ◌⊎◌, inl, inr,
}
use contest_sync.World.Models.{Err}
use contest_sync.Config.{Config}
use contest_sync.Server.{startup_error}
use contest_sync.Process.{
  Resource, telegram, metrics, signals, pool, valkey, queue, scheduler, Step, opened, closed,
  started_consumers, listening, event_startup, event_shutdown, shut_down, waited_cleanups,
  drained_queue, Life, exited, returned, Surroundings, fatal, also, step_if, defers, defers_if,
  or_fatal, unless_fatal, unless_failed, with_valkey, with_services, observed, serving,
  has_telegram, worker_life, server_life,
}

-- the resource is open
abbrev pub IsOpen : Resource → List Resource → Type 0
IsOpen r [] = ⊥
IsOpen r (s ∷ rest) = (r ≡ s) ⊎ IsOpen r rest

-- The work needs the database and the queue.
abbrev pub CanWork : List Resource → Type 0
CanWork open' = IsOpen pool open' × IsOpen queue open'

-- From the first open resources, the last opened first, the steps lead to the second ones: each is
-- closed in its turn, and what works has what it needs.
abbrev pub Leads : List Resource → List Resource → List Step → Type 0
Leads a b [] = a ≡ b
Leads a b (opened r ∷ l) = Leads (r ∷ a) b l
Leads [] b (closed r ∷ l) = ⊥
Leads (s ∷ a) b (closed r ∷ l) = (r ≡ s) × Leads a b l
Leads a b (started_consumers ∷ l) = CanWork a × Leads a b l
Leads a b (listening ∷ l) = CanWork a × Leads a b l
Leads a b (drained_queue ∷ l) = CanWork a × Leads a b l
Leads a b (event_startup ∷ l) = Leads a b l
Leads a b (event_shutdown ∷ l) = Leads a b l
Leads a b (shut_down ∷ l) = Leads a b l
Leads a b (waited_cleanups ∷ l) = Leads a b l

Leads-append :
    (a b c : List Resource) (l k : List Step) → Leads a b l → Leads b c k → Leads a c (l ++ k)
Leads-append a b c [] k h j = subst (λ x. Leads x c k) (sym h) j
Leads-append a b c (opened r ∷ l) k h j = Leads-append (r ∷ a) b c l k h j
Leads-append [] b c (closed r ∷ l) k h j = absurd h
Leads-append (s ∷ a) b c (closed r ∷ l) k (e, h) j = (e, Leads-append a b c l k h j)
Leads-append a b c (started_consumers ∷ l) k (w, h) j = (w, Leads-append a b c l k h j)
Leads-append a b c (listening ∷ l) k (w, h) j = (w, Leads-append a b c l k h j)
Leads-append a b c (drained_queue ∷ l) k (w, h) j = (w, Leads-append a b c l k h j)
Leads-append a b c (event_startup ∷ l) k h j = Leads-append a b c l k h j
Leads-append a b c (event_shutdown ∷ l) k h j = Leads-append a b c l k h j
Leads-append a b c (shut_down ∷ l) k h j = Leads-append a b c l k h j
Leads-append a b c (waited_cleanups ∷ l) k h j = Leads-append a b c l k h j

-- the process does not listen
abbrev pub IsSilent : List Step → Type 0
IsSilent [] = Unit
IsSilent (listening ∷ l) = ⊥
IsSilent (_ ∷ l) = IsSilent l

-- The life ends by its first step to listen.
abbrev pub Falls : List Step → Type 0
Falls [] = ⊥
Falls (listening ∷ l) = l ≡ []
Falls (_ ∷ l) = Falls l

module _ (o : Surroundings) (failure : Bytes) where
  -- A life that returns leaves what was open before it, and ListenAndServe has not failed. One that ends
  -- by log.Fatal has not listened, or ListenAndServe has failed, and it ends there with this error.
  abbrev pub Keeps : List Resource → Life → Type 0
  Keeps a (returned l) = (o.listen_error ≡ none) × Leads a a l
  Keeps a (exited text l) =
      IsSilent l ⊎ ((e : Err) × (o.listen_error ≡ some e) × (text ≡ failure ++ e.text) × Falls l)

  defers-Keeps :
      (a : List Resource) (r : Resource) (life : Life)
      → Keeps (r ∷ a) life
      → Keeps a (defers r life)
  unfolding defers
  defers-Keeps a r (returned l) (e, h) =
      (e, Leads-append (r ∷ a) (r ∷ a) a l (closed r ∷ []) h (refl, refl))
  defers-Keeps a r (exited text l) h = h

  defers_if-Keeps :
      (b : Bool) (r : Resource) (life : Life)
      → ((x : List Resource) → Keeps x life)
      → (x : List Resource) → Keeps x (defers_if b r life)
  unfolding defers_if
  defers_if-Keeps true r life h x = defers-Keeps x r life (h (r ∷ x))
  defers_if-Keeps false r life h x = h x

  or_fatal-Keeps :
      (a : List Resource) (text : Bytes) (e : Option Err) (life : Life)
      → Keeps a life
      → Keeps a (or_fatal text e life)
  unfolding or_fatal
  or_fatal-Keeps a text none life h = h
  or_fatal-Keeps a text (some e) life h = inl tt

  unless_fatal-Keeps :
      (a : List Resource) (text : Option Bytes) (life : Life)
      → Keeps a life
      → Keeps a (unless_fatal text life)
  unfolding unless_fatal
  unless_fatal-Keeps a none life h = h
  unless_fatal-Keeps a (some text) life h = inl tt

  -- The rest of main works wherever the pool and the queue are open.
  abbrev Works : Life → Type 0
  Works life = (x : List Resource) → CanWork x → Keeps x life

  with_valkey-Keeps :
      (cfg : Config) (a : List Resource) (life : Life)
      → Keeps a life
      → Keeps (valkey ∷ a) life
      → Keeps a (with_valkey cfg o life)
  unfolding with_valkey
  with_valkey-Keeps cfg a life h k =
      if_split (Keeps a) (is_empty cfg.valkey_uri) (λ e. h)
        λ e.
          let pinged : Life =
            or_fatal (codes "failed to connect to Valkey: ") o.ping_error (defers valkey life) in
          or_fatal-Keeps a (codes "failed to parse VALKEY_URI: ") o.parse_error pinged (
            or_fatal-Keeps a (codes "failed to connect to Valkey: ") o.ping_error
              (defers valkey life) (defers-Keeps a valkey life k))

  with_services-Keeps :
      (cfg : Config) (a : List Resource) (life : Life)
      → Works life
      → Keeps a (with_services cfg o life)
  unfolding with_services
  with_services-Keeps cfg a life works =
      let queued : Life =
        or_fatal (codes "failed to initialize queue: ") o.queue_error (defers queue life) in
      let inner : Life = with_valkey cfg o queued in
      let kept : Keeps (pool ∷ signals ∷ a) inner =
        with_valkey-Keeps cfg (pool ∷ signals ∷ a) queued
          (with_queue (pool ∷ signals ∷ a) (inl refl))
          (with_queue (valkey ∷ pool ∷ signals ∷ a) (inr (inl refl))) in
      defers-Keeps a signals (or_fatal [] o.pool_error (defers pool inner)) (
        or_fatal-Keeps (signals ∷ a) [] o.pool_error (defers pool inner)
          (defers-Keeps (signals ∷ a) pool inner kept))
    where
      with_queue :
          (x : List Resource)
          → IsOpen pool x
          → Keeps x
              (or_fatal (codes "failed to initialize queue: ") o.queue_error (defers queue life))
      with_queue x open' =
          or_fatal-Keeps x (codes "failed to initialize queue: ") o.queue_error (defers queue life)
            (defers-Keeps x queue life (works (queue ∷ x) (inr open', inl refl)))

  observed-Keeps :
      (cfg : Config) (life : Life)
      → ((x : List Resource) → Keeps x life)
      → Keeps [] (observed cfg o life)
  unfolding observed
  observed-Keeps cfg life h =
      defers_if-Keeps (has_telegram cfg) telegram _ (defers_if-Keeps o.has_metrics metrics life h)
        []

  consumers-Works : (life : Life) → Works life → Works (also started_consumers life)
  unfolding also
  consumers-Works (returned l) h x work = let kept = h x work in (kept.0, (work, kept.1))
  consumers-Works (exited text l) h x work = h x work

  step_if-Leads :
      (b : Bool) (x y : List Resource) (s : Step) (l : List Step)
      → Leads x y l
      → Leads x y (s ∷ l)
      → Leads x y (step_if b s l)
  step_if-Leads true x y s l h k = k
  step_if-Leads false x y s l h k = h

  also_startup-Keeps :
      (x : List Resource) (life : Life) → Keeps x life → Keeps x (also event_startup life)
  unfolding also
  also_startup-Keeps x (returned l) h = h
  also_startup-Keeps x (exited text l) h = h

  listening-Keeps :
      (x : List Resource) (r : Option Err) (l : List Step)
      → o.listen_error ≡ r
      → CanWork x
      → Leads x x l
      → Keeps x (also listening (unless_failed failure r l))
  unfolding also unless_failed
  listening-Keeps x none l e work h = (e, (work, h))
  listening-Keeps x (some f) l e work h = inr (f, e, refl, refl)

  serving-Works :
      (cfg : Config) (waits : List Step)
      → ((x : List Resource) → Leads x x waits)
      → Works (serving cfg o failure waits)
  unfolding serving
  serving-Works cfg waits h x work =
      let behind : Leads x x (waits ++ drained_queue ∷ []) =
        Leads-append x x x waits (drained_queue ∷ []) (h x) (work, refl) in
      let listened =
        listening-Keeps x o.listen_error _ refl work
          (step_if-Leads (has_telegram cfg) x x event_shutdown _ behind behind) in
      if_split (Keeps x) (has_telegram cfg) (λ e. also_startup-Keeps x _ listened) (λ e. listened)

  scheduled-Works :
      (life : Life) (e : Option Err) → Works life → Works (defers scheduler (or_fatal [] e life))
  scheduled-Works life e h x (p, q) =
      defers-Keeps x scheduler _
        (or_fatal-Keeps (scheduler ∷ x) [] e life (h (scheduler ∷ x) (inr p, inr q)))

-- If main returns, of the server as of the worker, then ListenAndServe has not failed, and each resource
-- that it has opened is closed, the last one first; when the consumers start, when it begins to listen
-- and when it waits for the tasks, the database and the queue are open. If it ends by log.Fatal, then
-- either it has not listened, or ListenAndServe has failed: then it ends there, by the text of its
-- program with this error.
pub lives-Keeps :
    (cfg : Config) (o : Surroundings)
    → Keeps o (codes "failed to start server: ") [] (server_life cfg o)
      × Keeps o (codes "failed to start worker: ") [] (worker_life cfg o)
unfolding server_life worker_life
lives-Keeps cfg o =
    let text : Bytes = codes "failed to start server: " in
    let text' : Bytes = codes "failed to start worker: " in
    let worker : Life = also started_consumers (serving cfg o text' []) in
    let served : Life = serving cfg o text (waited_cleanups ∷ []) in
    let scheduled : Life = defers scheduler (or_fatal [] o.static_error served) in
    let server : Life = also started_consumers scheduled in
    let checked : Life =
      if length cfg.encryption_key == 32
      then with_services cfg o worker
      else fatal (codes "ENCRYPTION_KEY must be exactly 32 bytes") in
    (
      observed-Keeps o text cfg
          (unless_fatal (startup_error cfg o.hcaptcha_secret) (with_services cfg o server))
          (λ x.
            unless_fatal-Keeps o text x (startup_error cfg o.hcaptcha_secret)
              (with_services cfg o server)
              (with_services-Keeps o text cfg x server (
                consumers-Works o text scheduled (
                  scheduled-Works o text served o.static_error
                    (serving-Works o text cfg (waited_cleanups ∷ []) (λ y. refl)))))),
      observed-Keeps o text' cfg checked λ x.
          if_split (Keeps o text' x) (length cfg.encryption_key == 32)
            (λ e. with_services-Keeps o text' cfg x worker (
              consumers-Works o text' (serving cfg o text' [])
                (serving-Works o text' cfg [] (λ y. refl))))
            (λ e. inl tt),
    )
