-- ===== src/Worker/Health.antt =====
-- What the health report of the worker says, and to whom.
use contest_sync.Common.{
  ◌≤◌, ◌≡◌, ◌≢◌, refl, true, false, ◌&&◌, ◌⊎◌, ◌↔◌, Option, none, some, List, [], ◌∷◌, ◌++◌, Bytes,
  codes, is_empty, bytes_eq, bytes_eq_iff, length, if_split, arith,
}
use contest_sync.World.Models.{Err}
use contest_sync.Worker.{
  Worker, Probe, begin_write, rollback, queue_health, Answers, Status, Reply, page, alive,
  unauthorized, services, state_of, is_fine, begin_probe, query_probe, postgres_probe, valkey_probe,
  admits_password, reported, probed, health_report, serve,
}

abbrev pub IsAdmin : Worker → Bytes → Type 0
IsAdmin w pass = (pass ≡ w.admin_password) × (w.admin_password ≢ []) × (length pass ≤ 256)

-- Every service that is configured answers without an error.
abbrev pub AllWell : Worker → Answers → Type 0
AllWell w a =
    ((w.has_read_db ≡ false) ⊎ (a.on_query ≡ none))
    × (a.on_begin ≡ none)
    × ((w.has_valkey ≡ false) ⊎ (a.on_ping ≡ none))
    × (a.on_queue ≡ none)

-- The transactions begun that may still be open behind the probes, the flag being whether the begin
-- succeeds: each is rolled back.
abbrev pub RolledBack : Option Err → List Probe → Type 0
RolledBack e [] = Unit
RolledBack none (begin_write ∷ rollback ∷ rest) = RolledBack none rest
RolledBack none (begin_write ∷ _) = ⊥
RolledBack e (p ∷ rest) = RolledBack e rest

is_empty_iff : (s : Bytes) → (is_empty s ≡ false) ↔ (s ≢ [])
unfolding is_empty
is_empty_iff [] = (λ e. cc, λ f. absurd (f refl))
is_empty_iff (c ∷ s) = (λ e f. cc, λ f. refl)

admits_password_iff : (w : Worker) (pass : Bytes) → (admits_password w pass ≡ true) ↔ IsAdmin w pass
unfolding admits_password
admits_password_iff w pass =
    ground (arith, bytes_eq_iff pass w.admin_password, is_empty_iff w.admin_password)

state_of_iff : (o : Option Err) → (is_fine (state_of o) ≡ true) ↔ (o ≡ none)
state_of_iff none = (λ e. refl, λ e. refl)
state_of_iff (some x) = (λ e. cc, λ e. cc)

postgres_iff :
    (w : Worker) (a : Answers)
    → ((postgres_probe w a).1 ≡ none)
      ↔ (((w.has_read_db ≡ false) ⊎ (a.on_query ≡ none)) × (a.on_begin ≡ none))
unfolding postgres_probe query_probe begin_probe
postgres_iff w a = ground arith

valkey_iff :
    (w : Worker) (a : Answers)
    → (is_fine (valkey_probe w a).1 ≡ true) ↔ ((w.has_valkey ≡ false) ⊎ (a.on_ping ≡ none))
unfolding valkey_probe
valkey_iff w a = ground arith

begin-RolledBack :
    (b : Option Err) (rest : List Probe)
    → RolledBack b rest
    → RolledBack b ((begin_probe b).0 ++ rest)
unfolding begin_probe
begin-RolledBack none rest h = h
begin-RolledBack (some e) rest h = h

query-RolledBack :
    (q b : Option Err) (rest : List Probe)
    → RolledBack b rest
    → RolledBack b ((query_probe q b).0 ++ rest)
unfolding query_probe
query-RolledBack none none rest h = begin-RolledBack none rest h
query-RolledBack none (some e) rest h = begin-RolledBack (some e) rest h
query-RolledBack (some x) none rest h = h
query-RolledBack (some x) (some e) rest h = h

valkey-RolledBack :
    (w : Worker) (a : Answers) (b : Option Err)
    → RolledBack b ((valkey_probe w a).0 ++ queue_health ∷ [])
unfolding valkey_probe
valkey-RolledBack w a none =
    if_split (λ (p : List Probe × Status). RolledBack none (p.0 ++ queue_health ∷ [])) w.has_valkey
      (λ e. tt) (λ e. tt)
valkey-RolledBack w a (some x) =
    if_split (λ (p : List Probe × Status). RolledBack (some x) (p.0 ++ queue_health ∷ []))
      w.has_valkey (λ e. tt) (λ e. tt)

RolledBack-probed : (w : Worker) (a : Answers) → RolledBack a.on_begin (probed w a).1
unfolding probed postgres_probe
RolledBack-probed w a =
    let rest : List Probe = (valkey_probe w a).0 ++ queue_health ∷ [] in
    if_split (λ (p : List Probe × Option Err). RolledBack a.on_begin (p.0 ++ rest)) w.has_read_db
      (λ e. query-RolledBack a.on_query a.on_begin rest (valkey-RolledBack w a a.on_begin))
      (λ e. begin-RolledBack a.on_begin rest (valkey-RolledBack w a a.on_begin))

-- what a reply to a request tells
abbrev pub Tells : Worker → Bytes → Bytes → Bytes → Answers → Reply × List Probe → Type 0
Tells w path method pass a (page, probes) = (path ≢ codes "/health") × (probes ≡ [])
Tells w path method pass a (alive, probes) = (method ≢ codes "POST") × (probes ≡ [])
Tells w path method pass a (unauthorized, probes) = ¬ IsAdmin w pass × (probes ≡ [])
Tells w path method pass a (services ok p v q, probes) =
    IsAdmin w pass × ((ok ≡ true) ↔ AllWell w a) × RolledBack a.on_begin probes

probed-ok :
    (w : Worker) (a : Answers)
    → let p = state_of (postgres_probe w a).1 in
      let v = (valkey_probe w a).1 in
      ((is_fine p && (is_fine v && is_fine (state_of a.on_queue))) ≡ true) ↔ AllWell w a
probed-ok w a = ground (
  arith,
  postgres_iff w a,
  valkey_iff w a,
  state_of_iff (postgres_probe w a).1,
  state_of_iff a.on_queue,
)

-- Only a POST to "/health" with the password of the admins, which is not empty and at most 256 bytes
-- long, makes the worker ask its services. Its report says ok exactly if every service that is there
-- answers without an error, and a transaction that was begun is rolled back. All else is answered
-- without a call: another path by the page, another method by "healthy", another password by 401.
pub serve-Tells :
    (w : Worker) (path method pass : Bytes) (a : Answers)
    → Tells w path method pass a (serve w path method pass a)
unfolding serve health_report reported
serve-Tells w path method pass a =
    if_split (Tells w path method pass a) (bytes_eq path (codes "/health"))
      (λ _.
        if_split (Tells w path method pass a) (bytes_eq method (codes "POST"))
          (λ _.
            if_split (Tells w path method pass a) (admits_password w pass)
              (λ e. ((admits_password_iff w pass).0 e, probed-ok w a, RolledBack-probed w a))
              (λ e. (λ admin. (let e' = (admits_password_iff w pass).1 admin in cc), refl)))
          (λ e. (λ same. (let e' = (bytes_eq_iff method (codes "POST")).1 same in cc), refl)))
      (λ e. (λ same. (let e' = (bytes_eq_iff path (codes "/health")).1 same in cc), refl))
