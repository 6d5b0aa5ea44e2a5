-- ===== src/Limiter.antt =====
-- localLimiter of internal/api/middleware.go: a fixed window for each client address.
pub mod Window
pub mod Refines
use contest_sync.Common.{
  ℕ, ◌+◌, ◌<◌, ◌≡◌, refl, Bool, true, false, Option, none, some, List, [], ◌∷◌, Bytes, ltb, leb,
  bytes_eq, if◌then◌else◌, length, codes,
}

-- ipLimit; times are nanoseconds
pub record IpLimit : Type 0 where
  pub hits : ℕ
  pub reset_time : ℕ

-- the map from addresses, one entry for each address
abbrev pub Counters : Type 0
Counters = List (Bytes × IpLimit)

pub lookup : Bytes → Counters → Option IpLimit
lookup ip [] = none
lookup ip ((k, v) ∷ m) = if bytes_eq k ip then some v else lookup ip m

pub insert : Bytes → IpLimit → Counters → Counters
insert ip v [] = (ip, v) ∷ []
insert ip v ((k, w) ∷ m) = if bytes_eq k ip then (k, v) ∷ m else (k, w) ∷ insert ip v m

-- `for k, v := range l.counters { if now.After(v.resetTime) { delete(l.counters, k) } }`
pub sweep : ℕ → Counters → Counters
sweep now [] = []
sweep now ((k, v) ∷ m) =
    let rest = sweep now m in if ltb v.reset_time now then rest else (k, v) ∷ rest

abbrev pub max_counters : ℕ
max_counters = 10000

pub clean : ℕ → Counters → Counters
unfolding sweep
clean now m = if ltb max_counters (length m) then sweep now m else m

-- `!ok || now.After(lim.resetTime)`, `lim.hits >= max`, and the two ways to let a request pass
pub decide : ℕ → ℕ → ℕ → Option IpLimit → Bool × Option IpLimit
decide max duration now none = (true, some (record { hits = 1; reset_time = now + duration }))
decide max duration now (some lim) =
    if ltb lim.reset_time now
    then (true, some (record { hits = 1; reset_time = now + duration }))
    else if leb max lim.hits
    then (false, none)
    else (true, some (record lim { hits = lim.hits + 1 }))

store : Bytes → Option IpLimit → Counters → Counters
store ip none m = m
store ip (some v) m = insert ip v m

-- allow(ip, max, duration) at the time `now`
unfoldable pub allow : Bytes → ℕ → ℕ → ℕ → Counters → Bool × Counters
unfolding clean decide store lookup insert
allow ip max duration now l =
    let m = clean now l in
    let (pass, v) = decide max duration now (lookup ip m) in (pass, store ip v m)

three_requests :
    let first = allow (codes "a") 2 10 5 [] in
    let second = allow (codes "a") 2 10 6 first.1 in
    let third = allow (codes "a") 2 10 15 second.1 in
    (first.0 ∷ second.0 ∷ third.0 ∷ (allow (codes "a") 2 10 16 third.1).0 ∷ [])
    ≡ true ∷ true ∷ false ∷ true ∷ []
unfolding allow bytes_eq
three_requests = refl
