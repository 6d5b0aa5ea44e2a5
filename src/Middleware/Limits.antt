-- ===== src/Middleware/Limits.antt =====
-- How many requests of an address RateLimitMiddleware lets through, over any sequence of requests.
use contest_sync.Common.{
  ℕ, ◌+◌, Bool, true, false, ◌&&◌, List, [], ◌∷◌, Bytes, bytes_eq, if◌then◌else◌,
}
use contest_sync.Middleware.{Limiters, Verdict, served, too_many, Arrival, rate_limit}

abbrev pub is_served : Verdict → Bool
is_served served = true
is_served (too_many n) = false

-- How many of the requests of an address are served, among the requests of all.
unfoldable pub serves : Bytes → Limiters → List Arrival → ℕ
serves ip l [] = 0
serves ip l (a ∷ r) =
    let (v, l') = rate_limit a l in
    (if bytes_eq a.address ip && is_served v then 1 else 0) + serves ip l' r

-- the addresses and the times
abbrev pub stamps : List Arrival → List (Bytes × ℕ)
stamps [] = []
stamps (a ∷ r) = (a.address, a.time) ∷ stamps r

abbrev pub fresh : Limiters
fresh = record { early = []; global = [] }
