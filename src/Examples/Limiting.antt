-- ===== src/Examples/Limiting.antt =====
-- The limiter on two addresses.
use contest_sync.Common.{ℕ, ◌≡◌, List, [], ◌∷◌, Bytes, codes, arith}
use contest_sync.Limiter.Window.{verdicts}
use contest_sync.Limiter.Refines.{answers, times_of, limiter_refines}
use contest_sync.Common.{none, some}
use contest_sync.Middleware.{Arrival}

abbrev one : Bytes
one = codes "10.0.0.1"

abbrev requests : List (Bytes × ℕ)
requests = (one, 0) ∷ (codes "10.0.0.2", 3) ∷ (one, 4) ∷ (one, 5) ∷ (one, 20) ∷ []

limiter_refines_example : answers one 2 10 [] requests ≡ verdicts 2 10 none (times_of one requests)
limiter_refines_example = limiter_refines one 2 10 requests (ground arith)

abbrev arrival : Bytes → ℕ → Arrival
arrival ip t = record {
  address = ip;
  time = t;
  pattern_of_route = codes "/api/sync";
  max = 5;
  duration = 1000000000;
  incr = some (λ key. some 3);
}
