-- ===== src/Limiter/Window.antt =====
-- The specification of the limiter: the window of one address, with nothing else in the state.
use contest_sync.Common.{
  ℕ, ◌+◌, ◌≤◌, ◌<◌, ◌≡◌, Bool, Option, none, some, List, [], ◌∷◌, arith, if◌then◌else◌, All, length,
}
use Prim.Native.Nat.{min}
use contest_sync.Limiter.{IpLimit, decide}

-- A request at `now` to a limiter that holds `w` for the address: the answer and the new window.
abbrev pub keep : Option IpLimit → Option IpLimit → Option IpLimit
keep old none = old
keep old (some v) = some v

unfoldable pub request : ℕ → ℕ → Option IpLimit → ℕ → Bool × Option IpLimit
request max duration w now = let (pass, v) = decide max duration now w in (pass, keep w v)

-- The answers to the requests at these times.
unfoldable pub verdicts : ℕ → ℕ → Option IpLimit → List ℕ → List Bool
unfolding request
verdicts max duration w [] = []
verdicts max duration w (t ∷ ts) =
    let (pass, w') = request max duration w t in pass ∷ verdicts max duration w' ts

abbrev pub count_true : List Bool → ℕ
count_true [] = 0
count_true (b ∷ bs) = (if b then 1 else 0) + count_true bs

verdicts_in_window :
    (max duration : ℕ) (lim : IpLimit) (ts : List ℕ)
    → All (λ t. t ≤ lim.reset_time) ts
    → lim.hits ≤ max
    → count_true (verdicts max duration (some lim) ts) + lim.hits ≡ min max (lim.hits + length ts)
unfolding verdicts decide
verdicts_in_window max duration lim [] h le = omega arith
verdicts_in_window max duration lim (t ∷ ts) (ht, hts) le = ground (
  arith,
  verdicts_in_window max duration lim ts hts,
  verdicts_in_window max duration (record lim { hits = lim.hits + 1 }) ts hts,
)

-- A request at `t` that finds no window of its address opens one. Of it and the requests up to the
-- window's end at `t + duration`, the first `max` pass and no more, for a positive `max`.
pub window_limits :
    (max duration t : ℕ) (ts : List ℕ)
    → All (λ u. u ≤ t + duration) ts
    → 0 < max
    → count_true (verdicts max duration none (t ∷ ts)) ≡ min max (1 + length ts)
unfolding verdicts decide
window_limits max duration t ts h pos = omega (
  arith,
  verdicts_in_window max duration (record { hits = 1; reset_time = t + duration }) ts h
      (omega arith),
)
