-- ===== src/Telegram/Client/Cooldown.antt =====
-- What sendChunk returns and leaves behind, and when Send refuses.
use contest_sync.Common.{
  ℕ, zero, suc, ◌+◌, ◌*◌, ◌^◌, ◌≤◌, ◌<◌, ◌≡◌, refl, ◌⊎◌, inl, inr, Bool, true, false, Option, none,
  some, arith, Bytes, Bool-cases, ◌∙◌,
}
use contest_sync.Telegram.Client.{
  TelegramClient, wait, react, seconds, status_error, Reply, unbuilt, lost, answered, Attempt,
  Outcome, attempts, send_chunk, record_failure, record_success, retry_after, is_2xx, ctx_error,
  send, cooling,
}

-- Delivered with the counter reset and no error, given up early with an error and the client left
-- alone, or given up after the last attempt, which counts as a failure.
abbrev pub Accounts : TelegramClient → Outcome → Type 0
Accounts c o =
    ((o.delivered ≡ true) × (o.error ≡ none) × (o.client ≡ record_success c))
    ⊎ ((o.delivered ≡ false) × ((e : Bytes) × (o.error ≡ some e)) × (o.client ≡ c))
    ⊎ ((o.delivered ≡ false) × ((now : ℕ) × (o.client ≡ record_failure c now)))

wait-Accounts :
    (c : TelegramClient) (ms : ℕ) (cancelled : Bool) (o : Outcome)
    → Accounts c o
    → Accounts c (wait c ms cancelled o)
unfolding wait
wait-Accounts c ms true o h = inr (inl (refl, (ctx_error, refl), refl))
wait-Accounts c ms false o h = h

module _ (c : TelegramClient) (delay : ℕ) (last : Option Bytes) (again : ℕ → Option Bytes → Outcome)
    (rest : (d : ℕ) (l : Option Bytes) → Accounts c (again d l)) where
  react-Accounts :
      (cancelled : Bool) (r : Reply) → Accounts c (react c delay last again cancelled r)
  unfolding react
  react-Accounts b (unbuilt e) = inr (inl (refl, (e, refl), refl))
  react-Accounts b (lost e) = wait-Accounts c delay b _ (rest (delay * 2) (some e))
  react-Accounts b (answered status after) = elim (Bool-cases (is_2xx status)) [
    | inl good ↦ (rw good (inl (refl, refl, refl)))
    | inr bad ↦ elim (Bool-cases (retry_after after)) [
      | inl limited ↦
          (rw (bad, limited) (wait-Accounts c (seconds after * 1000) b _ (rest delay last)))
      | inr other ↦
          (rw (bad, other) (wait-Accounts c delay b _ (rest (delay * 2) (some status_error))))
    ]
  ]

attempts-Accounts :
    (left : ℕ) (env : ℕ → Attempt) (i : ℕ) (c : TelegramClient) (delay : ℕ) (last : Option Bytes)
    → Accounts c (attempts left env i c delay last)
unfolding attempts
attempts-Accounts zero env i c delay last = inr (inr (refl, ((env i).now, refl)))
attempts-Accounts (suc left) env i c delay last =
    react-Accounts c delay last (attempts left env (suc i) c) (attempts-Accounts left env (suc i) c)
      (env i).cancelled (env i).reply

-- Whatever the proxy answers, sendChunk either delivers the chunk, returns nil and sets the counter
-- to 0, or gives up before the last attempt with an error and the client unchanged, or gives up
-- after it, undelivered, and records a failure.
pub send_chunk-Accounts : (env : ℕ → Attempt) (c : TelegramClient) → Accounts c (send_chunk env c)
unfolding send_chunk
send_chunk-Accounts env c = attempts-Accounts 3 env 0 c 500 none

-- A reply that asks to wait, from a proxy that refuses.
abbrev pub IsRateLimited : Attempt → Type 0
IsRateLimited a =
    (status : ℕ) × (seconds : ℕ) × (a.reply ≡ answered status (some seconds))
    × (is_2xx status ≡ false)
    × (0 < seconds)
    × (a.cancelled ≡ false)

react_limited :
    (c : TelegramClient) (delay : ℕ) (last : Option Bytes) (again : ℕ → Option Bytes → Outcome)
    (a : Attempt)
    → IsRateLimited a
    → ((react c delay last again a.cancelled a.reply).error ≡ (again delay last).error)
      × ((react c delay last again a.cancelled a.reply).delivered ≡ (again delay last).delivered)
      × ((react c delay last again a.cancelled a.reply).client ≡ (again delay last).client)
unfolding react wait
react_limited c delay last again a (status, n, e, bad, pos, live) = ground arith

-- If each of the three attempts is rate limited, sendChunk returns nil though nothing was delivered,
-- and yet counts a failure.
pub rate_limited_lost :
    (env : ℕ → Attempt) (c : TelegramClient)
    → IsRateLimited (env 0)
    → IsRateLimited (env 1)
    → IsRateLimited (env 2)
    → ((send_chunk env c).error ≡ none)
      × ((send_chunk env c).delivered ≡ false)
      × ((send_chunk env c).client ≡ record_failure c (env 3).now)
unfolding send_chunk attempts
rate_limited_lost env c h0 h1 h2 =
    let r2 = react_limited c 500 none (attempts 0 env 3 c) (env 2) h2 in
    let r1 = react_limited c 500 none (attempts 1 env 2 c) (env 1) h1 in
    let r0 = react_limited c 500 none (attempts 2 env 1 c) (env 0) h0 in
    (r0.0 ∙ r1.0 ∙ r2.0, r0.1 ∙ r1.1 ∙ r2.1, r0.2 ∙ r1.2 ∙ r2.2)

-- From two failures in a row on, one more at the time `now` makes Send refuse every message for
-- five minutes without a request.
pub cooldown_refuses :
    (env : ℕ → ℕ → Attempt) (c : TelegramClient) (now t : ℕ) (message : Bytes)
    → 2 ≤ c.failures
    → c.failures + 1 < 2 ^ 31
    → t < now + 300000
    → send env t message (record_failure c now) ≡ (record_failure c now, some cooling)
unfolding send record_failure
cooldown_refuses env c now t message two fits soon = ground arith
