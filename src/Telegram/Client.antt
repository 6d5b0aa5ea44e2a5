-- ===== src/Telegram/Client.antt =====
-- TelegramClient of internal/observability/telegram.go: sending with retries, and the cooldown after
-- failures in a row. Times and waits are in milliseconds; what the proxy answers is an argument.
pub mod Cooldown
use contest_sync.Common.{
  ℕ, zero, suc, ◌+◌, ◌*◌, ◌%◌, ◌^◌, Bool, true, false, ◌&&◌, ◌||◌, Option, none, some, List, [],
  ◌∷◌, ◌++◌, Bytes, codes, ltb, leb, if◌then◌else◌, is_empty,
}
use contest_sync.Telegram.Escape.{escape_html}
use contest_sync.Telegram.Split.{split_message}

pub record TelegramClient : Type 0 where
  pub from : Bytes
  -- the bit pattern of an int32
  pub failures : ℕ
  pub cool_down_until : ℕ

-- NewClient
abbrev pub new_client : Bytes → TelegramClient
new_client from = record { from = from; failures = 0; cool_down_until = 0 }

pub is_cooling_down : TelegramClient → ℕ → Bool
is_cooling_down c now = ltb now c.cool_down_until

unfoldable pub record_failure : TelegramClient → ℕ → TelegramClient
record_failure c now =
    let val = (c.failures + 1) % 2 ^ 32 in
    -- `val >= 3` on an int32
    if leb 3 val && ltb val (2 ^ 31)
    then record c { failures = val; cool_down_until = now + 5 * 60 * 1000 }
    else record c { failures = val }

pub record_success : TelegramClient → TelegramClient
record_success c = record c { failures = 0 }

pub data Reply : Type 0 where
  -- http.NewRequestWithContext failed
  unbuilt : Bytes → Reply
  -- the request got no response
  lost : Bytes → Reply
  -- the status, and parameters.retry_after where the body decodes
  answered : ℕ → Option ℕ → Reply

pub record Attempt : Type 0 where
  pub reply : Reply
  -- ctx is done before the wait after this attempt is over
  pub cancelled : Bool
  -- time.Now() once the attempts are over
  pub now : ℕ

pub record Outcome : Type 0 where
  pub client : TelegramClient
  -- `none` is nil
  pub error : Option Bytes
  -- the waits that were begun, the first one first
  pub waits : List ℕ
  pub delivered : Bool

abbrev pub is_2xx : ℕ → Bool
is_2xx status = leb 200 status && ltb status 300

abbrev pub ctx_error : Bytes
ctx_error = codes "context done"

abbrev pub status_error : Bytes
status_error = codes "telegram proxy error"

-- a wait of `ms`, and what comes after it unless ctx ends first
wait : TelegramClient → ℕ → Bool → Outcome → Outcome
wait c ms true rest = record {
  client = c;
  error = some ctx_error;
  waits = ms ∷ [];
  delivered = false;
}
wait c ms false rest = record rest { waits = ms ∷ rest.waits }

abbrev pub stop : TelegramClient → Option Bytes → Bool → Outcome
stop c e d = record { client = c; error = e; waits = []; delivered = d }

-- `errResp.Parameters.RetryAfter > 0` on what decoded
abbrev pub retry_after : Option ℕ → Bool
retry_after none = false
retry_after (some n) = ltb 0 n

abbrev pub seconds : Option ℕ → ℕ
seconds none = 0
seconds (some n) = n

-- What an attempt's reply leads to; `again` makes the attempts that are left, from the next delay
-- and the last error on.
react : TelegramClient → ℕ → Option Bytes → (ℕ → Option Bytes → Outcome) → Bool → Reply → Outcome
unfolding record_success wait
react c delay last again cancelled (unbuilt e) = stop c (some e) false
react c delay last again cancelled (lost e) = wait c delay cancelled (again (delay * 2) (some e))
react c delay last again cancelled (answered status after) =
    if is_2xx status
    then stop (record_success c) none true
    else if retry_after after
    then wait c (seconds after * 1000) cancelled (again delay last)
    else wait c delay cancelled (again (delay * 2) (some status_error))

-- The loop of sendChunk with the attempts that are left, `delay` and `lastErr`.
attempts : ℕ → (ℕ → Attempt) → ℕ → TelegramClient → ℕ → Option Bytes → Outcome
unfolding record_failure react
attempts zero env i c delay last = stop (record_failure c (env i).now) last false
attempts (suc left) env i c delay last =
    react c delay last (attempts left env (suc i) c) (env i).cancelled (env i).reply

unfoldable pub send_chunk : (ℕ → Attempt) → TelegramClient → Outcome
unfolding attempts
send_chunk env c = attempts 3 env 0 c 500 none

-- The chunks one after the other, until one fails. `env k` is what happens to chunk `k`.
send_chunks : (ℕ → ℕ → Attempt) → ℕ → List Bytes → TelegramClient → TelegramClient × Option Bytes
unfolding send_chunk
send_chunks env k [] c = (c, none)
send_chunks env k (chunk ∷ rest) c =
    let o = send_chunk (env k) c in
    let more = send_chunks env (suc k) rest o.client in
    elim o.error [ some e ↦ (o.client, some e) | none ↦ more ]

abbrev pub cooling : Bytes
cooling = codes "telegram client is in cooldown mode due to consecutive failures"

-- the message with the instance's name in front
prefixed : Bytes → Bytes → Bytes
prefixed from m =
    if is_empty from
    then m
    else codes "<b>[Instance: " ++ (escape_html from ++ (codes "]</b>" ++ (b'\n' ∷ m)))

send_all : (ℕ → ℕ → Attempt) → Option (List Bytes) → TelegramClient → TelegramClient × Option Bytes
unfolding send_chunks
send_all env none c = (c, none)
send_all env (some chunks) c = send_chunks env 0 chunks c

-- Send, at the time `now`. `split_message` returns chunks, since the limit is positive.
unfoldable pub send : (ℕ → ℕ → Attempt) → ℕ → Bytes → TelegramClient → TelegramClient × Option Bytes
unfolding send_all is_cooling_down prefixed
send env now message c =
    if is_cooling_down c now
    then (c, some cooling)
    else send_all env (split_message (prefixed c.from message) 4000) c
