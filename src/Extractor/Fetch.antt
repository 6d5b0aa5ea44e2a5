-- ===== src/Extractor/Fetch.antt =====
-- fetchJSON and fetchPage of internal/extractor/contest.go: a request with at most three attempts.
use contest_sync.Common.{
  ℕ, zero, suc, ◌+◌, ◌*◌, ◌≤◌, ◌<◌, ◌≡◌, refl, Bool, ◌&&◌, ◌||◌, Option, none, some, List, [], ◌∷◌,
  ◌++◌, Bytes, codes, itoa, ltb, leb, ◌==◌, if◌then◌else◌, length, take, arith, ◌⊎◌, inl, inr,
  if_split,
}
use contest_sync.World.Models.{Err}

-- What an attempt meets: http.NewRequest fails, httpClient.Do fails, the body cannot be read, or an
-- answer with a status and a body.
pub data Reply : Type 0 where
  bad_request no_answer unreadable : Err → Reply
  answered : ℕ → Bytes → Reply

-- The two results, nil as `none`, the requests that were sent and the waits between them, in
-- milliseconds.
pub record Fetched : Type 0 where
  pub body : Option Bytes
  pub error : Option Err
  pub requests : ℕ
  pub sleeps : List ℕ

-- maxResponseSize
abbrev pub max_response_size : ℕ
max_response_size = 10 * 1024 * 1024

-- the text "HTTP request failed with status %d"
abbrev pub status_error : ℕ → Err
status_error status = record {
  text = codes "HTTP request failed with status " ++ itoa status;
  code = none;
}

abbrev is_retried : ℕ → Bool
is_retried status = (status == 429) || leb 500 status

abbrev is_success : ℕ → Bool
is_success status = leb 200 status && ltb status 300

abbrev failing : ℕ → Option Err → Fetched
failing n e = record { body = none; error = e; requests = n; sleeps = [] }

abbrev slept : ℕ → Fetched → Fetched
slept ms f = record f { requests = f.requests + 1; sleeps = ms ∷ f.sleeps }

-- `lastErr = err; if attempt < 3 { sleep; continue }; return nil, err`
abbrev again : ℕ → Err → ℕ → (Option Err → Fetched) → Fetched
again attempt e ms rest =
    if ltb attempt 3 then slept (attempt * ms) (rest (some e)) else failing 1 (some e)

-- the body of the loop
abbrev pass : ℕ → Reply → (Option Err → Fetched) → Fetched
pass attempt (bad_request e) rest = failing 0 (some e)
pass attempt (no_answer e) rest = again attempt e 500 rest
pass attempt (unreadable e) rest = again attempt e 500 rest
pass attempt (answered status body) rest =
    if is_retried status
    then again attempt (status_error status) 1000 rest
    else if is_success status
    then record {
      body = some (take max_response_size body);
      error = none;
      requests = 1;
      sleeps = [];
    }
    else failing 1 (some (status_error status))

-- the loop with the number of passes that are left, the attempt, and lastErr
unfoldable pub fetch_loop : (ℕ → Reply) → ℕ → ℕ → Option Err → Fetched
fetch_loop reply zero attempt last = failing 0 last
fetch_loop reply (suc n) attempt last =
    pass attempt (reply attempt) (fetch_loop reply n (attempt + 1))

-- fetchJSON and fetchPage, with what their attempts meet
unfoldable pub fetch : (ℕ → Reply) → Fetched
unfolding fetch_loop
fetch reply = fetch_loop reply 3 1 none

-- A fetch that gives the body of an answer with a status of 2xx, cut at the limit, and no error, or
-- one that gives an error and no body.
abbrev pub IsAnswer : (ℕ → Reply) → Fetched → Type 0
IsAnswer reply f =
    ((attempt : ℕ) × (status : ℕ) × (whole : Bytes) × (reply attempt ≡ answered status whole)
      × (200 ≤ status)
      × (status < 300)
      × (f.body ≡ some (take max_response_size whole))
      × (f.error ≡ none))
    ⊎ ((e : Err) × (f.body ≡ none) × (f.error ≡ some e))

-- The waits between the attempts grow by the attempt; there is one less of them than of the requests.
abbrev IsDone : (ℕ → Reply) → ℕ → Fetched → Type 0
IsDone reply n f = IsAnswer reply f × (f.requests ≤ n) × (length f.sleeps ≤ n)

again-IsDone :
    (reply : ℕ → Reply) (n attempt ms : ℕ) (e : Err) (rest : Option Err → Fetched)
    → n + attempt ≡ 3
    → ((last : Option Err) → 1 ≤ n → IsDone reply n (rest last))
    → IsDone reply (suc n) (again attempt e ms rest)
again-IsDone reply n attempt ms e rest s h =
    if_split (IsDone reply (suc n)) (ltb attempt 3)
      (λ lt.
        let (a, r, l) = h (some e) (ground (arith, lt, s)) in
        (a, omega (arith, r), omega (arith, l)))
      (λ ge. (inr (e, refl, refl), omega arith, omega arith))

pass-IsDone :
    (reply : ℕ → Reply) (n attempt : ℕ) (r : Reply) (rest : Option Err → Fetched)
    → reply attempt ≡ r
    → n + attempt ≡ 3
    → ((last : Option Err) → 1 ≤ n → IsDone reply n (rest last))
    → IsDone reply (suc n) (pass attempt r rest)
pass-IsDone reply n attempt (bad_request e) rest p s h =
    (inr (e, refl, refl), omega arith, omega arith)
pass-IsDone reply n attempt (no_answer e) rest p s h = again-IsDone reply n attempt 500 e rest s h
pass-IsDone reply n attempt (unreadable e) rest p s h = again-IsDone reply n attempt 500 e rest s h
pass-IsDone reply n attempt (answered status whole) rest p s h =
    if_split (IsDone reply (suc n)) (is_retried status)
      (λ _. again-IsDone reply n attempt 1000 _ rest s h)
      (λ _.
        if_split (IsDone reply (suc n)) (is_success status)
          (λ ok. (
            inl (attempt, status, whole, p, ground (arith, ok), ground (arith, ok), refl, refl),
            omega arith,
            omega arith,
          ))
          (λ _. (inr (_, refl, refl), omega arith, omega arith)))

loop-IsDone :
    (reply : ℕ → Reply) (n attempt : ℕ) (last : Option Err)
    → n + attempt ≡ 4
    → 1 ≤ n
    → IsDone reply n (fetch_loop reply n attempt last)
unfolding fetch_loop
loop-IsDone reply zero attempt last s h = absurd (omega (arith, h))
loop-IsDone reply (suc n) attempt last s h =
    pass-IsDone reply n attempt (reply attempt) _ refl (omega (arith, s))
      (λ last' h'. loop-IsDone reply n (attempt + 1) last' (omega (arith, s)) h')

-- Whatever the attempts meet, a fetch ends after at most three requests, with the first 10 MB of the
-- body of an answer with a status of 2xx and no error, or with an error and no body.
pub fetch-IsAnswer :
    (reply : ℕ → Reply) → IsAnswer reply (fetch reply) × ((fetch reply).requests ≤ 3)
unfolding fetch
fetch-IsAnswer reply = let (a, r, _) = loop-IsDone reply 3 1 none refl (omega arith) in (a, r)
