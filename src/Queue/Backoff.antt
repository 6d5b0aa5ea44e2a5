-- ===== src/Queue/Backoff.antt =====
-- reconnectWithBackoff of internal/queue/amqp.go: the loop that connects again, with its waits.
use contest_sync.Common.{
  ℕ, zero, suc, ◌+◌, ◌*◌, ◌^◌, ◌≡◌, refl, Bool, true, false, ◌&&◌, Option, none, some, List, [],
  ◌∷◌, ◌++◌, ltb, if◌then◌else◌, get_elem?, min, arith, ◌⊎◌, inl, inr, All, if_both, if_split, ◌≢◌,
  subst, ◌∙◌, ap,
}
use contest_sync.Queue.State.{
  Queue, opened, SetUp, set_up, ConnectError, connect_amqp, is_up, establish, is_down,
}

-- One pass of the loop: whether ctx is done at its start, whether Close is called while it connects,
-- how the set-up ends, and whether ctx is done while it waits.
pub record Pass : Type 0 where
  pub done_at_start : Bool
  pub closing : Bool
  pub set_up_ends : SetUp
  pub done_in_wait : Bool

pub data Ended : Type 0 where
  connected cancelled queue_closed : Ended
  -- the passes that are given are used up
  unfinished : Ended

-- How the loop ends, the queue, and the backoffs in seconds of the waits it has begun; the jitter on
-- a backoff is not modelled.
pub record Reconnected : Type 0 where
  pub ended : Ended
  pub queue : Queue
  pub waits : List ℕ

abbrev pub max_backoff : ℕ
max_backoff = 30

-- `backoff *= 2; if backoff > 30*time.Second { … }`
abbrev pub next_backoff : ℕ → ℕ
next_backoff backoff = if ltb max_backoff (backoff * 2) then max_backoff else backoff * 2

abbrev waited : ℕ → Reconnected → Reconnected
waited backoff r = record r { waits = backoff ∷ r.waits }

abbrev ends : Ended → Queue → Reconnected
ends e q = record { ended = e; queue = q; waits = [] }

-- behind a call of connectAMQP that gives the error and the queue, with the rest of the loop
abbrev tried_again : Pass → ℕ → Option ConnectError → Queue → (Queue → Reconnected) → Reconnected
tried_again p backoff none q rest = ends connected q
tried_again p backoff (some e) q rest =
    if p.done_in_wait then waited backoff (ends cancelled q) else waited backoff (rest q)

unfoldable pub reconnect_loop : List Pass → ℕ → Queue → Reconnected
reconnect_loop [] backoff q = ends unfinished q
reconnect_loop (p ∷ ps) backoff q =
    if p.done_at_start
    then ends cancelled q
    else if q.is_closed
    then ends queue_closed q
    else if is_up q.amqp_conn && is_up q.amqp_channel
    then ends connected q
    else let c = connect_amqp q p.closing p.set_up_ends in
      tried_again p backoff c.error c.queue (reconnect_loop ps (next_backoff backoff))

-- reconnectWithBackoff
unfoldable pub reconnect_with_backoff : List Pass → Queue → Reconnected
unfolding reconnect_loop
reconnect_with_backoff ps q = reconnect_loop ps 1 q

-- An error from connectAMQP while nothing closes the queue leaves it as it was, and a set-up that
-- succeeds then connects.
connect_amqp-open :
    (q : Queue) (closing : Bool) (s : SetUp)
    → closing ≡ false
    → q.is_closed ≡ false
    → let c = connect_amqp q closing s in
      (c.error ≡ none → (c.queue.amqp_conn ≡ opened) × (c.queue.amqp_channel ≡ opened))
      × (c.queue.is_closed ≡ false)
      × (s ≡ set_up → c.error ≡ none)
unfolding connect_amqp establish is_down
connect_amqp-open q closing s h0 h = ground arith

-- Each backoff follows from the one before.
abbrev Doubling : ℕ → List ℕ → Type 0
Doubling b [] = Unit
Doubling b (w ∷ ws) = (w ≡ b) × Doubling (next_backoff b) ws

tried_again-Doubling :
    (p : Pass) (b : ℕ) (e : Option ConnectError) (q : Queue) (rest : Queue → Reconnected)
    → ((q' : Queue) → Doubling (next_backoff b) (rest q').waits)
    → Doubling b (tried_again p b e q rest).waits
tried_again-Doubling p b none q rest h = tt
tried_again-Doubling p b (some e) q rest h =
    if_both (λ (r : Reconnected). Doubling b r.waits) p.done_in_wait (refl, tt) (refl, h q)

loop-Doubling : (ps : List Pass) (b : ℕ) (q : Queue) → Doubling b (reconnect_loop ps b q).waits
unfolding reconnect_loop
loop-Doubling [] b q = tt
loop-Doubling (p ∷ ps) b q =
    let P = λ (r : Reconnected). Doubling b r.waits in
    if_both P p.done_at_start tt (
      if_both P q.is_closed tt (
        if_both P (is_up q.amqp_conn && is_up q.amqp_channel) tt
          (tried_again-Doubling p b _ _ _ (loop-Doubling ps (next_backoff b)))))

next_backoff_lem : (k : ℕ) → next_backoff (min (2 ^ k) 30) ≡ min (2 ^ suc k) 30
next_backoff_lem k = ground arith

Doubling-get_elem? :
    (ws : List ℕ) (k i w : ℕ)
    → Doubling (min (2 ^ k) 30) ws
    → get_elem? ws i ≡ some w
    → w ≡ min (2 ^ (k + i)) 30
Doubling-get_elem? [] k i w d h = ground arith
Doubling-get_elem? (v ∷ ws) k zero w (p, d) h = grind arith
Doubling-get_elem? (v ∷ ws) k (suc i) w (p, d) h =
    Doubling-get_elem? ws (suc k) i w (subst (λ b. Doubling b ws) (next_backoff_lem k) d) h
    ∙ ap (λ n. min (2 ^ n) 30) (omega arith)

-- The backoff before the wait number i, counted from zero, is 2 ^ i seconds, or 30 if that is more,
-- whatever the passes of the loop do.
pub reconnect_with_backoff_waits :
    (ps : List Pass) (q : Queue) (i w : ℕ)
    → get_elem? (reconnect_with_backoff ps q).waits i ≡ some w
    → w ≡ min (2 ^ i) 30
unfolding reconnect_with_backoff
reconnect_with_backoff_waits ps q i w h =
    Doubling-get_elem? _ 0 i w (loop-Doubling ps 1 q) h ∙ ap (λ n. min (2 ^ n) 30) (omega arith)

-- nothing is cancelled or closed during the pass
abbrev pub IsQuiet : Pass → Type 0
IsQuiet p = (p.done_at_start ≡ false) × (p.closing ≡ false) × (p.done_in_wait ≡ false)

abbrev pub IsReady : Reconnected → Type 0
IsReady r = (r.ended ≡ connected) × (r.queue.amqp_conn ≡ opened) × (r.queue.amqp_channel ≡ opened)

is_up-opened :
    (q : Queue)
    → (is_up q.amqp_conn && is_up q.amqp_channel) ≡ true
    → (q.amqp_conn ≡ opened) × (q.amqp_channel ≡ opened)
unfolding is_down
is_up-opened q h = ground arith

tried_again-IsReady :
    (p : Pass) (b : ℕ) (e : Option ConnectError) (q : Queue) (rest : Queue → Reconnected)
    → p.done_in_wait ≡ false
    → (e ≡ none → (q.amqp_conn ≡ opened) × (q.amqp_channel ≡ opened))
    → (e ≢ none → IsReady (rest q))
    → IsReady (tried_again p b e q rest)
tried_again-IsReady p b none q rest quiet here later = let (a, b') = here refl in (refl, a, b')
tried_again-IsReady p b (some e) q rest quiet here later =
    if_split IsReady p.done_in_wait (λ h. ground arith) (λ _. later (λ h. ground arith))

step-IsReady :
    (p : Pass) (ps : List Pass) (b : ℕ) (q : Queue)
    → IsQuiet p
    → q.is_closed ≡ false
    → (p.set_up_ends ≡ set_up)
      ⊎ ((q' : Queue) → q'.is_closed ≡ false → IsReady (reconnect_loop ps (next_backoff b) q'))
    → IsReady (reconnect_loop (p ∷ ps) b q)
unfolding reconnect_loop
step-IsReady p ps b q (h0, h1, h2) not_closed following =
    let (up, still_open, sound) = connect_amqp-open q p.closing p.set_up_ends h1 not_closed in
    if_split IsReady p.done_at_start (λ h. ground arith)
      (λ _.
        if_split IsReady q.is_closed (λ h. ground arith)
          (λ _.
            if_split IsReady (is_up q.amqp_conn && is_up q.amqp_channel)
              (λ h. let (a, b') = is_up-opened q h in (refl, a, b'))
              (λ _. tried_again-IsReady p b _ _ _ h2 up (λ fails. elim following [
                | inl s ↦ absurd (fails (sound s))
                | inr go ↦ go _ still_open
              ]))))

loop-IsReady :
    (ps : List Pass) (g : Pass) (b : ℕ) (q : Queue)
    → All IsQuiet ps
    → IsQuiet g
    → g.set_up_ends ≡ set_up
    → q.is_closed ≡ false
    → IsReady (reconnect_loop (ps ++ g ∷ []) b q)
loop-IsReady [] g b q qs qg s h = step-IsReady g [] b q qg h (inl s)
loop-IsReady (p ∷ ps) g b q (qp, qs) qg s h =
    step-IsReady p (ps ++ g ∷ []) b q qp h
      (inr (λ q' h'. loop-IsReady ps g (next_backoff b) q' qs qg s h'))

-- If nothing cancels the loop or closes the queue, then the first pass whose set-up succeeds, or an
-- earlier one that finds the connection up, ends it with an open connection and channel, however many
-- passes fail before.
pub reconnect_with_backoff-IsReady :
    (ps : List Pass) (g : Pass) (q : Queue)
    → All IsQuiet ps
    → IsQuiet g
    → g.set_up_ends ≡ set_up
    → q.is_closed ≡ false
    → IsReady (reconnect_with_backoff (ps ++ g ∷ []) q)
unfolding reconnect_with_backoff
reconnect_with_backoff-IsReady ps g q qs qg s h = loop-IsReady ps g 1 q qs qg s h
