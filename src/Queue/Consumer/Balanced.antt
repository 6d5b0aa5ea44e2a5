-- ===== src/Queue/Consumer/Balanced.antt =====
-- The channels that the consumers on the broker open and close.
use contest_sync.Common.{ℕ, ◌≡◌, refl, List, [], ◌∷◌, if_split}
use contest_sync.Queue.State.{Queue, is_down}
use contest_sync.Queue.Backoff.{
  Pass, Ended, connected, cancelled, queue_closed, unfinished, reconnect_with_backoff,
}
use contest_sync.Queue.Consumer.{
  Arrival, delivery, msgs_closed, ctx_done, Opening, no_channel, no_qos, no_consumer, consuming,
  Round, Note, reconnect, open_channel, close_channel, sleep, took, Stop, returned, receiving,
  used_up, Run, receive, or_return, regardless, heal, start_consuming, consume_or_sleep,
  reconnected, pass, run_consumer,
}

module _ {A : Type 0} where
  -- the channels that are open behind the notes, where `n` were open before; a channel is closed only
  -- where one is open, and opened only where none is
  abbrev pub Opened : ℕ → Stop → List (Note A) → Type 0
  Opened n receiving [] = n ≡ 1
  Opened n returned [] = n ≡ 0
  Opened n used_up [] = n ≡ 0
  Opened n s (open_channel ∷ rest) = (n ≡ 0) × Opened 1 s rest
  Opened n s (close_channel ∷ rest) = (n ≡ 1) × Opened 0 s rest
  Opened n s (reconnect ∷ rest) = Opened n s rest
  Opened n s (sleep k ∷ rest) = Opened n s rest
  Opened n s (took m ∷ rest) = Opened n s rest

  -- with `n` open channels
  abbrev Fits : ℕ → Run A → Type 0
  Fits n r = Opened n r.stop r.notes

  module _ (rest : Queue → Run A) (fits : (q : Queue) → Fits 0 (rest q)) where
    receive-Fits : (arrivals : List (Arrival A)) (q : Queue) → Fits 1 (receive arrivals q rest)
    unfolding receive
    receive-Fits [] q = refl
    receive-Fits (delivery m ∷ more) q = receive-Fits more q
    receive-Fits (msgs_closed ∷ more) q = (refl, fits q)
    receive-Fits (ctx_done ∷ more) q = (refl, refl)

    heal-Fits : (passes : List Pass) (q : Queue) → Fits 0 (heal passes q rest)
    unfolding heal regardless
    heal-Fits passes q = after (reconnect_with_backoff passes q).ended _
      where
        after : (e : Ended) (q' : Queue) → Fits 0 (regardless e q' rest)
        after connected q' = fits q'
        after cancelled q' = fits q'
        after queue_closed q' = fits q'
        after unfinished q' = refl

    consume_or_sleep-Fits : (o : Opening A) (q : Queue) → Fits 0 (consume_or_sleep o q rest)
    unfolding consume_or_sleep start_consuming
    consume_or_sleep-Fits o q =
        if_split (Fits 0) (is_down q.amqp_conn) (λ e. fits q) (λ e. opened o)
      where
        opened : (o : Opening A) → Fits 0 (start_consuming o q rest)
        opened (no_channel passes) = heal-Fits passes q
        opened (no_qos passes) = (refl, (refl, heal-Fits passes q))
        opened (no_consumer passes) = (refl, (refl, heal-Fits passes q))
        opened (consuming arrivals) = (refl, receive-Fits arrivals q)

  module _ (rest : Queue → Run A) (fits : (q : Queue) → Fits 0 (rest q)) where
    or_return-Fits :
        (e : Ended) (q : Queue) (o : Opening A)
        → Fits 0 (or_return e q (λ q'. consume_or_sleep o q' rest))
    unfolding or_return
    or_return-Fits connected q o = consume_or_sleep-Fits rest fits o q
    or_return-Fits cancelled q o = refl
    or_return-Fits queue_closed q o = refl
    or_return-Fits unfinished q o = refl

    pass-Fits : (r : Round A) (q : Queue) → Fits 0 (pass r q rest)
    unfolding pass reconnected
    pass-Fits r q =
        if_split (Fits 0) q.is_closed (λ e. refl)
          λ e.
            if_split (Fits 0) (is_down q.amqp_conn)
              (λ e'. or_return-Fits (reconnect_with_backoff r.passes q).ended _ r.opening)
              (λ e'. consume_or_sleep-Fits rest fits r.opening q)

  -- Whatever the broker, the reconnections and the other users of the queue do, a consumer on the
  -- broker has at most one channel open, closes only that one, and has none when it returns; it waits
  -- for deliveries only with a channel open.
  pub run_consumer-Opened :
      (rounds : List (Round A)) (q : Queue)
      → let r = run_consumer rounds q in Opened 0 r.stop r.notes
  unfolding run_consumer
  run_consumer-Opened [] q = refl
  run_consumer-Opened (r ∷ rounds) q =
      if_split (Fits 0) r.is_done (λ e. refl)
        (λ e. pass-Fits (run_consumer rounds) (run_consumer-Opened rounds) r (r.others q))
