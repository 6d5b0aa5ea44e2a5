-- ===== src/Queue/Consumer/Resumed.antt =====
-- The consumers on the broker behind a lost connection.
use contest_sync.Common.{
  ◌≡◌, refl, sym, ap, subst, ◌∙◌, false, Option, List, [], ◌∷◌, ◌++◌, if_split, All,
}
use contest_sync.Queue.State.{Queue, is_down, set_up}
use contest_sync.Queue.Publish.{Task}
use contest_sync.Queue.Backoff.{
  Pass, Ended, reconnect_with_backoff, IsQuiet, IsReady, reconnect_with_backoff-IsReady,
}
use contest_sync.Queue.Consumer.{
  Arrival, delivery, msgs_closed, ctx_done, Opening, consuming, Round, Note, reconnect,
  open_channel, close_channel, sleep, took, Run, receive, or_return, start_consuming,
  consume_or_sleep, reconnected, pass, run_consumer,
}

module _ {A : Type 0} where
  -- the deliveries that are taken, and those that arrive before the consumer ends or starts again
  abbrev pub taken : List (Note A) → List (Option (Task A))
  taken [] = []
  taken (took m ∷ rest) = m ∷ taken rest
  taken (reconnect ∷ rest) = taken rest
  taken (open_channel ∷ rest) = taken rest
  taken (close_channel ∷ rest) = taken rest
  taken (sleep k ∷ rest) = taken rest

  abbrev pub deliveries : List (Arrival A) → List (Option (Task A))
  deliveries [] = []
  deliveries (delivery m ∷ more) = m ∷ deliveries more
  deliveries (msgs_closed ∷ more) = []
  deliveries (ctx_done ∷ more) = []

  abbrev pub Takes : List (Arrival A) → Run A → Type 0
  Takes arrivals r =
      (later : List (Option (Task A))) × (taken r.notes ≡ deliveries arrivals ++ later)

  receive-Takes :
      (arrivals : List (Arrival A)) (q : Queue) (rest : Queue → Run A)
      → Takes arrivals (receive arrivals q rest)
  unfolding receive
  receive-Takes [] q rest = ([], refl)
  receive-Takes (delivery m ∷ more) q rest =
      let (later, e) = receive-Takes more q rest in (later, ap (λ l. m ∷ l) e)
  receive-Takes (msgs_closed ∷ more) q rest = (taken (rest q).notes, refl)
  receive-Takes (ctx_done ∷ more) q rest = ([], refl)

  consuming-Takes :
      (o : Opening A) (arrivals : List (Arrival A)) (q : Queue) (rest : Queue → Run A)
      → o ≡ consuming arrivals
      → is_down q.amqp_conn ≡ false
      → Takes arrivals (consume_or_sleep o q rest)
  unfolding consume_or_sleep start_consuming
  consuming-Takes o arrivals q rest e up =
      if_split (Takes arrivals) (is_down q.amqp_conn) (λ down. cc)
        λ _.
          subst (λ (o' : Opening A). Takes arrivals (start_consuming o' q rest)) (sym e)
            (receive-Takes arrivals q rest)

  reconnected-Takes :
      (r : Round A) (arrivals : List (Arrival A)) (q : Queue) (rest : Queue → Run A)
      → r.opening ≡ consuming arrivals
      → IsReady (reconnect_with_backoff r.passes q)
      → Takes arrivals (reconnected r q rest)
  unfolding reconnected
  reconnected-Takes r arrivals q rest e (ends, conn, channel) =
      let c = reconnect_with_backoff r.passes q in
      let up : is_down c.queue.amqp_conn ≡ false = ap is_down conn ∙ unfold is_down in refl in
      subst
        (λ (s : Ended).
          Takes arrivals (or_return s c.queue (λ q'. consume_or_sleep r.opening q' rest)))
        (sym ends) (unfold or_return in consuming-Takes r.opening arrivals c.queue rest e up)

  -- A consumer on the broker that finds its connection lost, in a pass without a cancellation or a
  -- Close, works again once an attempt to connect succeeds, however many fail before: if its channel
  -- and its consumer then open, it takes each delivery that arrives until the channel closes, once and
  -- in order, before all later ones. The same holds where the connection is up.
  pub run_consumer-Takes :
      (r : Round A) (rounds : List (Round A)) (q : Queue) (ps : List Pass) (g : Pass)
      (arrivals : List (Arrival A))
      → r.is_done ≡ false
      → (r.others q).is_closed ≡ false
      → r.passes ≡ ps ++ g ∷ []
      → All IsQuiet ps
      → IsQuiet g
      → g.set_up_ends ≡ set_up
      → r.opening ≡ consuming arrivals
      → Takes arrivals (run_consumer (r ∷ rounds) q)
  unfolding run_consumer pass
  run_consumer-Takes r rounds q ps g arrivals going still_open e qs qg s opening =
      if_split (Takes arrivals) r.is_done (λ h. cc)
        λ _.
          if_split (Takes arrivals) (r.others q).is_closed (λ h. cc)
            λ _.
              if_split (Takes arrivals) (is_down (r.others q).amqp_conn)
                (λ _. reconnected-Takes r arrivals (r.others q) (run_consumer rounds) opening (
                  subst (λ l. IsReady (reconnect_with_backoff l (r.others q))) (sym e)
                    (reconnect_with_backoff-IsReady ps g (r.others q) qs qg s still_open)))
                (λ up.
                  consuming-Takes r.opening arrivals (r.others q) (run_consumer rounds) opening up)
