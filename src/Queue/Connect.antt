-- ===== src/Queue/Connect.antt =====
-- What connectAMQP, New and Health of internal/queue/amqp.go leave behind: no connection leaks, and
-- Health tells the truth.
use contest_sync.Common.{
  ℕ, ◌+◌, ◌≡◌, ◌≢◌, ◌||◌, Bool, true, false, none, List, [], ◌∷◌, Bytes, is_empty, arith, ◌⊎◌,
}
use contest_sync.Queue.State.{
  absent, opened, is_down, Queue, Action, dial, close_conn, SetUp, connect_amqp, or_in_memory,
  new_queue, health, establish, set_up,
}

-- The connections that a list of actions opens, and those that it closes.
abbrev pub dials : List Action → ℕ
dials [] = 0
dials (dial ∷ rest) = 1 + dials rest
dials (_ ∷ rest) = dials rest

abbrev pub hangs_up : List Action → ℕ
hangs_up [] = 0
hangs_up (close_conn ∷ rest) = 1 + hangs_up rest
hangs_up (_ ∷ rest) = hangs_up rest

-- the connections that a queue holds
abbrev pub held : Queue → ℕ
held q = elim q.amqp_conn [ absent ↦ 0 | _ ↦ 1 ]

-- However the set-up ends, and whether Close runs meanwhile or not: if connectAMQP returns an error it
-- has closed as many connections as it has opened, and the queue either holds the connection and the
-- channel that it held before or is closed. If it returns nil, the connection and the channel of the
-- queue are open, and the connections opened are those closed and the change in what the queue holds.
pub connect_amqp_leaves :
    (q : Queue) (closing : Bool) (s : SetUp)
    → let c = connect_amqp q closing s in
      ((c.error ≢ none)
        × (dials c.actions ≡ hangs_up c.actions)
        × (((c.queue.amqp_conn ≡ q.amqp_conn) × (c.queue.amqp_channel ≡ q.amqp_channel))
            ⊎ (c.queue.is_closed ≡ true)))
      ⊎ ((c.error ≡ none)
          × (c.queue.amqp_conn ≡ opened)
          × (c.queue.amqp_channel ≡ opened)
          × (held q + dials c.actions ≡ held c.queue + hangs_up c.actions))
unfolding connect_amqp establish is_down
connect_amqp_leaves q closing s = ground arith

abbrev pub succeeds : SetUp → Bool
succeeds set_up = true
succeeds _ = false

-- Behind New, Health returns nil exactly if no broker is configured or the set-up of the connection
-- to it has succeeded.
pub health-new_queue :
    (url : Bytes) (s : SetUp) → health (new_queue url s) ≡ (is_empty url || succeeds s)
unfolding health new_queue connect_amqp establish is_down or_in_memory
health-new_queue url s = ground arith
