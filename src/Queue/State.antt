-- ===== src/Queue/State.antt =====
-- The state of Queue in internal/queue/amqp.go: New, connectAMQP, Health and Close, with the
-- connections and channels that they open and close.
use contest_sync.Common.{
  ℕ, Bool, true, false, ◌&&◌, ◌||◌, not, Option, none, some, List, [], ◌∷◌, ◌++◌, Bytes, is_empty,
  if◌then◌else◌,
}

-- A pointer to a connection or a channel: nil, or an object that is open or closed.
pub data Link : Type 0 where
  absent opened closed : Link

-- `l == nil || l.IsClosed()`
unfoldable pub is_down : Link → Bool
is_down opened = false
is_down _ = true

abbrev pub is_up : Link → Bool
is_up l = not (is_down l)

pub record Queue : Type 0 where
  pub amqp_conn : Link
  pub amqp_channel : Link
  pub use_in_memory : Bool
  pub amqp_configured : Bool
  pub is_closed : Bool
  pub extraction_ch : List Bytes
  pub sync_ch : List ℕ

-- What connectAMQP does to the broker.
pub data Action : Type 0 where
  dial open_channel declare close_channel close_conn : Action

-- How far the set-up of a new connection gets.
pub data SetUp : Type 0 where
  no_conn no_channel no_extraction no_sync set_up : SetUp

pub data ConnectError : Type 0 where
  queue_closed dial_failed channel_failed extraction_failed sync_failed closed_during : ConnectError

-- An outcome of connectAMQP: the error, the actions in their order, and the queue.
pub record Connected : Type 0 where
  pub error : Option ConnectError
  pub actions : List Action
  pub queue : Queue

-- `if oldCh != nil { oldCh.Close() }` and the same for the connection
abbrev pub close_old : Link → Action → List Action
close_old absent a = []
close_old _ a = a ∷ []

abbrev fail : Queue → ConnectError → List Action → Connected
fail q e acts = record { error = some e; actions = acts; queue = q }

abbrev pub swap : Queue → Connected
swap q = record {
  error = none;
  actions =
      dial
      ∷ open_channel
      ∷ declare
      ∷ declare
      ∷ (close_old q.amqp_channel close_channel ++ close_old q.amqp_conn close_conn);
  queue = record q { amqp_conn = opened; amqp_channel = opened; use_in_memory = false };
}

abbrev pub shut : Queue → Queue
shut q = record q { is_closed = true; amqp_channel = absent; amqp_conn = absent }

-- What Close leaves of the queue if it is called while a connection is set up.
abbrev pub meanwhile : Bool → Queue → Queue
meanwhile true q = shut q
meanwhile false q = q

-- The set-up, and the second look at isClosed behind it, with the queue as it is then.
unfoldable pub establish : Queue → SetUp → Connected
establish q no_conn = fail q dial_failed []
establish q no_channel = fail q channel_failed (dial ∷ close_conn ∷ [])
establish q no_extraction =
    fail q extraction_failed (dial ∷ open_channel ∷ close_channel ∷ close_conn ∷ [])
establish q no_sync =
    fail q sync_failed (dial ∷ open_channel ∷ declare ∷ close_channel ∷ close_conn ∷ [])
establish q set_up =
    if q.is_closed
    then fail q closed_during
        (dial ∷ open_channel ∷ declare ∷ declare ∷ close_channel ∷ close_conn ∷ [])
    else swap q

-- connectAMQP. The second argument tells whether Close is called while the connection is set up.
unfoldable pub connect_amqp : Queue → Bool → SetUp → Connected
unfolding establish is_down
connect_amqp q closing s =
    if q.is_closed
    then fail q queue_closed []
    else if is_up q.amqp_conn && is_up q.amqp_channel
    then record { error = none; actions = []; queue = q }
    else establish (meanwhile closing q) s

abbrev pub empty_queue : Bool → Bool → Queue
empty_queue in_memory configured = record {
  amqp_conn = absent;
  amqp_channel = absent;
  use_in_memory = in_memory;
  amqp_configured = configured;
  is_closed = false;
  extraction_ch = [];
  sync_ch = [];
}

unfoldable pub or_in_memory : Connected → Queue
or_in_memory c = elim c.error [ none ↦ c.queue | some e ↦ record c.queue { use_in_memory = true } ]

-- New
unfoldable pub new_queue : Bytes → SetUp → Queue
unfolding connect_amqp or_in_memory
new_queue amqp_url s =
    if is_empty amqp_url
    then empty_queue true false
    else or_in_memory (connect_amqp (empty_queue false true) false s)

-- Health: whether it returns nil
unfoldable pub health : Queue → Bool
unfolding is_down
health q =
    if not q.amqp_configured
    then true
    else not (q.use_in_memory || is_down q.amqp_conn || is_down q.amqp_channel)

-- Close
unfoldable pub close_queue : Queue → Queue × List Action
close_queue q = (shut q, close_old q.amqp_channel close_channel ++ close_old q.amqp_conn close_conn)
