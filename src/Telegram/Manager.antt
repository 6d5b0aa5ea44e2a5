-- ===== src/Telegram/Manager.antt =====
-- Manager of internal/observability/telegram.go: the goroutine of Start as a state machine, between
-- the senders into its channel and Drain. The channel is never closed.
pub mod Kept
pub mod Drained
use contest_sync.Common.{
  ℕ, ◌<◌, ◌≡◌, refl, Bool, true, false, Option, none, some, List, [], ◌∷◌, ◌++◌, Bytes, length,
  drop,
}
use contest_sync.World.Models.{Err}
use contest_sync.Telegram.Client.{TelegramClient, Attempt, send}
use contest_sync.Telegram.Notices.{LogRecord, handle, trigger_system_event, notice_capacity}

-- Where the goroutine is: in the first wait of 30 seconds, in the select of the loop, in the wait of 60
-- seconds behind a failed Send, in the loop behind ctx.Done(), or behind its end.
pub data Phase : Type 0 where
  starting serving waiting draining stopped : Phase

-- The manager, then the messages that were put into the channel and those given to Send, oldest first.
pub record Manager : Type 0 where
  pub client : TelegramClient
  pub queue : List Bytes
  pub is_cancelled : Bool
  pub phase : Phase
  pub accepted : List Bytes
  pub attempted : List Bytes

-- NewManager and Start
abbrev pub new_manager : TelegramClient → Manager
new_manager client = record {
  client = client;
  queue = [];
  is_cancelled = false;
  phase = starting;
  accepted = [];
  attempted = [];
}

-- the channel with what a sender has put behind it
abbrev pub took_in : Manager → List Bytes → Manager
took_in m channel = record m {
  queue = channel;
  accepted = m.accepted ++ drop (length m.queue) channel;
}

abbrev pub after : Option Bytes → Phase
after none = serving
after (some e) = waiting

abbrev pub tried : Manager → TelegramClient → List Bytes → Bytes → Phase → Manager
tried m client rest text phase = record m {
  client = client;
  queue = rest;
  phase = phase;
  attempted = m.attempted ++ text ∷ [];
}

-- What the answers and the time are while Send runs
abbrev pub Conditions : Type 0
Conditions = (ℕ → ℕ → Attempt) × ℕ

module _ (to_lower : Bytes → Bytes) where
  -- One step of the goroutine, of a sender, or of Drain, whose cancel only sets ctx.
  pub data Step : Manager → Manager → Type 0 where
    logged :
        {m : Manager} (next : Option Err) (r : LogRecord) (channel : List Bytes)
        → (handle to_lower next r (some m.queue)).1 ≡ some channel
        → Step m (took_in m channel)
    triggered :
        {m : Manager} (event details : Bytes) (has_room : Bool)
        → (has_room ≡ true → length m.queue < notice_capacity)
        → Step m (took_in m (trigger_system_event event details has_room m.queue))
    cancelled : {m : Manager} → Step m (record m { is_cancelled = true })
    began : {m : Manager} → m.phase ≡ starting → Step m (record m { phase = serving })
    sent :
        {m : Manager} (c : Conditions) (text : Bytes) (rest : List Bytes)
        → m.phase ≡ serving
        → m.queue ≡ text ∷ rest
        → Step m (
            tried m (send c.0 c.1 text m.client).0 rest text (after (send c.0 c.1 text m.client).1))
    resumed : {m : Manager} → m.phase ≡ waiting → Step m (record m { phase = serving })
    left_start :
        {m : Manager}
        → m.phase ≡ starting
        → m.is_cancelled ≡ true
        → Step m (record m { phase = stopped })
    left_wait :
        {m : Manager}
        → m.phase ≡ waiting
        → m.is_cancelled ≡ true
        → Step m (record m { phase = stopped })
    turned :
        {m : Manager}
        → m.phase ≡ serving
        → m.is_cancelled ≡ true
        → Step m (record m { phase = draining })
    drained :
        {m : Manager} (c : Conditions) (text : Bytes) (rest : List Bytes)
        → m.phase ≡ draining
        → m.queue ≡ text ∷ rest
        → Step m (tried m (send c.0 c.1 text m.client).0 rest text draining)
    emptied :
        {m : Manager} → m.phase ≡ draining → m.queue ≡ [] → Step m (record m { phase = stopped })

  pub data Steps : Manager → Manager → Type 0 where
    stay : {m : Manager} → Steps m m
    before : {m n o : Manager} → Step m n → Steps n o → Steps m o
