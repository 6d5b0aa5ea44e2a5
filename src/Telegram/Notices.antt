-- ===== src/Telegram/Notices.antt =====
-- TelegramHandler.Handle and Manager.TriggerSystemEvent of internal/observability/telegram.go: the
-- messages that wait in the manager's channel.
use contest_sync.Common.{
  ℕ, ◌≤◌, ◌≡◌, refl, Bool, true, false, ◌||◌, Option, none, some, List, [], ◌∷◌, ◌++◌, Bytes, codes,
  contains, ltb, length, length-append, if◌then◌else◌, arith,
}
use contest_sync.World.Models.{Err}
use contest_sync.Telegram.Escape.{escape_html}

-- slog.Record: `is_warning` is `r.Level >= slog.LevelWarn`, `level` is r.Level.String(), and the
-- attributes are given with their values in the format "%v".
pub record LogRecord : Type 0 where
  pub is_warning : Bool
  pub level : Bytes
  pub message : Bytes
  pub attributes : List (Bytes × Bytes)

-- `make(chan string, 1000)` of NewManager
abbrev pub notice_capacity : ℕ
notice_capacity = 1000

-- a send that does not wait: the message goes in where there is room
unfoldable pub offer : Bytes → List Bytes → List Bytes
offer text channel =
    if ltb (length channel) notice_capacity then channel ++ (text ∷ []) else channel

-- the callback of Attrs over the attributes
unfoldable pub attribute_lines : List (Bytes × Bytes) → Bytes
attribute_lines [] = []
attribute_lines ((key, value) ∷ rest) =
    codes "<code>"
    ++ (escape_html key
        ++ (codes ": " ++ (escape_html value ++ (codes "</code>" ++ (10 ∷ attribute_lines rest)))))

unfoldable pub notice_text : LogRecord → Bytes
notice_text r =
    codes "<b>["
    ++ (r.level
        ++ (codes "]</b> " ++ (escape_html r.message ++ (10 ∷ 10 ∷ attribute_lines r.attributes))))

-- Messages about the notification itself are not sent.
unfoldable pub is_about_notices : Bytes → Bool
is_about_notices lower =
    contains lower (codes "telegram") || contains lower (codes "dropped system event")

module _ (to_lower : Bytes → Bytes) where
  -- where the record is a warning and there is a channel
  unfoldable pub enqueue : LogRecord → List Bytes → List Bytes
  enqueue r channel =
      if is_about_notices (to_lower r.message) then channel else offer (notice_text r) channel

  -- Handle behind the handler `next`, whose result it returns; `none` stands for no channel.
  unfoldable pub handle :
      Option Err → LogRecord → Option (List Bytes) → Option Err × Option (List Bytes)
  handle (some e) r channel = (some e, channel)
  handle none r none = (none, none)
  handle none r (some channel) = (none, some (if r.is_warning then enqueue r channel else channel))

-- TriggerSystemEvent; the test says whether there is room within two seconds.
unfoldable pub trigger_system_event : Bytes → Bytes → Bool → List Bytes → List Bytes
trigger_system_event event details true channel =
    channel
    ++ ((codes "<b>[SYSTEM EVENT - "
          ++ (escape_html event ++ (codes "]</b>" ++ (10 ∷ 10 ∷ escape_html details))))
        ∷ [])
trigger_system_event event details false channel = channel

-- Where the handler behind it has no error, Handle has none either, and it leaves a channel of at most
-- 1000 messages with at most 1000.
pub handle-length :
    (to_lower : Bytes → Bytes) (r : LogRecord) (channel : List Bytes)
    → length channel ≤ notice_capacity
    → (l : List Bytes) × (handle to_lower none r (some channel) ≡ (none, some l))
      × (length l ≤ notice_capacity)
unfolding handle enqueue
handle-length to_lower r channel h = (
  if r.is_warning then enqueue to_lower r channel else channel,
  refl,
  if_by r.is_warning _ _
      (if_by (is_about_notices (to_lower r.message)) _ _ h (offer-length (notice_text r))) h,
)
  where
    if_by :
        (b : Bool) (c d : List Bytes)
        → length c ≤ notice_capacity
        → length d ≤ notice_capacity
        → length (if b then c else d) ≤ notice_capacity
    if_by true c d h k = h
    if_by false c d h k = k

    offer-length : (text : Bytes) → length (offer text channel) ≤ notice_capacity
    offer-length text = unfold offer in ground (arith, length-append channel (text ∷ []))
