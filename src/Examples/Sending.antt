-- ===== src/Examples/Sending.antt =====
-- Texts and messages for Telegram, and a fetch.
use contest_sync.Common.{ℕ, ◌≡◌, false, none, some, List, Bytes, codes, arith}
use contest_sync.Telegram.Split.{split_message, IsSplit, split_message_total}
use contest_sync.Telegram.Client.{TelegramClient, Attempt, answered, send_chunk, record_failure}
use contest_sync.Telegram.Client.Cooldown.{rate_limited_lost}

abbrev text : Bytes
text = codes "<b>a & b</b>"

split_message_total_example :
    (chunks : List Bytes) × (split_message text 5 ≡ some chunks) × IsSplit text 5 chunks
split_message_total_example = split_message_total text 5 (omega arith)

abbrev limited : ℕ → Attempt
limited i = record { reply = answered 429 (some 2); cancelled = false; now = 1000 }

abbrev client : TelegramClient
client = record { from = codes "worker"; failures = 2; cool_down_until = 0 }

rate_limited_lost_example :
    ((send_chunk limited client).error ≡ none)
    × ((send_chunk limited client).delivered ≡ false)
    × ((send_chunk limited client).client ≡ record_failure client 1000)
rate_limited_lost_example =
    rate_limited_lost limited client (ground arith) (ground arith) (ground arith)
