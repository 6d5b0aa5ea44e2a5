-- ===== src/Telegram/Manager/Kept.antt =====
-- The messages in the channel of the manager.
use contest_sync.Common.{
  ◌<◌, ◌≤◌, ◌≡◌, refl, sym, subst, Bool, true, false, Option, none, some, List, [], ◌∷◌, ◌++◌,
  Bytes, length, length-append, append-nil, if_split, if◌then◌else◌, ltb, arith,
}
use contest_sync.World.Models.{Err}
use contest_sync.Telegram.Notices.{
  LogRecord, handle, enqueue, offer, notice_text, is_about_notices, trigger_system_event,
  notice_capacity,
}
use contest_sync.Telegram.Manager.{Phase, starting, serving, waiting, draining, stopped, Manager}

-- the channel with some more messages, which it has room for
abbrev pub Extends : List Bytes → List Bytes → Type 0
Extends q channel =
    (more : List Bytes) × (channel ≡ q ++ more)
    × (length q ≤ notice_capacity → length channel ≤ notice_capacity)

unchanged : (q : List Bytes) → Extends q q
unchanged q = ([], sym (append-nil q), λ h. h)

extended : (text : Bytes) (q : List Bytes) → length q < notice_capacity → Extends q (q ++ text ∷ [])
extended text q h =
    let size = length-append q (text ∷ []) in (text ∷ [], refl, λ bound. omega (arith, size, h))

offer-Extends : (text : Bytes) (q : List Bytes) → Extends q (offer text q)
unfolding offer
offer-Extends text q =
    if_split (Extends q) (ltb (length q) notice_capacity) (λ e. extended text q (ground (arith, e)))
      (λ e. unchanged q)

module _ (to_lower : Bytes → Bytes) where
  pub handle-Extends :
      (next : Option Err) (r : LogRecord) (q channel : List Bytes)
      → (handle to_lower next r (some q)).1 ≡ some channel
      → Extends q channel
  unfolding handle enqueue
  handle-Extends (some e) r q channel h =
      let same : q ≡ channel = cc in subst (Extends q) same (unchanged q)
  handle-Extends none r q channel h =
      let result : List Bytes = if r.is_warning then enqueue to_lower r q else q in
      let same : result ≡ channel = cc in
      subst (Extends q) same (
        if_split (Extends q) r.is_warning
          (λ e.
            if_split (Extends q) (is_about_notices (to_lower r.message)) (λ e'. unchanged q)
              (λ e'. offer-Extends (notice_text r) q))
          (λ e. unchanged q))

  pub trigger-Extends :
      (event details : Bytes) (has_room : Bool) (q : List Bytes)
      → (has_room ≡ true → length q < notice_capacity)
      → Extends q (trigger_system_event event details has_room q)
  unfolding trigger_system_event
  trigger-Extends event details true q room = extended _ q (room refl)
  trigger-Extends event details false q room = unchanged q

-- The goroutine has seen the cancellation behind its first wait.
abbrev leaves : Phase → Bool
leaves starting = false
leaves serving = false
leaves waiting = false
leaves draining = true
leaves stopped = true

-- Every message that was put in is given to Send or waits, in order; the channel keeps its size, and
-- the goroutine leaves its loop only behind a cancellation.
pub record IsKept (m : Manager) : Type 0 where
  pub order : m.accepted ≡ m.attempted ++ m.queue
  pub size : length m.queue ≤ notice_capacity
  pub asked : leaves m.phase ≡ true → m.is_cancelled ≡ true
