-- ===== src/Telegram/Manager/Drained.antt =====
-- What the manager sends behind the cancellation.
use contest_sync.Common.{
  ◌≡◌, refl, sym, ap, ◌∙◌, List, [], ◌∷◌, ◌++◌, Bytes, append_assoc, append-nil,
}
use contest_sync.Telegram.Client.{send}
use contest_sync.Telegram.Manager.{
  draining, stopped, Manager, took_in, tried, Conditions, Step, logged, triggered, cancelled, began,
  sent, resumed, left_start, left_wait, turned, drained, emptied, Steps, stay, before,
}
use contest_sync.Telegram.Manager.Kept.{Extends, handle-Extends, trigger-Extends}

abbrev Begins : List Bytes → List Bytes → Type 0
Begins due l = (more : List Bytes) × (l ≡ due ++ more)

-- The due messages were given to Send, or are before all else while the goroutine drains.
data Covers (due : List Bytes) (m : Manager) : Type 0 where
  going : m.phase ≡ draining → Begins due (m.attempted ++ m.queue) → Covers due m
  over : m.phase ≡ stopped → Begins due m.attempted → Covers due m

took_in-Covers :
    (due : List Bytes) (m : Manager) (channel : List Bytes)
    → Extends m.queue channel
    → Covers due m
    → Covers due (took_in m channel)
took_in-Covers due m channel (extra, e, size) (over s b) = over s b
took_in-Covers due m channel (extra, e, size) (going s (more, b)) = going s (
  more ++ extra,
  ap (λ l. m.attempted ++ l) e
      ∙ sym (append_assoc m.attempted m.queue extra)
      ∙ ap (λ l. l ++ extra) b
      ∙ append_assoc due more extra,
)

module _ (to_lower : Bytes → Bytes) where
  Step-Covers : (due : List Bytes) {m n : Manager} → Step to_lower m n → Covers due m → Covers due n
  Step-Covers due {m = m} (logged next r channel e) h =
      took_in-Covers due m channel (handle-Extends to_lower next r m.queue channel e) h
  Step-Covers due {m = m} (triggered event details has_room room) h =
      took_in-Covers due m _ (trigger-Extends to_lower event details has_room m.queue room) h
  Step-Covers due cancelled (going s b) = going s b
  Step-Covers due cancelled (over s b) = over s b
  Step-Covers due (began e) (going s b) = cc
  Step-Covers due (began e) (over s b) = cc
  Step-Covers due (sent c text rest e e') (going s b) = cc
  Step-Covers due (sent c text rest e e') (over s b) = cc
  Step-Covers due (resumed e) (going s b) = cc
  Step-Covers due (resumed e) (over s b) = cc
  Step-Covers due (left_start e e') (going s b) = cc
  Step-Covers due (left_start e e') (over s b) = cc
  Step-Covers due (left_wait e e') (going s b) = cc
  Step-Covers due (left_wait e e') (over s b) = cc
  Step-Covers due (turned e e') (going s b) = cc
  Step-Covers due (turned e e') (over s b) = cc
  Step-Covers due {m = m} (drained c text rest e e') (going s (more, b)) =
      going refl
        (more, append_assoc m.attempted (text ∷ []) rest ∙ ap (λ l. m.attempted ++ l) (sym e') ∙ b)
  Step-Covers due (drained c text rest e e') (over s b) = cc
  Step-Covers due {m = m} (emptied e e') (going s (more, b)) =
      over refl (more, sym (append-nil m.attempted) ∙ ap (λ l. m.attempted ++ l) (sym e') ∙ b)
  Step-Covers due (emptied e e') (over s b) = cc

  covered : (due : List Bytes) {m n : Manager} → Steps to_lower m n → Covers due m → Covers due n
  covered due stay h = h
  covered due (before s rest) h = covered due rest (Step-Covers due s h)

  -- If the goroutine drains the channel and then ends, it has given every message that waited when it
  -- began to drain to Send, in order and before any later one, whatever came of each.
  pub draining-sends :
      (m n : Manager)
      → m.phase ≡ draining
      → Steps to_lower m n
      → n.phase ≡ stopped
      → (more : List Bytes) × (n.attempted ≡ (m.attempted ++ m.queue) ++ more)
  draining-sends m n h steps ended =
      take (covered (m.attempted ++ m.queue) steps (going h ([], sym (append-nil _))))
    where
      take : Covers (m.attempted ++ m.queue) n → Begins (m.attempted ++ m.queue) n.attempted
      take (going s b) = cc
      take (over s b) = b

  -- Where nothing more comes in, draining ends: it has a run that gives every waiting message to Send,
  -- whatever the answers are, and stops with an empty channel.
  pub draining-ends :
      (c : Conditions) (m : Manager)
      → m.phase ≡ draining
      → (n : Manager) × Steps to_lower m n
        × (n.phase ≡ stopped)
        × (n.queue ≡ [])
        × (n.attempted ≡ m.attempted ++ m.queue)
  draining-ends c m h = run m.queue m h refl
    where
      run :
          (q : List Bytes) (m' : Manager)
          → m'.phase ≡ draining
          → m'.queue ≡ q
          → (n : Manager) × Steps to_lower m' n
            × (n.phase ≡ stopped)
            × (n.queue ≡ [])
            × (n.attempted ≡ m'.attempted ++ m'.queue)
      run [] m' s e = (
        record m' { phase = stopped },
        before (emptied s e) stay,
        refl,
        e,
        sym (append-nil m'.attempted) ∙ ap (λ l. m'.attempted ++ l) (sym e),
      )
      run (text ∷ q) m' s e =
          let next : Manager = tried m' (send c.0 c.1 text m'.client).0 q text draining in
          let (n, steps, last, empty, all) = run q next refl refl in
          (
            n,
            before (drained c text q s e) steps,
            last,
            empty,
            all ∙ append_assoc m'.attempted (text ∷ []) q ∙ ap (λ l. m'.attempted ++ l) (sym e),
          )
