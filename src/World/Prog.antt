-- ===== src/World/Prog.antt =====
-- Go functions that call the services and may return early, as programs over the trace and the
-- variables of the process that they change.
use contest_sync.Common.{ℕ, Option, none, some, List, ◌∷◌, Bytes}
use contest_sync.World.Models.{Err, Result, ok, err}
use contest_sync.World.Calls.{Trace, Entry}

pub record World : Type 0 where
  pub trace : Trace
  -- Syncer.syncingUsers
  pub syncing : List ℕ
  -- the variable user.CalendarID of the call that runs
  pub calendar_id : Bytes

-- Either the next statement runs, or the function returns an error or nil.
pub data Flow {ℓ} (A : Type ℓ) : Type ℓ where
  next : A → Flow A
  return : Option Err → Flow A

abbrev pub Prog {ℓ} : Type ℓ → Type ℓ
Prog A = World → Flow A × World

module _ {ℓ} {A : Type ℓ} where
  unfoldable pub pure : A → Prog A
  pure a w = (next a, w)

  unfoldable pub leave : Option Err → Prog A
  leave e w = (return e, w)

  -- a call to a service: its answer, and its entry in the trace
  unfoldable pub call : Entry → (Trace → A) → Prog A
  call e answer w = (next (answer w.trace), record w { trace = e ∷ w.trace })

unfoldable pub set_calendar_id : Bytes → Prog (Unit {0})
set_calendar_id id w = (next tt, record w { calendar_id = id })

unfoldable pub get_calendar_id : Prog Bytes
get_calendar_id w = (next w.calendar_id, w)

module _ {ℓ κ} {A : Type ℓ} {B : Type κ} where
  abbrev pub continue : Flow A → (A → World → Flow B × World) → World → Flow B × World
  continue (next a) f w = f a w
  continue (return e) f w = (return e, w)

module _ {ℓ} {A B : Type ℓ} where
  infixl 5 ◌>>=◌ ◌>>◌
  -- opening this opens the other actions too
  unfoldable pub ◌>>=◌ : Prog A → (A → Prog B) → Prog B
  unfolding pure leave call set_calendar_id get_calendar_id
  ◌>>=◌ m f w = let (r, w') = m w in continue r f w'

  abbrev pub ◌>>◌ : Prog A → Prog B → Prog B
  m >> k = m >>= λ _. k

-- `if err != nil { return err }`
unfoldable pub or_return {ℓ} : {A : Type ℓ} → Result A → Prog A
unfolding pure leave
or_return (ok a) = pure a
or_return (err e) = leave (some e)

-- The error that a function body returns: nil at its end.
abbrev pub error_of {ℓ} : {A : Type ℓ} → Flow A → Option Err
error_of (next a) = none
error_of (return e) = e

pub if_nil {ℓ} : {A : Type ℓ} → Option Err → A → (Err → A) → A
if_nil none a f = a
if_nil (some e) a f = f e
