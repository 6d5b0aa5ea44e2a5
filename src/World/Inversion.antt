-- ===== src/World/Inversion.antt =====
-- To prove a statement of every way a program can end: rules for each way to build a program.
use contest_sync.Common.{◌≡◌, refl, ◌∷◌, Bool, true, false, Option, if◌then◌else◌}
use contest_sync.World.Models.{Err}
use contest_sync.World.Prog.{World, Flow, next, return, Prog, call, ◌>>=◌, continue}
use contest_sync.World.Calls.{Trace, Entry}

-- A statement of how a run ends.
abbrev pub Ending : Type 0 → Type 1
Ending A = Flow A → World → Type 0

abbrev pub Ends : {A : Type 0} → Ending A → Prog A → World → Type 0
Ends P m w = P (m w).0 (m w).1

pub ending :
    {A : Type 0} (P : Ending A) (r : Flow A) (w : World)
    → ((e : Option Err) → P (return e) w)
    → ((a : A) → r ≡ next a → P (next a) w)
    → P r w
ending P (next a) w left go = go a refl
ending P (return e) w left go = left e

module _ {A B : Type 0} (P : Ending B) where
  continue_by :
      (r : Flow A) (f : A → Prog B) (w : World)
      → ((e : Option Err) → r ≡ return e → P (return e) w)
      → ((a : A) → r ≡ next a → Ends P (f a) w)
      → P (continue r f w).0 (continue r f w).1
  continue_by (next a) f w left go = go a refl
  continue_by (return e) f w left go = left e refl

  -- A program that runs on with `f` ends as its first part does, or as `f` does.
  pub bind_by :
      (m : Prog A) (f : A → Prog B) (w : World)
      → ((e : Option Err) → (m w).0 ≡ return e → P (return e) (m w).1)
      → ((a : A) → (m w).0 ≡ next a → Ends P (f a) (m w).1)
      → Ends P (m >>= f) w
  unfolding ◌>>=◌
  bind_by m f w = continue_by (m w).0 f (m w).1

  -- behind a call the program runs on
  pub call_by :
      (e : Entry) (answer : Trace → A) (f : A → Prog B) (w : World)
      → Ends P (f (answer w.trace)) (record w { trace = e ∷ w.trace })
      → Ends P (call e answer >>= f) w
  unfolding ◌>>=◌
  call_by e answer f w h = h

module _ {A : Type 0} (P : Ending A) where
  pub if_by :
      (b : Bool) (m n : Prog A) (w : World)
      → (b ≡ true → Ends P m w)
      → (b ≡ false → Ends P n w)
      → Ends P (if b then m else n) w
  if_by true m n w h k = h refl
  if_by false m n w h k = k refl
