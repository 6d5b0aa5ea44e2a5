-- ===== src/World/Emits.antt =====
-- Which calls a program makes, and that it leaves the local map of users alone: rules for each way to build a program.
use contest_sync.Common.{
  ℕ, ◌∙◌, ◌≡◌, refl, Bool, true, false, Option, none, some, List, ◌∷◌, Bytes, if◌then◌else◌,
}
use contest_sync.World.Models.{Err, Result, ok, err}
use contest_sync.World.Calls.{Trace, Entry}
use contest_sync.World.Prog.{
  World, Flow, next, return, Prog, pure, leave, call, set_calendar_id, get_calendar_id, ◌>>=◌,
  or_return, continue,
}

-- The second trace is the first with more calls, each of them a `Q`.
pub data Extends {ℓ} (Q : Entry → Type ℓ) (old : Trace) : Trace → Type ℓ where
  same : Extends Q old old
  more : {t : Trace} (e : Entry) → Q e → Extends Q old t → Extends Q old (e ∷ t)

module _ {ℓ} {Q : Entry → Type ℓ} where
  pub Extends-trans : {a b c : Trace} → Extends Q a b → Extends Q b c → Extends Q a c
  Extends-trans p same = p
  Extends-trans p (more e q r) = more e q (Extends-trans p r)

pub record Emits {ℓ} (Q : Entry → Type ℓ) {A : Type 0} (m : Prog A) : Type ℓ where
  pub at : (w : World) → Extends Q w.trace (m w).1.trace
  pub keeps : (w : World) → (m w).1.syncing ≡ w.syncing

module _ {ℓ} {Q : Entry → Type ℓ} {A : Type 0} where
  pub Emits-pure : (a : A) → Emits Q (pure a)
  unfolding pure
  Emits-pure a = record { at = λ w. same; keeps = λ w. refl }

  pub Emits-leave : (e : Option Err) → Emits Q (leave {A = A} e)
  unfolding leave
  Emits-leave e = record { at = λ w. same; keeps = λ w. refl }

  pub Emits-call : (e : Entry) (answer : Trace → A) → Q e → Emits Q (call e answer)
  unfolding call
  Emits-call e answer q = record { at = λ w. more e q same; keeps = λ w. refl }

  pub Emits-or_return : (r : Result A) → Emits Q (or_return r)
  unfolding or_return
  Emits-or_return (ok a) = Emits-pure a
  Emits-or_return (err e) = Emits-leave (some e)

  pub Emits-if : (b : Bool) (m n : Prog A) → Emits Q m → Emits Q n → Emits Q (if b then m else n)
  Emits-if true m n h k = h
  Emits-if false m n h k = k

module _ {ℓ} {Q : Entry → Type ℓ} where
  pub Emits-set_calendar_id : (id : Bytes) → Emits Q (set_calendar_id id)
  unfolding set_calendar_id
  Emits-set_calendar_id id = record { at = λ w. same; keeps = λ w. refl }

  pub Emits-get_calendar_id : Emits Q get_calendar_id
  unfolding get_calendar_id
  Emits-get_calendar_id = record { at = λ w. same; keeps = λ w. refl }

module _ {ℓ} {Q : Entry → Type ℓ} {A B : Type 0} where
  pub Emits-bind :
      (m : Prog A) (f : A → Prog B) → Emits Q m → ((a : A) → Emits Q (f a)) → Emits Q (m >>= f)
  unfolding ◌>>=◌
  Emits-bind m f h k = record {
    at = λ w. after (m w).0 (m w).1 (h.at w);
    keeps = λ w. kept (m w).0 (m w).1 (h.keeps w);
  }
    where
      kept :
          {l : List ℕ} (r : Flow A) (w' : World) → w'.syncing ≡ l → (continue r f w').1.syncing ≡ l
      kept (next a) w' p = (k a).keeps w' ∙ p
      kept (return e) w' p = p

      after :
          {t : Trace} (r : Flow A) (w' : World)
          → Extends Q t w'.trace
          → Extends Q t (continue r f w').1.trace
      after (next a) w' p = Extends-trans p ((k a).at w')
      after (return e) w' p = p

module _ {ℓ} {Q : Entry → Type ℓ} {A B : Type 0} where
  pub Emits-option :
      (o : Option A) (m : Prog B) (f : A → Prog B)
      → Emits Q m
      → ((a : A) → Emits Q (f a))
      → Emits Q (elim o [ none ↦ m | some a ↦ f a ])
  Emits-option none m f h k = h
  Emits-option (some a) m f h k = k a

  pub Emits-result :
      (r : Result A) (m : Err → Prog B) (f : A → Prog B)
      → ((e : Err) → Emits Q (m e))
      → ((a : A) → Emits Q (f a))
      → Emits Q (elim r [ ok a ↦ f a | err e ↦ m e ])
  Emits-result (ok a) m f h k = k a
  Emits-result (err e) m f h k = h e

pub ruleset emits_rules = (
  Emits-pure, Emits-leave, Emits-or_return, Emits-if, Emits-set_calendar_id, Emits-get_calendar_id,
  Emits-bind, Emits-option, Emits-result,
)
