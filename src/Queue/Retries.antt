-- ===== src/Queue/Retries.antt =====
-- The life of a task on the broker: what the consumers of internal/queue/amqp.go do with it over all
-- its deliveries.
use contest_sync.Common.{
  ℕ, ◌+◌, ◌-◌, ◌≤◌, ◌<◌, ◌≡◌, Bool, true, List, [], ◌∷◌, arith, ◌⊎◌, inl, inr, sym, subst, All,
}
use contest_sync.Queue.Publish.{Task}
use contest_sync.Queue.Delivery.{Answer, publish, ack, nack, Republish, retried, settle, left}

-- A delivery's surroundings: how giving the task back goes, and whether its work fails.
pub record Round : Type 0 where
  pub republish : Republish
  pub work_fails : Bool

-- the task is given back to the broker without an error
abbrev pub GivesBack : Round → Type 0
GivesBack r =
    (r.republish.marshals ≡ true) × (r.republish.channel_up ≡ true) × (r.republish.publishes ≡ true)

module _ {A : Type 0} where
  abbrev pub publishes : List (Answer A) → ℕ
  publishes [] = 0
  publishes (publish t ∷ rest) = 1 + publishes rest
  publishes (_ ∷ rest) = publishes rest

  -- what a measure `f` of the next delivery gives for the task that is left, if one is
  abbrev pub then_for : (Task A → ℕ) → List (Task A) → ℕ
  then_for f [] = 0
  then_for f (u ∷ _) = f u

  -- the copies of the task that are published, delivery after delivery until none of it is left
  unfoldable pub republished : List Round → Task A → ℕ
  republished [] t = 0
  republished (r ∷ rs) t =
      let answers = settle r.republish r.work_fails t in
      publishes answers + then_for (republished rs) (left t answers)

  -- how many times the work is done
  unfoldable pub executions : List Round → Task A → ℕ
  executions [] t = 0
  executions (r ∷ rs) t = 1 + then_for (executions rs) (left t (settle r.republish r.work_fails t))

  settle-cases :
      (r : Republish) (b : Bool) (t : Task A)
      → (settle r b t ≡ ack ∷ [])
        ⊎ (((settle r b t ≡ publish (retried t) ∷ ack ∷ []) × (t.retry_count < 2))
            ⊎ (settle r b t ≡ nack true ∷ []))
  unfolding settle
  settle-cases r b t = ground arith

  -- A task of which `retry_count` retries have been made is published again at most twice less that,
  -- over all its deliveries and however they end.
  pub republished_le : (rs : List Round) (t : Task A) → republished rs t ≤ 2 - t.retry_count
  unfolding republished
  republished_le [] t = omega arith
  republished_le (r ∷ rs) t = elim (settle-cases r.republish r.work_fails t) [
    | inl p ↦ subst Bounded (sym p) (omega arith)
    | inr (inl (p, lt)) ↦ subst Bounded (sym p) (omega (arith, lt, republished_le rs (retried t)))
    | inr (inr p) ↦ subst Bounded (sym p) (omega (arith, republished_le rs t))
  ]
    where
      Bounded : List (Answer A) → Type 0
      Bounded answers =
          publishes answers + then_for (republished rs) (left t answers) ≤ 2 - t.retry_count

  settle-GivesBack :
      (r : Round) (t : Task A)
      → GivesBack r
      → (settle r.republish r.work_fails t ≡ ack ∷ [])
        ⊎ ((settle r.republish r.work_fails t ≡ publish (retried t) ∷ ack ∷ [])
            × (t.retry_count < 2))
  unfolding settle
  settle-GivesBack r t g = ground arith

  -- If every attempt to give the task back succeeds, its work is done at most three times, less one
  -- for each of the first two retries that has been made, whichever of the attempts at the work fail.
  pub executions_le :
      (rs : List Round) (t : Task A) → All GivesBack rs → executions rs t ≤ 1 + (2 - t.retry_count)
  unfolding executions
  executions_le [] t g = omega arith
  executions_le (r ∷ rs) t (g, gs) = elim (settle-GivesBack r t g) [
    | inl p ↦ subst Bounded (sym p) (omega arith)
    | inr (p, lt) ↦ subst Bounded (sym p) (omega (arith, lt, executions_le rs (retried t) gs))
  ]
    where
      Bounded : List (Answer A) → Type 0
      Bounded answers = 1 + then_for (executions rs) (left t answers) ≤ 1 + (2 - t.retry_count)
