-- ===== src/Web/Account/Deleted.antt =====
-- What DeleteAccount deletes.
use contest_sync.Common.{
  ℕ, ◌≡◌, refl, ap, ◌∙◌, Bool, true, false, ◌⊎◌, inl, inr, Option, none, some, List, [], ◌∷◌, Bytes,
  codes, is_empty, if_split,
}
use contest_sync.World.Models.{Err, Result, ok, err}
use contest_sync.World.Calls.{
  Trace, exec, web, delete_user, query_account, get_session, clear_session,
}
use contest_sync.World.Prog.{World, Prog, next, return, pure, leave, ◌>>=◌}
use contest_sync.World.Inversion.{Ending, Ends, call_by}
use contest_sync.Web.Calls.{Site, Found, row, no_rows, failed, problem, ask}
use contest_sync.Web.Account.{
  event_ids, cleanup_with, cleanup, drop_cache, row_deleted, delete_row, delete_found,
  delete_account,
}

-- The users whose row is deleted, the newest first.
abbrev pub deletions : Trace → List ℕ
deletions [] = []
deletions (exec (delete_user u) ∷ t) = u ∷ deletions t
deletions (_ ∷ t) = deletions t

module _ (h : Site) {B : Type 0} (P : Ending B) (w : World) where
  -- the steps in front of the DELETE go on, and delete no row
  event_ids_by :
      (u : ℕ) (google : Bool) (f : List Bytes → Prog B)
      → ((ids : List Bytes) (v : World) → deletions v.trace ≡ deletions w.trace → Ends P (f ids) v)
      → Ends P (event_ids h u google >>= f) w
  unfolding event_ids ◌>>=◌ pure
  event_ids_by u false f go = go [] w refl
  event_ids_by u true f go = go _ _ refl

  cleanup_with_by :
      (r : Result Bytes) (calendar_id : Bytes) (ids : List Bytes) (google : Bool)
      (f : Unit {0} → Prog B)
      → ((x : Unit {0}) (v : World) → deletions v.trace ≡ deletions w.trace → Ends P (f x) v)
      → Ends P (cleanup_with h r calendar_id ids google >>= f) w
  unfolding cleanup_with ◌>>=◌ pure
  cleanup_with_by (err e) calendar_id ids google f go = go tt w refl
  cleanup_with_by (ok token) calendar_id ids google f go =
      if_split (λ (m : Prog (Unit {0})). Ends P (m >>= f) w) (is_empty token) (λ _. go tt w refl)
        (λ _. go tt _ refl)

  cleanup_by :
      (calendar_id encrypted : Bytes) (ids : List Bytes) (google : Bool) (f : Unit {0} → Prog B)
      → ((x : Unit {0}) (v : World) → deletions v.trace ≡ deletions w.trace → Ends P (f x) v)
      → Ends P (cleanup h calendar_id encrypted ids google >>= f) w
  unfolding cleanup
  cleanup_by calendar_id encrypted ids google f go =
      if_split (λ (m : Prog (Unit {0})). Ends P (m >>= f) w) (is_empty encrypted)
        (λ _. unfold ◌>>=◌ pure in go tt w refl)
        (λ _. cleanup_with_by _ calendar_id ids google f go)

module _ (h : Site) (u : ℕ) where
  -- How DeleteAccount ends behind a trace: with "deleted" where the user has no row, or where the one
  -- statement that it has executed has deleted the row; with an error where that statement has failed.
  abbrev pub Deleted : Trace → Ending (Unit {0})
  Deleted t (next x) w =
      ((h.web.on_query_account t u ≡ no_rows) × (deletions w.trace ≡ deletions t))
      ⊎ ((deletions w.trace ≡ u ∷ deletions t)
          × (t1 : Trace) × (h.services.on_exec t1 (delete_user u) ≡ none))
  Deleted t (return e) w =
      (deletions w.trace ≡ u ∷ deletions t)
      × (e ≡ some (problem 500 (codes "internal server error")))
      × (t1 : Trace) × (e1 : Err) × (h.services.on_exec t1 (delete_user u) ≡ some e1)

  row_deleted-Deleted :
      (t t1 : Trace) (o : Option Err) (w : World)
      → deletions w.trace ≡ u ∷ deletions t
      → h.services.on_exec t1 (delete_user u) ≡ o
      → Ends (Deleted t) (row_deleted h u o) w
  unfolding row_deleted drop_cache ◌>>=◌ pure leave
  row_deleted-Deleted t t1 (some e) w q answer = (q, refl, t1, e, answer)
  row_deleted-Deleted t t1 none w q answer =
      if_split
        (λ (m : Prog (Unit {0})).
          Ends (Deleted t)
            (m >>= λ _. ask get_session h.web.on_get_session >>= λ _. ask clear_session (λ s. tt))
            w)
        h.has_valkey (λ _. inr (q, t1, answer)) (λ _. inr (q, t1, answer))

  delete_row-Deleted :
      (t : Trace) (w : World)
      → deletions w.trace ≡ deletions t
      → Ends (Deleted t) (delete_row h u) w
  unfolding delete_row
  delete_row-Deleted t w q =
      call_by (Deleted t) (exec (delete_user u)) _ _ w
        (row_deleted-Deleted t w.trace _ _ (ap (λ l. u ∷ l) q) refl)

  delete_found-Deleted :
      (t : Trace) (google : Bool) (found : Found (Bytes × Bytes)) (w : World)
      → deletions w.trace ≡ deletions t
      → h.web.on_query_account t u ≡ found
      → Ends (Deleted t) (delete_found h u google found) w
  unfolding delete_found
  delete_found-Deleted t google no_rows w q answer = unfold pure in inl (answer, q)
  delete_found-Deleted t google (failed e) w q answer = delete_row-Deleted t w q
  delete_found-Deleted t google (row (calendar_id, encrypted)) w q answer =
      event_ids_by h (Deleted t) w u google _ λ ids v p.
        cleanup_by h (Deleted t) v calendar_id encrypted ids google _
          λ x v1 p1. delete_row-Deleted t v1 (p1 ∙ p ∙ q)

  -- DeleteAccount deletes no row but the user's. It says "deleted" where its statement has deleted that
  -- row or the user has none, and ends with an error where the statement has failed; it executes the
  -- statement once unless the user has no row.
  pub delete_account-Deleted :
      (google : Bool) (w : World) → Ends (Deleted w.trace) (delete_account h u google) w
  unfolding delete_account
  delete_account-Deleted google w =
      call_by (Deleted w.trace) (web (query_account u)) _ _ w
        (delete_found-Deleted w.trace google _ _ refl refl)
