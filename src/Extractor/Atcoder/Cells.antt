-- ===== src/Extractor/Atcoder/Cells.antt =====
-- The loops of internal/extractor/atcoder.go over the cells and the rows.
use mathlib.Core.Option
use contest_sync.Common.{
  ℕ, zero, suc, ◌+◌, ◌≤◌, ◌≡◌, refl, ap, ap₂, subst, true, Option, none, some, List, [], ◌∷◌, Bytes,
  codes, index, has_prefix, length, take, drop, length-drop, arith, if_split,
}
use contest_sync.Extractor.Atcoder.{
  cut, and_then, content, pieces, next_cell, extract_cells, next_row,
}

-- The loop takes these pieces off the text, one after the other, and ends where there is none.
pub data Runs (next : Bytes → Option (Bytes × Bytes)) : Bytes → List Bytes → Type 0 where
  ended : {s : Bytes} → next s ≡ none → Runs next s []
  taken :
      {s piece rest : Bytes} {later : List Bytes}
      → next s ≡ some (piece, rest)
      → Runs next rest later
      → Runs next s (piece ∷ later)

-- what is taken off leaves a shorter rest
abbrev pub Shortens : (Bytes → Option (Bytes × Bytes)) → Type 0
Shortens next = (s piece rest : Bytes) → next s ≡ some (piece, rest) → suc (length rest) ≤ length s

module _ (next : Bytes → Option (Bytes × Bytes)) (shortens : Shortens next) where
  pieces-Runs : (n : ℕ) (s : Bytes) → length s ≤ n → Runs next s (pieces next n s)
  unfolding pieces
  pieces-Runs zero s h = ended (last (next s) refl)
    where
      last : (o : Option (Bytes × Bytes)) → next s ≡ o → next s ≡ none
      last none e = e
      last (some (piece, rest)) e =
          let shorter = shortens s piece rest e in absurd (omega (arith, h, shorter))
  pieces-Runs (suc n) s h = step (next s) refl (λ rest le. pieces-Runs n rest le)
    where
      step :
          (o : Option (Bytes × Bytes))
          → next s ≡ o
          → ((rest : Bytes) → length rest ≤ n → Runs next rest (pieces next n rest))
          → Runs next s (elim o [ none ↦ [] | some (piece, rest) ↦ piece ∷ pieces next n rest ])
      step none e more = ended e
      step (some (piece, rest)) e more =
          let shorter = shortens s piece rest e in taken e (more rest (omega (arith, h, shorter)))

-- A text has one run.
pub Runs-unique :
    (next : Bytes → Option (Bytes × Bytes)) {s : Bytes} {ps qs : List Bytes}
    → Runs next s ps
    → Runs next s qs
    → ps ≡ qs
Runs-unique next (ended e) (ended e') = refl
Runs-unique next (ended e) (taken e' r) = cc
Runs-unique next (taken e r) (ended e') = cc
Runs-unique next (taken {piece = p} {rest = t} {later = ps} e r)
      (taken {piece = q} {rest = u} {later = qs} e' r') =
    let pieces : p ≡ q = cc in
    let rests : u ≡ t = cc in
    ap₂ (λ x l. x ∷ l) pieces (Runs-unique next r (subst (λ v. Runs next v qs) rests r'))

pub has_prefix-length : (s p : Bytes) → has_prefix s p ≡ true → length p ≤ length s
unfolding has_prefix
has_prefix-length s [] h = omega arith
has_prefix-length [] (c ∷ p) h = cc
has_prefix-length (d ∷ s) (c ∷ p) h =
    let rest = has_prefix-length s p (ground (arith, h)) in omega (arith, rest)

pub map-some :
    (o : Option ℕ) (i : ℕ)
    → Option.map suc o ≡ some i
    → (P : ℕ → Type 0) → ((j : ℕ) → o ≡ some j → P (suc j))
    → P i
map-some none i h P f = cc
map-some (some j) i h P f = let e : suc j ≡ i = cc in subst P e (f j refl)

pub index-length : (s p : Bytes) (i : ℕ) → index s p ≡ some i → i + length p ≤ length s
unfolding index
index-length [] p i h =
    if_split (λ o. o ≡ some i → i + length p ≤ 0) (has_prefix [] p)
      (λ e h'.
        let zero' : 0 ≡ i = cc in
        let short = has_prefix-length [] p e in omega (arith, short, zero'))
      (λ e h'. cc) h
index-length (c ∷ s) p i h =
    if_split (λ o. o ≡ some i → i + length p ≤ suc (length s)) (has_prefix (c ∷ s) p)
      (λ e h'.
        let zero' : 0 ≡ i = cc in
        let short = has_prefix-length (c ∷ s) p e in omega (arith, short, zero'))
      (λ e h'.
        map-some (index s p) i h' (λ k. k + length p ≤ suc (length s))
          λ j found. let later = index-length s p j found in omega (arith, later))
      h

-- What is behind the place is shorter than the text, and as the pattern is not empty, by at least one.
cut-length : (s p a b : Bytes) → 1 ≤ length p → cut s p ≡ some (a, b) → suc (length b) ≤ length s
unfolding cut
cut-length s p a b positive e = behind (index s p) refl e
  where
    behind :
        (o : Option ℕ)
        → index s p ≡ o
        → Option.map {B = Bytes × Bytes} (λ i. (take i s, drop (i + length p) s)) o ≡ some (a, b)
        → suc (length b) ≤ length s
    behind none found e' = cc
    behind (some i) found e' =
        let same : drop (i + length p) s ≡ b = cc in
        let bound = index-length s p i found in
        let dropped = length-drop (i + length p) s in
        let size : length (drop (i + length p) s) ≡ length b = ap length same in
        omega (arith, bound, dropped, size, positive)

-- Behind a first cut a second one, in a text that is no longer.
both-length :
    (o : Option (Bytes × Bytes)) (p piece rest : Bytes) (n : ℕ)
    → 1 ≤ length p
    → ((a b : Bytes) → o ≡ some (a, b) → length b ≤ n)
    → and_then o (λ (_, inner). cut inner p) ≡ some (piece, rest)
    → suc (length rest) ≤ n
unfolding and_then
both-length none p piece rest n positive first e = cc
both-length (some (a, b)) p piece rest n positive first e =
    let inner = first a b refl in
    let outer = cut-length b p piece rest positive e in omega (arith, inner, outer)

next_row-Shortens : Shortens next_row
unfolding next_row
next_row-Shortens s piece rest e =
    both-length (cut s (codes "<tr>")) (codes "</tr>") piece rest (length s) (omega arith)
      (λ a b e'.
        let shorter = cut-length s (codes "<tr>") a b (omega arith) e' in omega (arith, shorter))
      e

next_cell-Shortens : Shortens next_cell
unfolding next_cell content
next_cell-Shortens s piece rest e = from (index s (codes "<td")) e
  where
    from :
        (o : Option ℕ)
        → and_then o
            (λ i. and_then (cut (drop i s) (codes ">")) (λ (_, inner). cut inner (codes "</td>")))
          ≡ some (piece, rest)
        → suc (length rest) ≤ length s
    from none e' = unfold and_then in cc
    from (some i) e' =
        both-length (cut (drop i s) (codes ">")) (codes "</td>") piece rest (length s) (omega arith)
          (λ a b found.
            let shorter = cut-length (drop i s) (codes ">") a b (omega arith) found in
            let dropped = length-drop i s in omega (arith, shorter, dropped))
          e'

-- The loop over the cells of a row takes one after the other until there is none.
pub extract_cells-Runs : (row : Bytes) → Runs next_cell row (extract_cells row)
extract_cells-Runs row =
    unfold extract_cells in pieces-Runs next_cell next_cell-Shortens (length row) row (omega arith)

-- The loop over the rows of a table takes one after the other until there is none.
pub rows-Runs : (table : Bytes) → Runs next_row table (pieces next_row (length table) table)
rows-Runs table = pieces-Runs next_row next_row-Shortens (length table) table (omega arith)
