-- ===== src/Extractor/Atcoder/Rendered.antt =====
-- extractCells of internal/extractor/atcoder.go on the cells of a well-formed row.
use mathlib.Core.Option
use contest_sync.Common.{
  ℕ, suc, ◌+◌, ◌≤◌, ◌≡◌, ◌≢◌, refl, sym, ap, ap₂, ◌∙◌, Bool-cases, inl, inr, true, false, ◌&&◌,
  ◌==◌, ==_iff, Option, none, some, List, [], ◌∷◌, ◌++◌, Bytes, codes, index, has_prefix, length,
  drop, map, All, length-append, take-length-append, drop-length-append, append_assoc, arith,
  if◌then◌else◌,
}
use contest_sync.Extractor.Atcoder.{cut, and_then, content, next_cell, extract_cells}
use contest_sync.Extractor.Atcoder.Cells.{
  Runs, map-some, ended, taken, Runs-unique, has_prefix-length, index-length, extract_cells-Runs,
}

-- A cell, with what is before it in the row and the attributes in its tag.
pub record Cell : Type 0 where
  pub gap : Bytes
  pub attributes : Bytes
  pub inside : Bytes

abbrev pub render : List Cell → Bytes → Bytes
render [] tail = tail
render (c ∷ rest) tail =
    c.gap
    ++ (codes "<td"
        ++ (c.attributes ++ (codes ">" ++ (c.inside ++ (codes "</td>" ++ render rest tail)))))

-- Before the cell there is no tag, in its attributes no ">", and what is inside does not end before
-- it ends.
abbrev pub IsCell : Cell → Type 0
IsCell c =
    All (λ b. b ≢ b'<') c.gap
    × All (λ b. b ≢ b'>') c.attributes
    × (index (c.inside ++ codes "</td>") (codes "</td>") ≡ some (length c.inside))

has_prefix-differs : (c d : ℕ) (s p : Bytes) → d ≢ c → has_prefix (d ∷ s) (c ∷ p) ≡ false
unfolding has_prefix
has_prefix-differs c d s p h = elim (Bool-cases (d == c)) [
  | inl e ↦ absurd (h ((==_iff d c).0 e))
  | inr e ↦ ap (λ b. b && has_prefix s p) e
]

has_prefix_self : (p s : Bytes) → has_prefix (p ++ s) p ≡ true
unfolding has_prefix
has_prefix_self [] s = refl
has_prefix_self (c ∷ p) s = ground (arith, has_prefix_self p s)

-- The first place of a pattern that begins with `c` is not before the first `c`.
index-behind :
    (g s : Bytes) (c : ℕ) (p : Bytes)
    → All (λ b. b ≢ c) g
    → has_prefix s (c ∷ p) ≡ true
    → index (g ++ s) (c ∷ p) ≡ some (length g)
unfolding index
index-behind [] [] c p free h = ap (λ b. if b then some 0 else none) h
index-behind [] (d ∷ s) c p free h =
    ap (λ b. if b then some 0 else Option.map suc (index s (c ∷ p))) h
index-behind (d ∷ g) s c p (differs, free) h =
    rw (has_prefix-differs c d (g ++ s) p differs)
      (ap (Option.map suc) (index-behind g s c p free h))

index-absent : (g : Bytes) (c : ℕ) (p : Bytes) → All (λ b. b ≢ c) g → index g (c ∷ p) ≡ none
unfolding index has_prefix
index-absent [] c p free = refl
index-absent (d ∷ g) c p (differs, free) =
    rw (has_prefix-differs c d g p differs) (ap (Option.map suc) (index-absent g c p free))

has_prefix-append : (s r p : Bytes) → length p ≤ length s → has_prefix (s ++ r) p ≡ has_prefix s p
unfolding has_prefix
has_prefix-append s r [] h = refl
has_prefix-append [] r (c ∷ p) h = absurd (omega (arith, h))
has_prefix-append (d ∷ s) r (c ∷ p) h =
    ap (λ b. (d == c) && b) (has_prefix-append s r p (omega (arith, h)))

-- A place that is found stays the first one if the text goes on.
index-append : (s r p : Bytes) (i : ℕ) → index s p ≡ some i → index (s ++ r) p ≡ some i
unfolding index
index-append [] [] [] i h = h
index-append [] (d ∷ r) [] i h = h
index-append (d ∷ s) r [] i h = h
index-append [] r (c ∷ p) i h = cc
index-append (d ∷ s) r (c ∷ p) i h = elim (Bool-cases (has_prefix (d ∷ s) (c ∷ p))) [
  | inl e ↦
      let longer : has_prefix (d ∷ (s ++ r)) (c ∷ p) ≡ true =
        has_prefix-append (d ∷ s) r (c ∷ p) (has_prefix-length (d ∷ s) (c ∷ p) e) ∙ e in
      ap (λ b. if b then some 0 else Option.map suc (index (s ++ r) (c ∷ p))) longer
      ∙ sym (ap (λ b. if b then some 0 else Option.map suc (index s (c ∷ p))) e)
      ∙ h
  | inr e ↦
      let shown : Option.map suc (index s (c ∷ p)) ≡ some i =
        sym (ap (λ b. if b then some 0 else Option.map suc (index s (c ∷ p))) e) ∙ h in
      map-some (index s (c ∷ p)) i shown (λ k. index (d ∷ (s ++ r)) (c ∷ p) ≡ some k)
        λ j found.
          let room = index-length s (c ∷ p) j found in
          let longer : has_prefix (d ∷ (s ++ r)) (c ∷ p) ≡ false =
            has_prefix-append (d ∷ s) r (c ∷ p) (omega (arith, room)) ∙ e in
          ap (λ b. if b then some 0 else Option.map suc (index (s ++ r) (c ∷ p))) longer
          ∙ ap (Option.map suc) (index-append s r (c ∷ p) j found)
]

cut_lem :
    (a p b : Bytes)
    → index (a ++ (p ++ b)) p ≡ some (length a)
    → cut (a ++ (p ++ b)) p ≡ some (a, b)
unfolding cut
cut_lem a p b h =
    let behind : drop (length a + length p) (a ++ (p ++ b)) ≡ b =
      ap₂ drop (sym (length-append a p)) (sym (append_assoc a p b))
      ∙ drop-length-append (a ++ p) b in
    rw h (ap some (ap₂ (λ x y. (x, y)) (take-length-append a (p ++ b)) behind))

-- The first cell of a text that begins with a cell.
next_cell-render :
    (c : Cell) (rest : List Cell) (tail : Bytes)
    → IsCell c
    → next_cell (render (c ∷ rest) tail) ≡ some (c.inside, render rest tail)
unfolding next_cell content and_then
next_cell-render c rest tail (no_tag, no_end, inside) =
    let behind : Bytes = render rest tail in
    let inner : Bytes = c.inside ++ (codes "</td>" ++ behind) in
    let tag : Bytes = codes "<td" ++ (c.attributes ++ (codes ">" ++ inner)) in
    let close : Bytes × Bytes → Option (Bytes × Bytes) = λ (_, t). cut t (codes "</td>") in
    let body : ℕ → Option (Bytes × Bytes) =
      λ i. and_then (cut (drop i (c.gap ++ tag)) (codes ">")) close in
    let opened : cut tag (codes ">") ≡ some (codes "<td" ++ c.attributes, inner) =
      cut_lem (codes "<td" ++ c.attributes) (codes ">") inner (
        index-behind (codes "<td" ++ c.attributes) (codes ">" ++ inner) b'>' []
          (λ e. omega (arith, e), (λ e. omega (arith, e), (λ e. omega (arith, e), no_end)))
          (has_prefix_self (codes ">") inner)) in
    let closed : cut inner (codes "</td>") ≡ some (c.inside, behind) =
      cut_lem c.inside (codes "</td>") behind (
        ap (λ t. index t (codes "</td>")) (sym (append_assoc c.inside (codes "</td>") behind))
        ∙ index-append (c.inside ++ codes "</td>") behind (codes "</td>") (length c.inside)
            inside) in
    ap (λ o. and_then o body)
      (index-behind c.gap tag b'<' (codes "td") no_tag (has_prefix_self (codes "<td") _))
    ∙ ap (λ t. and_then (cut t (codes ">")) close) (drop-length-append c.gap tag)
    ∙ ap (λ o. and_then o close) opened
    ∙ closed

next_cell-tail : (tail : Bytes) → All (λ b. b ≢ b'<') tail → next_cell tail ≡ none
unfolding next_cell content and_then
next_cell-tail tail h = rw (index-absent tail b'<' (codes "td") h) refl

render-Runs :
    (cells : List Cell) (tail : Bytes)
    → All IsCell cells
    → All (λ b. b ≢ b'<') tail
    → Runs next_cell (render cells tail) (map (λ c. c.inside) cells)
render-Runs [] tail h free = ended (next_cell-tail tail free)
render-Runs (c ∷ rest) tail (first, h) free =
    taken (next_cell-render c rest tail first) (render-Runs rest tail h free)

-- Of a row of cells, extractCells gives what is inside each, in order, with any attributes without ">"
-- and with anything between the cells that opens no tag.
pub extract_cells-render :
    (cells : List Cell) (tail : Bytes)
    → All IsCell cells
    → All (λ b. b ≢ b'<') tail
    → extract_cells (render cells tail) ≡ map (λ c. c.inside) cells
extract_cells-render cells tail h free =
    Runs-unique next_cell (extract_cells-Runs (render cells tail)) (render-Runs cells tail h free)
