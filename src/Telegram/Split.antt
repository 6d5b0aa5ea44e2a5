-- ===== src/Telegram/Split.antt =====
-- SplitMessage of internal/observability/telegram.go: long messages are cut at line ends.
use contest_sync.Common.{
  ℕ, zero, suc, ◌≤◌, ◌<◌, ◌≡◌, true, Option, none, some, List, [], ◌∷◌, ◌++◌, arith, Bytes, ltb,
  if◌then◌else◌, last_index, length, take, drop, All, take-append-drop, length-take, length-drop,
  Bool-cases, Option-cases, inl, inr, append-nil, ap, ◌∙◌,
}
use mathlib.Core.List.{flatten}
use mathlib.Core.Option

-- The cut: behind the text up to the last line end, but never empty.
cut_at : Bytes → ℕ → ℕ
cut_at text limit = elim (last_index (take limit text) b'\n') [
  | none ↦ limit
  | some zero ↦ 1
  | some (suc i) ↦ suc i
]

-- `for len(text) > limit` on fuel; `none` means that the fuel ran out.
split_loop : ℕ → Bytes → ℕ → Option (List Bytes)
unfolding cut_at
split_loop zero text limit = none
split_loop (suc f) text limit =
    let idx = cut_at text limit in
    let rest = split_loop f (drop idx text) limit in
    if ltb limit (length text)
    then Option.map (λ chunks. take idx text ∷ chunks) rest
    else some (text ∷ [])

-- Each round takes a byte away at least, so the text's length is fuel enough.
unfoldable pub split_message : Bytes → ℕ → Option (List Bytes)
unfolding split_loop
split_message text limit = split_loop (suc (length text)) text limit

last_index-lt : (s : Bytes) (b : ℕ) {i : ℕ} → last_index s b ≡ some i → i < length s
unfolding last_index
last_index-lt [] b h = cc
last_index-lt (c ∷ s) b {i} h = elim (Option-cases (last_index s b)) [
  | inl e ↦ ground arith
  | inr (j, e) ↦ ground (arith, last_index-lt s b e)
]

cut_at_bounds :
    (text : Bytes) (limit : ℕ) → 0 < limit → (0 < cut_at text limit) × (cut_at text limit ≤ limit)
unfolding cut_at
cut_at_bounds text limit h = elim (Option-cases (last_index (take limit text) b'\n')) [
  | inl e ↦ rw (e, cut_at) (omega arith)
  | inr (zero, e) ↦ rw (e, cut_at) (omega arith)
  | inr (suc i, e) ↦
      rw (e, cut_at)
        (omega (arith, last_index-lt (take limit text) b'\n' e, length-take limit text))
]

pub record IsSplit (text : Bytes) (limit : ℕ) (chunks : List Bytes) : Type 0 where
  pub whole : flatten chunks ≡ text
  pub fits : All (λ c. length c ≤ limit) chunks

split_loop_long :
    (f : ℕ) (text : Bytes) (limit : ℕ) (chunks : List Bytes)
    → ltb limit (length text) ≡ true
    → split_loop f (drop (cut_at text limit) text) limit ≡ some chunks
    → split_loop (suc f) text limit ≡ some (take (cut_at text limit) text ∷ chunks)
split_loop_long f text limit chunks long e = unfold split_loop in rw (long, e)

IsSplit-cons :
    (n : ℕ) (text : Bytes) (limit : ℕ) (chunks : List Bytes)
    → n ≤ limit
    → IsSplit (drop n text) limit chunks
    → IsSplit text limit (take n text ∷ chunks)
unfolding flatten
IsSplit-cons n text limit chunks le s = record {
  whole = ap (λ t. take n text ++ t) s.whole ∙ take-append-drop n text;
  fits = (omega (arith, length-take n text), s.fits);
}

split_loop_total :
    (f : ℕ) (text : Bytes) (limit : ℕ)
    → 0 < limit
    → length text < f
    → (chunks : List Bytes) × (split_loop f text limit ≡ some chunks) × IsSplit text limit chunks
split_loop_total zero text limit pos fuel = absurd (omega arith)
split_loop_total (suc f) text limit pos fuel = elim (Bool-cases (ltb limit (length text))) [
  | inr short ↦ (
    text ∷ [],
    (unfold split_loop in rw short),
    record { whole = (unfold flatten in append-nil text); fits = ground arith },
  )
  | inl long ↦
      let n : ℕ = cut_at text limit in
      let (positive, small) = cut_at_bounds text limit pos in
      let (chunks, e, s) =
        split_loop_total f (drop n text) limit pos (ground (arith, length-drop n text)) in
      (
        take n text ∷ chunks,
        split_loop_long f text limit chunks long e,
        IsSplit-cons n text limit chunks small s,
      )
]

-- With a positive limit the loop ends, the chunks put together are the text, and none is longer
-- than the limit.
pub split_message_total :
    (text : Bytes) (limit : ℕ)
    → 0 < limit
    → (chunks : List Bytes) × (split_message text limit ≡ some chunks) × IsSplit text limit chunks
unfolding split_message
split_message_total text limit pos =
    split_loop_total (suc (length text)) text limit pos (omega arith)
