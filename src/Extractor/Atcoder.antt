-- ===== src/Extractor/Atcoder.antt =====
-- internal/extractor/atcoder.go: the table of the coming contests on AtCoder's page.
pub mod Cells
pub mod Rendered
use mathlib.Core.Option
use contest_sync.Common.{
  ℕ, zero, suc, ◌+◌, ◌-◌, Bool, true, false, ◌||◌, ◌==◌, Option, none, some, List, [], ◌∷◌, ◌++◌,
  Bytes, codes, index, is_empty, length, take, drop, add64, mul64, floor64, if◌then◌else◌,
}
use contest_sync.World.Models.{Result, ok, err}
use contest_sync.Auth.{plain_error}
use contest_sync.Telegram.Utf8.{width}
use contest_sync.Extractor.Contests.{Formats, Entry, generate_contest_id, collect}

-- `i := strings.Index(s, p)`, and then s[:i] and s[i+len(p):]
unfoldable pub cut : Bytes → Bytes → Option (Bytes × Bytes)
cut s p = Option.map (λ i. (take i s, drop (i + length p) s)) (index s p)

-- `continue`, `break` or an empty result where there is no value
unfoldable pub and_then {ℓ κ} : {A : Type ℓ} {B : Type κ} → Option A → (A → Option B) → Option B
and_then none f = none
and_then (some a) f = f a

-- the text between the end of the tag that begins with `tag` and `close`, and what is behind
unfoldable pub content : Bytes → Bytes → Bytes → Option (Bytes × Bytes)
unfolding and_then cut
content tag close s =
    and_then (index s tag) λ i. and_then (cut (drop i s) (codes ">")) λ (_, inner). cut inner close

-- A loop that takes a piece off the text as long as there is one; the fuel is a bound of the pieces.
unfoldable pub pieces : (Bytes → Option (Bytes × Bytes)) → ℕ → Bytes → List Bytes
pieces next zero s = []
pieces next (suc fuel) s = elim (next s) [
  | none ↦ []
  | some (piece, rest) ↦ piece ∷ pieces next fuel rest
]

unfoldable pub next_cell : Bytes → Option (Bytes × Bytes)
unfolding content
next_cell row = content (codes "<td") (codes "</td>") row

unfoldable pub extract_cells : Bytes → List Bytes
unfolding pieces next_cell
extract_cells row = pieces next_cell (length row) row

unfoldable pub or_empty : Option (Bytes × Bytes) → Bytes
or_empty none = []
or_empty (some (s, rest)) = s

unfoldable pub extract_href : Bytes → Bytes
unfolding or_empty and_then cut
extract_href s =
    or_empty (and_then (cut s (codes "href=" ++ b'"' ∷ [])) (λ (_, rest). cut rest (b'"' ∷ [])))

unfoldable pub extract_href_text : Bytes → Bytes
unfolding or_empty content
extract_href_text s = or_empty (content (codes "<a") (codes "</a>") s)

-- What the loop of stripTags writes for a rune with the first byte `c` and the width `n`, which is 0
-- for a byte that begins none, so the loop sees U+FFFD there.
abbrev written : Bool → ℕ → ℕ → Bytes
written true n c = []
written false zero c = 0xEF ∷ 0xBF ∷ 0xBD ∷ []
written false (suc n) c = c ∷ []

abbrev emitted : Bool → ℕ → ℕ → Bytes
emitted in_tag n c = if (c == b'<') || (c == b'>') then [] else written in_tag n c

abbrev is_in_tag : Bool → ℕ → Bool
is_in_tag in_tag c = if c == b'<' then true else if c == b'>' then false else in_tag

-- the loop, with the bytes of the current rune that are still to come
unfoldable pub strip : Bool → ℕ → Bytes → Bytes
unfolding width
strip in_tag n [] = []
strip in_tag (suc n) (c ∷ s) = (if in_tag then [] else c ∷ []) ++ strip in_tag n s
strip in_tag zero (c ∷ s) =
    emitted in_tag (width c s) c ++ strip (is_in_tag in_tag c) (width c s - 1) s

-- the table: what is between the second "<tbody>" and the "</tbody>" behind it
unfoldable pub find_table : Bytes → Result Bytes
unfolding cut
find_table html = elim (cut html (codes "<tbody>")) [
  | none ↦ err (plain_error (codes "atcoder: no tbody"))
  | some (_, rest) ↦ elim (cut rest (codes "<tbody>")) [
    | none ↦ err (plain_error (codes "atcoder: no contests table"))
    | some (_, table) ↦ elim (cut table (codes "</tbody>")) [
      | none ↦ err (plain_error (codes "atcoder: malformed table"))
      | some (body, _) ↦ ok body
    ]
  ]
]

unfoldable pub next_row : Bytes → Option (Bytes × Bytes)
unfolding and_then cut
next_row table = and_then (cut table (codes "<tr>")) (λ (_, rest). cut rest (codes "</tr>"))

-- what is before the "&", if there is one
unfoldable pub before : Bytes → Bytes → Bytes
unfolding index
before s p = elim (index s p) [ none ↦ s | some i ↦ take i s ]

-- time.Hour, time.Minute and time.Second in nanoseconds
abbrev pub nanos_hour : ℕ
nanos_hour = 3600000000000

abbrev pub nanos_minute : ℕ
nanos_minute = 60000000000

abbrev pub nanos_second : ℕ
nanos_second = 1000000000

module _ (F : Formats) where
  unfoldable pub strip_tags : Bytes → Bytes
  unfolding strip
  strip_tags s = F.trim_space (strip false 0 s)

  -- the time behind "?iso=" in a link
  unfoldable pub start_of : Bytes → Option ℕ
  unfolding and_then cut before
  start_of href =
      and_then (cut href (codes "?iso=")) (λ (_, s). F.parse_compact (before s (codes "&")))

  unfoldable pub duration_of : Bytes → Option ℕ
  unfolding and_then cut
  duration_of text = and_then (cut text (codes ":")) λ (hours, minutes).
      some (add64 (mul64 (F.atoi hours) nanos_hour) (mul64 (F.atoi minutes) nanos_minute))

  abbrev pub built : Bytes → ℕ → ℕ → Bytes → Option Entry
  built href start duration name =
      if is_empty name
      then none
      else some (
        record {
          id = generate_contest_id (codes "atcoder") start;
          name = name;
          url = codes "https://atcoder.jp" ++ href;
          start_time = start;
          end_time = add64 start (floor64 duration nanos_second);
          platform = codes "atcoder";
        },
        F.to_int (F.seconds duration),
      )

  unfoldable pub cells_contest : List Bytes → Option Entry
  unfolding and_then extract_href start_of duration_of strip_tags extract_href_text
  cells_contest (first ∷ title ∷ time ∷ more) =
      if is_empty (extract_href first)
      then none
      else and_then (start_of (extract_href first)) λ start.
        and_then (duration_of (strip_tags time)) λ duration.
          built (extract_href first) start duration (strip_tags (extract_href_text title))
  cells_contest cells = none

  -- FetchAtcoderContests behind fetchPage
  unfoldable pub atcoder : Result Bytes → Result (List Entry)
  unfolding find_table collect cells_contest extract_cells pieces next_row
  atcoder (err e) = err e
  atcoder (ok html) = elim (find_table html) [
    | err e ↦ err e
    | ok table ↦
        ok (
          collect (λ row. cells_contest (extract_cells row)) (pieces next_row (length table) table))
  ]
