-- ===== src/Examples/Extracting.antt =====
-- The parsers on small answers.
use contest_sync.Common.{
  ℕ, ◌≡◌, refl, ◌↔◌, some, List, [], ◌∷◌, Bytes, codes, index, has_prefix, ltb, ◌+◌, ◌-◌, arith,
}
use contest_sync.World.Models.{ok}
use contest_sync.Extractor.Contests.{Formats, generate_contest_id, generate_contest_id_lem}
use contest_sync.Extractor.Json.{
  Listed, codechef, geeksforgeeks, hackerrank, codeforces, leetcode, code360, Codeforces, Leetcode,
  Code360,
}
use contest_sync.Extractor.Atcoder.{atcoder, extract_cells}
use contest_sync.Extractor.Collected.{Each, Lasts, Links, Starts, IsOf, HasName}
use contest_sync.Extractor.Named.{fetchers-Each}
use contest_sync.Extractor.Atcoder.Rendered.{Cell, render, extract_cells-render}

abbrev noon : ℕ
noon = 1700000000

generate_contest_id_lem_example :
    (generate_contest_id (codes "leetcode") noon ≡ generate_contest_id (codes "codechef") noon)
    ↔ ((codes "leetcode" ≡ codes "codechef") × (noon ≡ noon))
generate_contest_id_lem_example =
    generate_contest_id_lem (codes "leetcode") (codes "codechef") noon noon (ground arith)
      (ground arith) (omega arith) (omega arith)

-- whole numbers for float64
abbrev formats : Formats
formats = record {
  Float = ℕ;
  to_int = λ x. x;
  of_int = λ n. n;
  plus = λ x y. x + y;
  minus = λ x y. x - y;
  less = ltb;
  seconds = λ d. d;
  whole = λ x. codes "1";
  parse_rfc3339 = λ s. some 1700000000;
  parse_local = λ s. some 1700000000;
  parse_compact = λ s. some 1700000000;
  atoi = λ s. 2;
  trim_space = λ s. s;
  parse_url = λ s. some (codes "https", codes "www.hackerrank.com");
  now = 1600000000;
}

abbrev listed : Listed
listed = record {
  name = codes "Starters";
  link = codes "START1";
  start = codes "2026-01-01T00:00:00Z";
  finish = codes "2026-01-01T02:00:00Z";
}

abbrev round : Codeforces formats
round = record {
  id = 1;
  name = codes "Round 1";
  phase = codes "BEFORE";
  start = 1700000000;
  duration = 7200;
}

abbrev weekly : Leetcode formats
weekly = record {
  title = codes "Weekly";
  title_slug = codes "weekly";
  start = 1700000000;
  duration = 5400;
}

abbrev event : Code360 formats
event = record {
  name = codes "Weekend";
  slug = codes "weekend";
  registration_end = 1700000000;
  event_start = 1700000000;
  event_end = 1700007200;
}

abbrev page : Bytes
page = codes "<tbody></tbody><tbody><tr><td>no</td></tr></tbody>"

fetchers-Each_example :
    Each (Lasts (codes "codechef")) (codechef formats (ok (listed ∷ [])))
    × Each (Lasts (codes "geeksforgeeks")) (geeksforgeeks formats (ok (listed ∷ [])))
    × Each (Links formats) (hackerrank formats (ok (listed ∷ [])))
    × Each (Starts formats) (codeforces formats (ok (codes "OK", round ∷ [])))
    × Each (IsOf (codes "leetcode")) (leetcode formats (ok ([], weekly ∷ [])))
    × Each (IsOf (codes "code360")) (code360 formats (ok (event ∷ [])))
    × Each HasName (atcoder formats (ok page))
fetchers-Each_example =
    fetchers-Each formats (ok (listed ∷ [])) (ok (codes "OK", round ∷ [])) (ok ([], weekly ∷ []))
      (ok (event ∷ [])) (ok page)

abbrev cells : List Cell
cells =
    record { gap = codes " "; attributes = codes " class=x"; inside = codes "<a href=y>ABC</a>" }
    ∷ record { gap = []; attributes = []; inside = codes "01:40" }
    ∷ []

extract_cells-render_example :
    extract_cells (render cells []) ≡ codes "<a href=y>ABC</a>" ∷ codes "01:40" ∷ []
unfolding index has_prefix
extract_cells-render_example =
    extract_cells-render cells []
      (((λ e. omega (arith, e), tt), ground arith, refl), ((tt, tt, refl), tt)) tt
