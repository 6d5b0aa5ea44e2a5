-- ===== src/Extractor/Named.antt =====
-- What the contests of one answer have in common.
use contest_sync.Common.{
  ℕ, ◌≡◌, refl, false, Option, none, some, List, [], ◌∷◌, Bytes, codes, is_empty, bytes_eq, lt64,
  length, if_split, ◌||◌, not, arith, ◌≢◌,
}
use contest_sync.World.Models.{Result, ok, err}
use contest_sync.Extractor.Contests.{Formats, Entry, collect, generate_contest_id}
use contest_sync.Extractor.Atcoder.{
  and_then, pieces, extract_cells, extract_href, extract_href_text, next_row, find_table,
  strip_tags, start_of, duration_of, cells_contest, atcoder,
}
use contest_sync.Extractor.Json.{
  Listed, some_empty, codechef, codechef_contest, geeksforgeeks, geeksforgeeks_contest,
  is_hackerrank, hackerrank, hackerrank_contest, Codeforces, codeforces, codeforces_contest,
  Leetcode, leetcode, leetcode_contest, leetcode_data, Code360, code360, code360_contest,
}
use contest_sync.Extractor.Collected.{
  IsOf, Lasts, Links, Starts, HasName, Each, Maybe, collect-All, with_data-Each, between-Maybe,
  is_hackerrank_sound,
}

is_empty_sound : (s : Bytes) → is_empty s ≡ false → s ≢ []
unfolding is_empty
is_empty_sound [] h = cc
is_empty_sound (c ∷ s) h = λ e. cc

named : (c : Listed) → some_empty c ≡ false → c.name ≢ []
named c h = is_empty_sound c.name (ground (arith, h))

module _ (F : Formats) where
  codechef-Each :
      (answer : Result (List Listed)) → Each (Lasts (codes "codechef")) (codechef F answer)
  unfolding codechef codechef_contest generate_contest_id
  codechef-Each answer = with_data-Each (Lasts (codes "codechef")) (codechef_contest F) each answer
    where
      each : (c : Listed) → Maybe (Lasts (codes "codechef")) (codechef_contest F c)
      each c =
          if_split (Maybe (Lasts (codes "codechef"))) (some_empty c) (λ e. tt)
            λ e.
              between-Maybe (Lasts (codes "codechef")) _ _ _ _ _
                (λ s t. ((refl, refl), named c e, refl))

  geeksforgeeks-Each :
      (answer : Result (List Listed))
      → Each (Lasts (codes "geeksforgeeks")) (geeksforgeeks F answer)
  unfolding geeksforgeeks geeksforgeeks_contest generate_contest_id
  geeksforgeeks-Each answer =
      with_data-Each (Lasts (codes "geeksforgeeks")) (geeksforgeeks_contest F) each answer
    where
      each : (c : Listed) → Maybe (Lasts (codes "geeksforgeeks")) (geeksforgeeks_contest F c)
      each c =
          if_split (Maybe (Lasts (codes "geeksforgeeks"))) (some_empty c) (λ e. tt)
            λ e.
              between-Maybe (Lasts (codes "geeksforgeeks")) _ _ _ _ _
                (λ s t. ((refl, refl), named c e, refl))

  hackerrank-Each : (answer : Result (List Listed)) → Each (Links F) (hackerrank F answer)
  unfolding hackerrank hackerrank_contest generate_contest_id
  hackerrank-Each answer = with_data-Each (Links F) (hackerrank_contest F) each answer
    where
      each : (c : Listed) → Maybe (Links F) (hackerrank_contest F c)
      each c =
          if_split (Maybe (Links F)) (some_empty c) (λ e. tt)
            λ e.
              if_split (Maybe (Links F)) (is_hackerrank F (F.parse_url c.link))
                (λ u.
                  between-Maybe (Links F) _ _ _ _ _
                    (λ s t. (((refl, refl), named c e, refl), is_hackerrank_sound F c.link u)))
                (λ u. tt)

  codeforces-Each :
      (answer : Result (Bytes × List (Codeforces F))) → Each (Starts F) (codeforces F answer)
  unfolding codeforces codeforces_contest generate_contest_id
  codeforces-Each (err e) = tt
  codeforces-Each (ok (status, cs)) =
      if_split (Each (Starts F)) (bytes_eq status (codes "OK"))
        (λ e. collect-All (Starts F) (codeforces_contest F) each cs) (λ e. tt)
    where
      each : (c : Codeforces F) → Maybe (Starts F) (codeforces_contest F c)
      each c =
          if_split (Maybe (Starts F))
            (not (bytes_eq c.phase (codes "BEFORE")) || lt64 (F.to_int c.start) F.now) (λ e. tt)
            (λ e. ((refl, refl), ground (arith, e), refl))

  leetcode-Each :
      (answer : Result (List Bytes × List (Leetcode F)))
      → Each (IsOf (codes "leetcode")) (leetcode F answer)
  unfolding leetcode leetcode_data leetcode_contest generate_contest_id
  leetcode-Each (err e) = tt
  leetcode-Each (ok (message ∷ more, cs)) = tt
  leetcode-Each (ok ([], cs)) = collect-All (IsOf (codes "leetcode")) (leetcode_contest F) each cs
    where
      each : (c : Leetcode F) → Maybe (IsOf (codes "leetcode")) (leetcode_contest F c)
      each c =
          if_split (Maybe (IsOf (codes "leetcode")))
            (F.less (F.plus c.start c.duration) (F.of_int F.now)) (λ e. tt) (λ e. (refl, refl))

  code360-Each :
      (answer : Result (List (Code360 F))) → Each (IsOf (codes "code360")) (code360 F answer)
  unfolding code360 code360_contest generate_contest_id
  code360-Each answer = with_data-Each (IsOf (codes "code360")) (code360_contest F) each answer
    where
      each : (c : Code360 F) → Maybe (IsOf (codes "code360")) (code360_contest F c)
      each c =
          if_split (Maybe (IsOf (codes "code360")))
            (F.less c.registration_end (F.of_int F.now) || (is_empty c.name || is_empty c.slug))
            (λ e. tt) (λ e. (refl, refl))

  cells_contest-Maybe : (cells : List Bytes) → Maybe HasName (cells_contest F cells)
  unfolding cells_contest and_then generate_contest_id
  cells_contest-Maybe [] = tt
  cells_contest-Maybe (a ∷ []) = tt
  cells_contest-Maybe (a ∷ b ∷ []) = tt
  cells_contest-Maybe (a ∷ b ∷ c ∷ more) =
      if_split (Maybe HasName) (is_empty (extract_href a)) (λ e. tt)
        λ e. chained (start_of F (extract_href a)) _ λ start.
          chained (duration_of F (strip_tags F c)) _ λ duration.
            if_split (Maybe HasName) (is_empty (strip_tags F (extract_href_text b))) (λ e'. tt)
              (λ e'. ((refl, refl), is_empty_sound (strip_tags F (extract_href_text b)) e'))
    where
      chained :
          (o : Option ℕ) (f : ℕ → Option Entry)
          → ((n : ℕ) → Maybe HasName (f n))
          → Maybe HasName (and_then o f)
      chained none f h = tt
      chained (some n) f h = h n

  atcoder-Each : (page : Result Bytes) → Each HasName (atcoder F page)
  unfolding atcoder
  atcoder-Each (err e) = tt
  atcoder-Each (ok html) = found (find_table html)
    where
      found :
          (r : Result Bytes)
          → Each HasName (elim r [
            | err e ↦ err e
            | ok table ↦ ok (
                collect
                  (λ row. cells_contest F (extract_cells row))
                  (pieces next_row (length table) table))
          ])
      found (err e) = tt
      found (ok table) =
          collect-All HasName (λ row. cells_contest F (extract_cells row))
            (λ row. cells_contest-Maybe (extract_cells row)) (pieces next_row (length table) table)

  -- Every contest that a parser gives is of its platform, and its id is the platform's name, an
  -- underscore and the decimal of its start. Those of CodeChef, GeeksforGeeks and HackerRank have a
  -- name and the duration from start to end, those of HackerRank a link that parses as one of the
  -- scheme https to a host that ends in hackerrank.com; those of AtCoder have a name, and those of
  -- Codeforces have not started and end at start and duration.
  pub fetchers-Each :
      (listed : Result (List Listed)) (cf : Result (Bytes × List (Codeforces F)))
      (lc : Result (List Bytes × List (Leetcode F))) (events : Result (List (Code360 F)))
      (page : Result Bytes)
      → Each (Lasts (codes "codechef")) (codechef F listed)
        × Each (Lasts (codes "geeksforgeeks")) (geeksforgeeks F listed)
        × Each (Links F) (hackerrank F listed)
        × Each (Starts F) (codeforces F cf)
        × Each (IsOf (codes "leetcode")) (leetcode F lc)
        × Each (IsOf (codes "code360")) (code360 F events)
        × Each HasName (atcoder F page)
  fetchers-Each listed cf lc events page = (
    codechef-Each listed,
    geeksforgeeks-Each listed,
    hackerrank-Each listed,
    codeforces-Each cf,
    leetcode-Each lc,
    code360-Each events,
    atcoder-Each page,
  )
