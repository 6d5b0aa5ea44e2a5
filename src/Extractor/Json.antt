-- ===== src/Extractor/Json.antt =====
-- The platforms that answer in JSON: codechef.go, codeforces.go, leetcode.go, hackerrank.go,
-- geeksforgeeks.go and code360.go of internal/extractor. encoding/json gives the structs that the code
-- declares, with the zero value for what is missing.
use contest_sync.Common.{
  ℕ, Bool, false, ◌&&◌, ◌||◌, not, Option, none, some, List, [], ◌∷◌, ◌++◌, Bytes, codes, is_empty,
  bytes_eq, add64, sub64, lt64, if◌then◌else◌,
}
use contest_sync.World.Models.{Result, ok, err}
use contest_sync.Auth.{plain_error}
use contest_sync.Extractor.Contests.{
  Formats, Entry, collect, generate_contest_id, has_suffix, replace_first,
}

-- A contest as the fetchers build it, from its platform, name, URL, start, end and duration.
abbrev pub contest : Bytes → Bytes → Bytes → ℕ → ℕ → ℕ → Entry
contest platform name url start finish duration = (
  record {
    id = generate_contest_id platform start;
    name = name;
    url = url;
    start_time = start;
    end_time = finish;
    platform = platform;
  },
  duration,
)

-- the contest between two times that have been parsed, or `continue`
abbrev pub between : Bytes → Bytes → Bytes → Option ℕ → Option ℕ → Option Entry
between platform name url (some start) (some finish) =
    some (contest platform name url start finish (sub64 finish start))
between platform name url (some start) none = none
between platform name url none finish = none

-- A contest of CodeChef, HackerRank or GeeksforGeeks: its name, its code, slug or URL, and its times.
pub record Listed : Type 0 where
  pub name : Bytes
  pub link : Bytes
  pub start : Bytes
  pub finish : Bytes

abbrev pub or_else : Option ℕ → Option ℕ → Option ℕ
or_else (some t) other = some t
or_else none other = other

abbrev pub some_empty : Listed → Bool
some_empty c = is_empty c.name || (is_empty c.link || (is_empty c.start || is_empty c.finish))

-- behind fetchJSON and json.Unmarshal: either of the two may fail
abbrev pub with_data {ℓ} : {A : Type ℓ} → Result A → (A → Result (List Entry)) → Result (List Entry)
with_data (err e) f = err e
with_data (ok a) f = f a

module _ (F : Formats) where
  open F use {Float}

  unfoldable pub codechef_time : Bytes → Option ℕ
  codechef_time text = or_else (F.parse_rfc3339 text) (F.parse_local text)

  unfoldable pub codechef_contest : Listed → Option Entry
  codechef_contest c =
      if some_empty c
      then none
      else between (codes "codechef") c.name (codes "https://www.codechef.com/" ++ c.link)
          (codechef_time c.start) (codechef_time c.finish)

  unfoldable pub codechef : Result (List Listed) → Result (List Entry)
  codechef answer = with_data answer (λ cs. ok (collect codechef_contest cs))

  unfoldable pub geeksforgeeks_contest : Listed → Option Entry
  geeksforgeeks_contest c =
      if some_empty c
      then none
      else between (codes "geeksforgeeks") c.name
          (codes "https://practice.geeksforgeeks.org/contest/" ++ c.link) (F.parse_local c.start)
          (F.parse_local c.finish)

  unfoldable pub geeksforgeeks : Result (List Listed) → Result (List Entry)
  geeksforgeeks answer = with_data answer (λ cs. ok (collect geeksforgeeks_contest cs))

  unfoldable pub parse_iso : Bytes → Option ℕ
  parse_iso s = F.parse_rfc3339 (replace_first s b'Z' (codes "+00:00"))

  -- `err != nil || parsed.Scheme != "https" || !strings.HasSuffix(…)`, negated
  unfoldable pub is_hackerrank : Option (Bytes × Bytes) → Bool
  is_hackerrank none = false
  is_hackerrank (some (scheme, host)) =
      bytes_eq scheme (codes "https") && has_suffix host (codes "hackerrank.com")

  unfoldable pub hackerrank_contest : Listed → Option Entry
  hackerrank_contest c =
      if some_empty c
      then none
      else if is_hackerrank (F.parse_url c.link)
      then between (codes "hackerrank") c.name c.link (parse_iso c.start) (parse_iso c.finish)
      else none

  unfoldable pub hackerrank : Result (List Listed) → Result (List Entry)
  hackerrank answer = with_data answer (λ cs. ok (collect hackerrank_contest cs))

  -- Codeforces: the status, and the contests
  pub record Codeforces : Type 0 where
    pub id : Float
    pub name : Bytes
    pub phase : Bytes
    pub start : Float
    pub duration : Float

  unfoldable pub codeforces_contest : Codeforces → Option Entry
  codeforces_contest c =
      if not (bytes_eq c.phase (codes "BEFORE")) || lt64 (F.to_int c.start) F.now
      then none
      else some (
          contest (codes "codeforces") c.name
            (codes "https://codeforces.com/contestRegistration/" ++ F.whole c.id) (F.to_int c.start)
            (add64 (F.to_int c.start) (F.to_int c.duration)) (F.to_int c.duration))

  unfoldable pub codeforces : Result (Bytes × List Codeforces) → Result (List Entry)
  codeforces answer = with_data answer λ (status, cs).
      if bytes_eq status (codes "OK")
      then ok (collect codeforces_contest cs)
      else err (plain_error (codes "codeforces: API returned non-OK status"))

  -- LeetCode: the messages of the errors, and the contests
  pub record Leetcode : Type 0 where
    pub title : Bytes
    pub title_slug : Bytes
    pub start : Float
    pub duration : Float

  unfoldable pub leetcode_contest : Leetcode → Option Entry
  leetcode_contest c =
      if F.less (F.plus c.start c.duration) (F.of_int F.now)
      then none
      else some (
          contest (codes "leetcode") c.title (codes "https://leetcode.com/contest/" ++ c.title_slug)
            (F.to_int c.start) (F.to_int (F.plus c.start c.duration)) (F.to_int c.duration))

  unfoldable pub leetcode_data : List Bytes → List Leetcode → Result (List Entry)
  leetcode_data [] cs = ok (collect leetcode_contest cs)
  leetcode_data (message ∷ rest) cs =
      err (plain_error (codes "leetcode graphql error: " ++ message))

  unfoldable pub leetcode : Result (List Bytes × List Leetcode) → Result (List Entry)
  leetcode answer = with_data answer (λ (errors, cs). leetcode_data errors cs)

  -- Code360
  pub record Code360 : Type 0 where
    pub name : Bytes
    pub slug : Bytes
    pub registration_end : Float
    pub event_start : Float
    pub event_end : Float

  unfoldable pub code360_contest : Code360 → Option Entry
  code360_contest e =
      if F.less e.registration_end (F.of_int F.now) || (is_empty e.name || is_empty e.slug)
      then none
      else some (
          contest (codes "code360") e.name
            (codes "https://www.naukri.com/code360/contests/" ++ e.slug) (F.to_int e.event_start)
            (F.to_int e.event_end) (F.to_int (F.minus e.event_end e.event_start)))

  unfoldable pub code360 : Result (List Code360) → Result (List Entry)
  code360 answer = with_data answer (λ es. ok (collect code360_contest es))
