-- ===== src/Extractor/Contests.antt =====
-- GenerateContestID of internal/extractor/contest.go, and what the parsers of the platforms' answers
-- use of Go's packages. Times are Unix seconds; a number of Go is the bit pattern of its int64.
use contest_sync.Common.{
  ℕ, ◌^◌, ◌<◌, ◌≡◌, ◌≢◌, refl, sym, ap₂, ◌∙◌, ◌==◌, ◌↔◌, Bool, true, ◌||◌, Option, none, some, List,
  [], ◌∷◌, ◌++◌, Bytes, bytes_eq, itoa, itoa-injective, itoa64, ltb, if◌then◌else◌, All, arith,
}
use contest_sync.World.Models.{Contest}

unfoldable pub generate_contest_id : Bytes → ℕ → Bytes
unfolding itoa64
generate_contest_id platform start_time = platform ++ (b'_' ∷ itoa64 start_time)

-- float64, time.Parse by its three layouts as Unix seconds, strconv.Atoi (the number, whatever the
-- error is), strings.TrimSpace, and url.Parse as scheme and host
pub record Formats : Type 1 where
  pub Float : Type 0
  pub to_int : Float → ℕ
  pub of_int : ℕ → Float
  pub plus : Float → Float → Float
  pub minus : Float → Float → Float
  pub less : Float → Float → Bool
  -- Duration.Seconds() of a number of nanoseconds
  pub seconds : ℕ → Float
  -- "%.0f"
  pub whole : Float → Bytes
  pub parse_rfc3339 : Bytes → Option ℕ
  -- "2006-01-02T15:04:05"
  pub parse_local : Bytes → Option ℕ
  -- "20060102T1504"
  pub parse_compact : Bytes → Option ℕ
  pub atoi : Bytes → ℕ
  pub trim_space : Bytes → Bytes
  pub parse_url : Bytes → Option (Bytes × Bytes)
  -- time.Now().Unix()
  pub now : ℕ

-- A contest with its duration
abbrev pub Entry : Type 0
Entry = Contest × ℕ

-- a loop that appends, or goes on with `continue`
unfoldable pub collect {ℓ} : {A : Type ℓ} → (A → Option Entry) → List A → List Entry
collect f [] = []
collect f (a ∷ rest) = elim (f a) [ none ↦ collect f rest | some c ↦ c ∷ collect f rest ]

-- strings.HasSuffix, the suffix second
unfoldable pub has_suffix : Bytes → Bytes → Bool
has_suffix [] p = bytes_eq [] p
has_suffix (c ∷ s) p = bytes_eq (c ∷ s) p || has_suffix s p

-- strings.Replace of the first occurrence of a byte
unfoldable pub replace_first : Bytes → ℕ → Bytes → Bytes
replace_first [] old new = []
replace_first (c ∷ s) old new =
    let rest = replace_first s old new in if c == old then new ++ s else c ∷ rest

-- A platform's name has no underscore, so the first one of an id ends it.
abbrev pub IsName : Bytes → Type 0
IsName = All (λ c. c ≢ b'_')

split-name :
    (p q s t : Bytes) → IsName p → IsName q → p ++ (b'_' ∷ s) ≡ q ++ (b'_' ∷ t) → (p ≡ q) × (s ≡ t)
split-name [] [] s t np nq e = (refl, cc)
split-name [] (d ∷ q) s t np (nd, nq) e = absurd (nd (cc))
split-name (c ∷ p) [] s t (nc, np) nq e = absurd (nc (cc))
split-name (c ∷ p) (d ∷ q) s t (nc, np) (nd, nq) e =
    let heads : c ≡ d = cc in
    let (names, rest) = split-name p q s t np nq (cc) in (ap₂ (λ x l. x ∷ l) heads names, rest)

-- For names with no underscore and times that are not negative, two contests have the same id exactly
-- if they are of one platform and start in the same second, whatever else differs between them.
pub generate_contest_id_lem :
    (p q : Bytes) (s t : ℕ)
    → IsName p
    → IsName q
    → s < 2 ^ 63
    → t < 2 ^ 63
    → (generate_contest_id p s ≡ generate_contest_id q t) ↔ ((p ≡ q) × (s ≡ t))
generate_contest_id_lem p q s t np nq hs ht = (same, λ (ep, es). ap₂ generate_contest_id ep es)
  where
    lt : (n : ℕ) → n < 2 ^ 63 → ltb n (2 ^ 63) ≡ true
    lt n h = ground (arith, h)

    plain : (n : ℕ) → n < 2 ^ 63 → itoa64 n ≡ itoa n
    plain n h = unfold itoa64 in rw (lt n h) refl

    same : generate_contest_id p s ≡ generate_contest_id q t → (p ≡ q) × (s ≡ t)
    same e =
        let (names, digits) =
          split-name p q (itoa64 s) (itoa64 t) np nq (unfold generate_contest_id in e) in
        (names, itoa-injective s t (sym (plain s hs) ∙ digits ∙ plain t ht))
