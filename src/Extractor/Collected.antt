-- ===== src/Extractor/Collected.antt =====
-- What may hold of each contest of an answer, and the loops that collect them.
use contest_sync.Common.{
  ℕ, ◌≡◌, true, false, Option, none, some, List, [], ◌∷◌, Bytes, codes, arith, Bool, ◌||◌, ◌++◌,
  ◌≢◌, refl, ap, ◌∙◌, bytes_eq, bytes_eq→eq, itoa64, add64, sub64, lt64, All,
}
use contest_sync.World.Models.{Result, ok, err}
use contest_sync.Extractor.Contests.{Formats, Entry, collect, has_suffix}
use contest_sync.Extractor.Json.{contest, between, with_data, is_hackerrank}

-- A contest of the platform, whose id is the platform's name, an underscore and the digits of its
-- start.
abbrev pub IsOf : Bytes → Entry → Type 0
IsOf platform (c, duration) =
    (c.platform ≡ platform) × (c.id ≡ platform ++ (b'_' ∷ itoa64 c.start_time))

-- A contest of the platform that has a name and lasts from its start to its end.
abbrev pub Lasts : Bytes → Entry → Type 0
Lasts platform (c, duration) =
    IsOf platform (c, duration) × (c.name ≢ []) × (duration ≡ sub64 c.end_time c.start_time)

-- The URL parses as one of the scheme https to a host that ends in hackerrank.com.
abbrev pub IsHackerrank : Formats → Bytes → Type 0
IsHackerrank F url =
    (host : Bytes) × (front : Bytes) × (F.parse_url url ≡ some (codes "https", host))
    × (host ≡ front ++ codes "hackerrank.com")

abbrev pub Links : Formats → Entry → Type 0
Links F (c, duration) = Lasts (codes "hackerrank") (c, duration) × IsHackerrank F c.url

has_suffix-append : (s p : Bytes) → has_suffix s p ≡ true → (front : Bytes) × (s ≡ front ++ p)
unfolding has_suffix
has_suffix-append [] p h = ([], bytes_eq→eq [] p h)
has_suffix-append (c ∷ s) p h = found (bytes_eq (c ∷ s) p) refl (has_suffix-append s p) h
  where
    found :
        (b : Bool)
        → bytes_eq (c ∷ s) p ≡ b
        → (has_suffix s p ≡ true → (front : Bytes) × (s ≡ front ++ p))
        → (b || has_suffix s p) ≡ true
        → (front : Bytes) × (c ∷ s ≡ front ++ p)
    found true e behind h' = ([], bytes_eq→eq (c ∷ s) p e)
    found false e behind h' = let rest = behind h' in (c ∷ rest.0, ap (λ t. c ∷ t) rest.1)

pub is_hackerrank_sound :
    (F : Formats) (url : Bytes) → is_hackerrank F (F.parse_url url) ≡ true → IsHackerrank F url
is_hackerrank_sound F url = parsed (F.parse_url url) refl
  where
    parsed :
        (o : Option (Bytes × Bytes))
        → F.parse_url url ≡ o
        → is_hackerrank F o ≡ true
        → IsHackerrank F url
    parsed none e h = unfold is_hackerrank in absurd (cc)
    parsed (some (scheme, host)) e h =
        let both : (bytes_eq scheme (codes "https") ≡ true)
            × (has_suffix host (codes "hackerrank.com") ≡ true) =
          unfold is_hackerrank in ground arith in
        let ends = has_suffix-append host (codes "hackerrank.com") both.1 in
        (
          host,
          ends.0,
          e ∙ ap (λ x. some (x, host)) (bytes_eq→eq scheme (codes "https") both.0),
          ends.1,
        )

-- a contest that has not started before the answer is read, and ends at start and duration
abbrev pub Starts : Formats → Entry → Type 0
Starts F (c, duration) =
    IsOf (codes "codeforces") (c, duration)
    × (lt64 c.start_time F.now ≡ false)
    × (c.end_time ≡ add64 c.start_time duration)

-- a contest of AtCoder that has a name
abbrev pub HasName : Entry → Type 0
HasName (c, duration) = IsOf (codes "atcoder") (c, duration) × (c.name ≢ [])

abbrev pub Each : (Entry → Type 0) → Result (List Entry) → Type 0
Each P (ok es) = All P es
Each P (err e) = Unit

abbrev pub Maybe : (Entry → Type 0) → Option Entry → Type 0
Maybe P none = Unit
Maybe P (some e) = P e

module _ {ℓ} {A : Type ℓ} (P : Entry → Type 0) (f : A → Option Entry)
    (each : (a : A) → Maybe P (f a)) where
  pub collect-All : (rows : List A) → All P (collect f rows)
  unfolding collect
  collect-All [] = tt
  collect-All (a ∷ rest) = put (f a) (each a) (collect f rest) (collect-All rest)
    where
      put :
          (o : Option Entry)
          → Maybe P o
          → (es : List Entry) → All P es
          → All P (elim o [ none ↦ es | some c ↦ c ∷ es ])
      put none u es all = all
      put (some c) h es all = (h, all)

  pub with_data-Each :
      (answer : Result (List A)) → Each P (with_data answer (λ rows. ok (collect f rows)))
  with_data-Each (ok rows) = collect-All rows
  with_data-Each (err e) = tt

pub between-Maybe :
    (P : Entry → Type 0) (platform name url : Bytes) (start finish : Option ℕ)
    → ((s t : ℕ) → P (contest platform name url s t (sub64 t s)))
    → Maybe P (between platform name url start finish)
between-Maybe P platform name url (some s) (some t) made = made s t
between-Maybe P platform name url (some s) none made = tt
between-Maybe P platform name url none finish made = tt
