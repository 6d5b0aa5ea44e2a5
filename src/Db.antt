-- ===== src/Db.antt =====
-- internal/db/db.go: the pools of the database, and ReadDB, which takes the read pools in turn.
pub mod Opened
use contest_sync.Common.{
  ℕ, zero, suc, ◌+◌, ◌%◌, ◌^◌, ◌<◌, ◌≡◌, ◌≢◌, refl, Option, none, some, List, [], ◌∷◌, Bytes,
  is_empty, trim_space, length, get_elem?, arith, if◌then◌else◌, ap, ◌∙◌,
}

-- A `P` stands for a *pgxpool.Pool; the counter is a uint64.
pub record Pools (P : Type 0) : Type 0 where
  pub write : P
  pub reads : List P
  pub read_idx : ℕ

module _ {P : Type 0} where
  abbrev pub next_index : Pools P → Pools P
  next_index p = record p { read_idx = (p.read_idx + 1) % 2 ^ 64 }

  -- behind the test for read pools; `none` is an index out of range
  abbrev pub read_of : Pools P → List P → Option P × Pools P
  read_of p [] = (some p.write, p)
  read_of p (r ∷ rs) = (get_elem? (r ∷ rs) (p.read_idx % length (r ∷ rs)), next_index p)

  -- ReadDB
  unfoldable pub read_db : Pools P → Option P × Pools P
  read_db p = read_of p p.reads

  -- the pool that the call number i gives, counted from zero
  unfoldable pub pick : ℕ → Pools P → Option P
  pick zero p = (read_db p).0
  pick (suc i) p = pick i (read_db p).1

  abbrev pub keep : Option P → List P → List P
  keep none ps = ps
  keep (some p) ps = p ∷ ps

  -- The loop of Init over the read URLs, with newPool, which gives a pool or an error.
  unfoldable pub connected_reads : (Bytes → Option P) → List Bytes → List P
  connected_reads new_pool [] = []
  connected_reads new_pool (url ∷ urls) =
      let rest = connected_reads new_pool urls in
      if is_empty (trim_space url) then rest else keep (new_pool (trim_space url)) rest

  -- Init with a write pool that connects, from `strings.Split(readURLsRaw, ",")` on
  unfoldable pub init : (Bytes → Option P) → P → List Bytes → Pools P
  unfolding connected_reads
  init new_pool w urls = record { write = w; reads = connected_reads new_pool urls; read_idx = 0 }

  read_of_lem :
      (p : Pools P) (rs : List P)
      → rs ≢ []
      → read_of p rs ≡ (get_elem? rs (p.read_idx % length rs), next_index p)
  read_of_lem p [] h = absurd (h refl)
  read_of_lem p (r ∷ rs) h = refl

  -- With read pools, and until the counter wraps around, the calls of ReadDB take the pools in turn.
  pub pick-get_elem? :
      (i : ℕ) (p : Pools P)
      → p.reads ≢ []
      → p.read_idx + i < 2 ^ 64
      → pick i p ≡ get_elem? p.reads ((p.read_idx + i) % length p.reads)
  unfolding pick read_db
  pick-get_elem? zero p some_reads fits =
      ap (λ r. r.0) (read_of_lem p p.reads some_reads)
      ∙ ap (λ n. get_elem? p.reads (n % length p.reads)) (omega arith)
  pick-get_elem? (suc i) p some_reads fits =
      ap (λ r. pick i r.1) (read_of_lem p p.reads some_reads)
      ∙ pick-get_elem? i (next_index p) some_reads (omega (arith, fits))
      ∙ ap (λ n. get_elem? p.reads (n % length p.reads)) (omega (arith, fits))

  index-lt : (rs : List P) (n : ℕ) → n < length rs → get_elem? rs n ≢ none
  index-lt [] n h = absurd (omega (arith, h))
  index-lt (r ∷ rs) zero h = λ e. ground arith
  index-lt (r ∷ rs) (suc n) h = index-lt rs n (omega (arith, h))

  -- ReadDB never reads out of range: it always gives a pool, and it leaves the pools as they are.
  pub read_db_total :
      (p : Pools P)
      → ((read_db p).0 ≢ none) × ((read_db p).1.reads ≡ p.reads) × ((read_db p).1.write ≡ p.write)
  unfolding read_db
  read_db_total p = given p.reads
    where
      given :
          (rs : List P)
          → ((read_of p rs).0 ≢ none)
            × ((read_of p rs).1.reads ≡ p.reads)
            × ((read_of p rs).1.write ≡ p.write)
      given [] = (λ e. ground arith, refl, refl)
      given (r ∷ rs) = (index-lt (r ∷ rs) _ (omega arith), refl, refl)
