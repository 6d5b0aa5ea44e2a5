-- ===== src/Db/Opened.antt =====
-- newPool, Init and Close of internal/db/db.go: which pools are made, kept and closed. Pools are
-- numbered as pgxpool.NewWithConfig makes them.
use contest_sync.Common.{
  ℕ, suc, ◌+◌, ◌≡◌, Option, none, some, List, [], ◌∷◌, ◌++◌, Bytes, codes, is_empty, trim_space,
  length, if◌then◌else◌,
}
use contest_sync.World.Models.{Err, Result, ok, err}
use contest_sync.Auth.{plain_error}
use contest_sync.Db.{Pools}

-- How newPool gets on with a DSN: it does not parse, the pool cannot be made, the database does not
-- answer the ping, or it does.
pub data Connect : Type 0 where
  bad_dsn no_pool unreachable : Err → Connect
  reached : Connect

-- newPool, where `n` pools were made before
unfoldable pub new_pool : Connect → ℕ → Result ℕ
new_pool (bad_dsn e) n = err (plain_error (codes "unable to parse DSN: " ++ e.text))
new_pool (no_pool e) n = err (plain_error (codes "unable to create pool: " ++ e.text))
new_pool (unreachable e) n = err (plain_error (codes "unable to reach database: " ++ e.text))
new_pool reached n = ok n

-- the pools that are made behind it; none is closed
unfoldable pub made : Connect → ℕ → ℕ
made (bad_dsn e) n = n
made (no_pool e) n = n
made (unreachable e) n = suc n
made reached n = suc n

-- What Init has done with the read URLs: the read pools, the replicas that it skips with a warning,
-- and the number of pools made.
pub record Opened : Type 0 where
  pub reads : List ℕ
  pub skipped : List Connect
  pub count : ℕ

abbrev pub with_pool : Connect → Result ℕ → Opened → Opened
with_pool c (ok p) o = record o { reads = p ∷ o.reads }
with_pool c (err e) o = record o { skipped = c ∷ o.skipped }

abbrev pub with_replica : Option Connect → ℕ → Opened → Opened
with_replica none n o = o
with_replica (some c) n o = with_pool c (new_pool c n) o

abbrev pub made_by : Option Connect → ℕ → ℕ
made_by none n = n
made_by (some c) n = made c n

module _ (dials : ℕ → Bytes → Connect) where
  -- an empty URL is left out
  unfoldable pub replica : ℕ → Bytes → Option Connect
  replica n url = if is_empty (trim_space url) then none else some (dials n (trim_space url))

  -- the loop over `strings.Split(readURLsRaw, ",")`
  unfoldable pub open_reads : ℕ → List Bytes → Opened
  unfolding replica made new_pool
  open_reads n [] = record { reads = []; skipped = []; count = n }
  open_reads n (url ∷ urls) =
      with_replica (replica n url) n (open_reads (made_by (replica n url) n) urls)

  abbrev pub pools_of : Result ℕ → Opened → Result (Pools ℕ × Opened)
  pools_of (err e) o = err (plain_error (codes "write pool: " ++ e.text))
  pools_of (ok w) o = ok (record { write = w; reads = o.reads; read_idx = 0 }, o)

  -- Init; no read URLs are an empty list.
  unfoldable pub init_pools : Bytes → List Bytes → Result (Pools ℕ × Opened)
  unfolding new_pool made open_reads
  init_pools write_url urls =
      if is_empty write_url
      then err (plain_error (codes "POSTGRES_DB environment variable is not set"))
      else pools_of (new_pool (dials 0 write_url) 0) (open_reads (made (dials 0 write_url) 0) urls)

-- Close
unfoldable pub close_pools : Pools ℕ → List ℕ
close_pools p = p.write ∷ p.reads

-- the replicas that did not answer the ping
abbrev pub unanswered : List Connect → ℕ
unanswered [] = 0
unanswered (unreachable e ∷ rest) = 1 + unanswered rest
unanswered (_ ∷ rest) = unanswered rest

-- From the pool numbered by the first argument to the one before the last argument, each is made for a
-- URL at its turn: those of the first list for databases that answer, those of the second list for
-- databases that do not answer the ping. No pool is in both lists, nor twice in one.
pub data Shared (dials : ℕ → Bytes → Connect) : ℕ → List ℕ → List ℕ → ℕ → Type 0 where
  all_made : {m : ℕ} → Shared dials m [] [] m
  answered :
      {n m : ℕ} {kept left : List ℕ} (url : Bytes)
      → dials n url ≡ reached
      → Shared dials (suc n) kept left m
      → Shared dials n (n ∷ kept) left m
  mute :
      {n m : ℕ} {kept left : List ℕ} (url : Bytes) (e : Err)
      → dials n url ≡ unreachable e
      → Shared dials (suc n) kept left m
      → Shared dials n kept (n ∷ left) m

-- The read pools and the pools that are left share what is made from `n` on.
abbrev Shares : (ℕ → Bytes → Connect) → ℕ → Opened → Type 0
Shares dials n o =
    (left : List ℕ) × Shared dials n o.reads left o.count × (length left ≡ unanswered o.skipped)
