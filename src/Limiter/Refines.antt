-- ===== src/Limiter/Refines.antt =====
-- The limiter with its shared map and its sweeps answers each address as its own window would.
use contest_sync.Common.{
  ℕ, ◌≤◌, ◌≡◌, refl, sym, ap, ap₂, ◌∙◌, Bool, false, Option, none, some, List, [], ◌∷◌, arith,
  Bytes, ltb, if◌then◌else◌, bytes_eq, bytes_eq_iff, bytes_eq→eq, bytes_eq_refl, Bool-cases, inl,
  inr,
}
use contest_sync.Limiter.{IpLimit, Counters, lookup, insert, sweep, clean, decide, allow, store}
use contest_sync.Limiter.Window.{request, keep, verdicts}

-- The map holds an address once.
abbrev pub IsMap : Counters → Type 0
IsMap [] = Unit
IsMap ((k, v) ∷ m) = (lookup k m ≡ none) × IsMap m

-- What a window is worth at `now`: a window that is over is as good as none.
unfoldable pub live : ℕ → Option IpLimit → Option IpLimit
live now none = none
live now (some v) = if ltb v.reset_time now then none else some v

lookup-insert :
    (k j : Bytes) (v : IpLimit) (m : Counters)
    → lookup j (insert k v m) ≡ (if bytes_eq k j then some v else lookup j m)
unfolding lookup insert
lookup-insert k j v [] = refl
lookup-insert k j v ((i, w) ∷ m) =
    ground (arith, bytes_eq_iff k j, bytes_eq_iff i k, bytes_eq_iff i j, lookup-insert k j v m)

-- The sweep of the entry `(k, v)` in front of `m`, with the rest of the map swept.
lookup-sweep :
    (now : ℕ) (ip : Bytes) (m : Counters)
    → IsMap m
    → lookup ip (sweep now m) ≡ live now (lookup ip m)
unfolding lookup sweep live
lookup-sweep now ip [] h = refl
lookup-sweep now ip ((k, v) ∷ m) (fresh, h) = elim (Bool-cases (bytes_eq k ip)) [
  | inr ne ↦ rw ne (ground (arith, lookup-sweep now ip m h))
  | inl e ↦
      let gone : lookup ip m ≡ none = rw (bytes_eq→eq k ip e) at fresh in
      ground (arith, lookup-sweep now ip m h)
]

none-live : (now : ℕ) {o : Option IpLimit} → o ≡ none → live now o ≡ none
unfolding live
none-live now e = rw e

IsMap-insert : (k : Bytes) (v : IpLimit) (m : Counters) → IsMap m → IsMap (insert k v m)
unfolding insert
IsMap-insert k v [] h = unfold lookup in (refl, tt)
IsMap-insert k v ((i, w) ∷ m) (fresh, h) = elim (Bool-cases (bytes_eq i k)) [
  | inl e ↦ rw e (fresh, h)
  | inr ne ↦ rw ne (
    lookup-insert k i v m ∙ ground (arith, bytes_eq_iff k i, bytes_eq_iff i k),
    IsMap-insert k v m h,
  )
]

IsMap-sweep : (now : ℕ) (m : Counters) → IsMap m → IsMap (sweep now m)
unfolding sweep
IsMap-sweep now [] h = tt
IsMap-sweep now ((k, v) ∷ m) (fresh, h) = elim (Bool-cases (ltb v.reset_time now)) [
  | inl old ↦ rw old (IsMap-sweep now m h)
  | inr kept ↦ rw kept (lookup-sweep now k m h ∙ none-live now fresh, IsMap-sweep now m h)
]

IsMap-clean : (now : ℕ) (m : Counters) → IsMap m → IsMap (clean now m)
unfolding clean
IsMap-clean now m h = ground (arith, IsMap-sweep now m h)

live-lookup-clean :
    (now t : ℕ) (ip : Bytes) (m : Counters)
    → IsMap m
    → now ≤ t
    → live t (lookup ip (clean now m)) ≡ live t (lookup ip m)
unfolding clean live
live-lookup-clean now t ip m h le = ground (arith, lookup-sweep now ip m h)

IsMap-store : (ip : Bytes) (o : Option IpLimit) (m : Counters) → IsMap m → IsMap (store ip o m)
unfolding store
IsMap-store ip none m h = h
IsMap-store ip (some v) m h = IsMap-insert ip v m h

-- The map of the limiter keeps each address at most once.
pub allow-IsMap :
    (ip : Bytes) (max duration now : ℕ) (l : Counters)
    → IsMap l
    → IsMap (allow ip max duration now l).1
unfolding allow
allow-IsMap ip max duration now l h = IsMap-store ip _ (clean now l) (IsMap-clean now l h)

decide-live :
    (max duration now : ℕ) (o : Option IpLimit)
    → decide max duration now (live now o) ≡ decide max duration now o
unfolding decide live
decide-live max duration now o = ground arith

lookup-store :
    (ip j : Bytes) (o : Option IpLimit) (m : Counters)
    → lookup j (store ip o m) ≡ (if bytes_eq ip j then keep (lookup j m) o else lookup j m)
unfolding store
lookup-store ip j none m = ground arith
lookup-store ip j (some v) m = lookup-insert ip j v m

live_later :
    (now t : ℕ) (a b : Option IpLimit) → now ≤ t → live now a ≡ live now b → live t a ≡ live t b
live_later now t a b le h = live-live now t a le ∙ ap (live t) h ∙ sym (live-live now t b le)
  where
    live-live : (now t : ℕ) (o : Option IpLimit) → now ≤ t → live t o ≡ live t (live now o)
    live-live now t o le = unfold live in ground arith

live-keep :
    (now : ℕ) (a b v : Option IpLimit)
    → live now a ≡ live now b
    → live now (keep a v) ≡ live now (keep b v)
live-keep now a b none h = h
live-keep now a b (some v) h = refl

-- Requests of any addresses, each with its time, none before `now` and none before the one ahead.
abbrev pub Ordered : ℕ → List (Bytes × ℕ) → Type 0
Ordered now [] = Unit
Ordered now ((k, t) ∷ r) = (now ≤ t) × Ordered t r

-- The answers that the limiter gives to the requests of `ip` among all requests.
unfoldable pub answers : Bytes → ℕ → ℕ → Counters → List (Bytes × ℕ) → List Bool
answers ip max duration l [] = []
answers ip max duration l ((k, t) ∷ r) =
    let (pass, l') = allow k max duration t l in
    let rest = answers ip max duration l' r in if bytes_eq k ip then pass ∷ rest else rest

unfoldable pub times_of : Bytes → List (Bytes × ℕ) → List ℕ
times_of ip [] = []
times_of ip ((k, t) ∷ r) = let rest = times_of ip r in if bytes_eq k ip then t ∷ rest else rest

module _ (ip : Bytes) (max duration : ℕ) where
  -- the state after a request of another address
  other_address :
      (k : Bytes) (t : ℕ) (l : Counters)
      → IsMap l
      → bytes_eq k ip ≡ false
      → live t (lookup ip (allow k max duration t l).1) ≡ live t (lookup ip l)
  unfolding allow
  other_address k t l h ne =
      ap (live t) (lookup-store k ip _ (clean t l) ∙ rw ne)
      ∙ live-lookup-clean t t ip l h (omega arith)

  same_verdict :
      (t : ℕ) (l : Counters) (w : Option IpLimit)
      → IsMap l
      → live t (lookup ip l) ≡ live t w
      → decide max duration t (lookup ip (clean t l)) ≡ decide max duration t w
  same_verdict t l w h e =
      sym (decide-live max duration t (lookup ip (clean t l)))
      ∙ ap (decide max duration t) (live-lookup-clean t t ip l h (omega arith) ∙ e)
      ∙ decide-live max duration t w

  same_window :
      (t : ℕ) (l : Counters) (w : Option IpLimit)
      → IsMap l
      → live t (lookup ip l) ≡ live t w
      → live t (lookup ip (allow ip max duration t l).1) ≡ live t (request max duration w t).1
  unfolding allow request
  same_window t l w h e =
      ap (live t) (lookup-store ip ip _ (clean t l) ∙ rw (bytes_eq_refl ip))
      ∙ live-keep t (lookup ip (clean t l)) w _ (live-lookup-clean t t ip l h (omega arith) ∙ e)
      ∙ ap (λ d. live t (keep w d.1)) (same_verdict t l w h e)

  same_answer :
      (t : ℕ) (l : Counters) (w : Option IpLimit)
      → IsMap l
      → live t (lookup ip l) ≡ live t w
      → (allow ip max duration t l).0 ≡ (request max duration w t).0
  unfolding allow request
  same_answer t l w h e = ap (λ d. d.0) (same_verdict t l w h e)

  answers-verdicts :
      (reqs : List (Bytes × ℕ)) (now : ℕ) (l : Counters) (w : Option IpLimit)
      → IsMap l
      → Ordered now reqs
      → live now (lookup ip l) ≡ live now w
      → answers ip max duration l reqs ≡ verdicts max duration w (times_of ip reqs)
  unfolding answers times_of verdicts
  answers-verdicts [] now l w h o e = refl
  answers-verdicts ((k, t) ∷ r) now l w h (le, o) e =
      let now_live = live_later now t (lookup ip l) w le e in
      let l' : Counters = (allow k max duration t l).1 in
      let h' = allow-IsMap k max duration t l h in
      elim (Bool-cases (bytes_eq k ip)) [
        | inr ne ↦ rw ne (answers-verdicts r t l' w h' o (other_address k t l h ne ∙ now_live))
        | inl same ↦
            let k_eq : k ≡ ip = bytes_eq→eq k ip same in
            rw (same, k_eq)
              (ap₂ (λ b bs. b ∷ bs) (same_answer t l w h now_live)
                (answers-verdicts r t (allow ip max duration t l).1 (request max duration w t).1
                  (allow-IsMap ip max duration t l h) o (same_window t l w h now_live)))
      ]

-- With requests of any addresses in the order of their times, the limiter that starts with an empty
-- map answers the requests of one address as that address's own window would, whatever the others
-- do and whenever the map is swept.
pub limiter_refines :
    (ip : Bytes) (max duration : ℕ) (reqs : List (Bytes × ℕ))
    → Ordered 0 reqs
    → answers ip max duration [] reqs ≡ verdicts max duration none (times_of ip reqs)
limiter_refines ip max duration reqs o =
    answers-verdicts ip max duration reqs 0 [] none tt o (unfold live lookup in refl)
