-- ===== src/Web/Preferences/Changed.antt =====
-- The test for a change in SavePreferences: the map of counts decides whether two lists are
-- permutations of each other.
use contest_sync.Common.{
  ℕ, zero, suc, ◌+◌, ◌≡◌, ◌≢◌, ◌↔◌, refl, sym, ap, ◌∙◌, Bool, true, false, ◌||◌, List, [], ◌∷◌,
  Bytes, bytes_eq, bytes_eq→eq, bytes_eq_refl, bytes_eq_iff, if◌then◌else◌, length, arith,
  Bool-cases, inl, inr,
}
use mathlib.Core.Logic.{ite}
use mathlib.Core.List
use mathlib.Core.Nat as M
use mathlib.Core.List.Perm
use mathlib.Core.List.{Perm, perm_iff_count}
use native.Mathlib.Bridge.{from_ℕ, to_ℕ, to_ℕ-from_ℕ}
use contest_sync.Web.Calls.{ℤ, pos, negsuc}
use contest_sync.Web.Preferences.{
  increase, decrease, is_zero, Counts, change, change_all, some_nonzero, same_flag, changed,
}

-- the value of a key
abbrev value_of : Bytes → Counts → ℤ
value_of p [] = pos 0
value_of p ((k, v) ∷ m) = if bytes_eq k p then v else value_of p m

-- a - b
abbrev minus : ℕ → ℕ → ℤ
minus a zero = pos a
minus zero (suc b) = negsuc b
minus (suc a) (suc b) = minus a b

increase-minus : (a b : ℕ) → increase (minus a b) ≡ minus (suc a) b
unfolding increase
increase-minus a zero = refl
increase-minus zero (suc zero) = refl
increase-minus zero (suc (suc b)) = refl
increase-minus (suc a) (suc b) = increase-minus a b

decrease-minus : (a b : ℕ) → decrease (minus a b) ≡ minus a (suc b)
unfolding decrease
decrease-minus zero zero = refl
decrease-minus (suc a) zero = refl
decrease-minus zero (suc b) = refl
decrease-minus (suc a) (suc b) = decrease-minus a b

is_zero-minus : (a b : ℕ) → (is_zero (minus a b) ≡ true) ↔ (a ≡ b)
is_zero-minus zero zero = (λ _. refl, λ _. refl)
is_zero-minus (suc a) zero = ground arith
is_zero-minus zero (suc b) = ground arith
is_zero-minus (suc a) (suc b) =
    let (there, back) = is_zero-minus a b in (λ h. ap suc (there h), λ h. back (omega (arith, h)))

-- how often an item stands in a list
abbrev pub count : Bytes → List Bytes → ℕ
count p [] = 0
count p (x ∷ xs) = (if bytes_eq x p then 1 else 0) + count p xs

value_of-change :
    (f : ℤ → ℤ) (p j : Bytes) (m : Counts)
    → value_of j (change f p m) ≡ (if bytes_eq p j then f (value_of j m) else value_of j m)
unfolding change
value_of-change f p j [] = refl
value_of-change f p j ((k, v) ∷ m) =
    ground (arith, bytes_eq_iff k p, bytes_eq_iff p j, bytes_eq_iff k j, value_of-change f p j m)

value_of-increase :
    (ps : List Bytes) (m : Counts) (j : Bytes) (a b : ℕ)
    → value_of j m ≡ minus a b
    → value_of j (change_all increase ps m) ≡ minus (count j ps + a) b
unfolding change_all
value_of-increase [] m j a b h = h ∙ ap (λ n. minus n b) (omega arith)
value_of-increase (p ∷ ps) m j a b h = elim (Bool-cases (bytes_eq p j)) [
  | inl e ↦
      value_of-increase ps (change increase p m) j (suc a) b
        (value_of-change increase p j m ∙ rw e (ap increase h ∙ increase-minus a b))
      ∙ ap (λ n. minus n b) (rw e (omega arith))
  | inr e ↦
      value_of-increase ps (change increase p m) j a b (value_of-change increase p j m ∙ rw e h)
      ∙ ap (λ n. minus n b) (rw e (omega arith))
]

value_of-decrease :
    (ps : List Bytes) (m : Counts) (j : Bytes) (a b : ℕ)
    → value_of j m ≡ minus a b
    → value_of j (change_all decrease ps m) ≡ minus a (count j ps + b)
unfolding change_all
value_of-decrease [] m j a b h = h ∙ ap (λ n. minus a n) (omega arith)
value_of-decrease (p ∷ ps) m j a b h = elim (Bool-cases (bytes_eq p j)) [
  | inl e ↦
      value_of-decrease ps (change decrease p m) j a (suc b)
        (value_of-change decrease p j m ∙ rw e (ap decrease h ∙ decrease-minus a b))
      ∙ ap (λ n. minus a n) (rw e (omega arith))
  | inr e ↦
      value_of-decrease ps (change decrease p m) j a b (value_of-change decrease p j m ∙ rw e h)
      ∙ ap (λ n. minus a n) (rw e (omega arith))
]

-- The map holds a key once.
abbrev has_key : Bytes → Counts → Bool
has_key p [] = false
has_key p ((k, v) ∷ m) = bytes_eq k p || has_key p m

abbrev IsMap : Counts → Type 0
IsMap [] = Unit
IsMap ((k, v) ∷ m) = (has_key k m ≡ false) × IsMap m

has_key-change :
    (f : ℤ → ℤ) (p j : Bytes) (m : Counts)
    → has_key j (change f p m) ≡ (bytes_eq p j || has_key j m)
unfolding change
has_key-change f p j [] = refl
has_key-change f p j ((k, v) ∷ m) =
    ground (arith, bytes_eq_iff k p, bytes_eq_iff p j, bytes_eq_iff k j, has_key-change f p j m)

IsMap-change : (f : ℤ → ℤ) (p : Bytes) (m : Counts) → IsMap m → IsMap (change f p m)
unfolding change
IsMap-change f p [] h = (refl, tt)
IsMap-change f p ((k, v) ∷ m) (fresh, h) = elim (Bool-cases (bytes_eq k p)) [
  | inl e ↦ rw e (fresh, h)
  | inr ne ↦ rw ne (
    has_key-change f p k m ∙ ground (arith, bytes_eq_iff k p, bytes_eq_iff p k),
    IsMap-change f p m h,
  )
]

IsMap-change_all : (f : ℤ → ℤ) (ps : List Bytes) (m : Counts) → IsMap m → IsMap (change_all f ps m)
unfolding change_all
IsMap-change_all f [] m h = h
IsMap-change_all f (p ∷ ps) m h = IsMap-change_all f ps (change f p m) (IsMap-change f p m h)

value_of-absent : (p : Bytes) (m : Counts) → has_key p m ≡ false → value_of p m ≡ pos 0
value_of-absent p [] h = refl
value_of-absent p ((k, v) ∷ m) h = ground (arith, value_of-absent p m)

-- the loop over the values finds one that is not zero
zeros : (m : Counts) → some_nonzero m ≡ false → (j : Bytes) → is_zero (value_of j m) ≡ true
unfolding some_nonzero
zeros [] h j = refl
zeros ((k, v) ∷ m) h j = ground (arith, zeros m (ground (arith, h)) j)

all_zero :
    (m : Counts) → IsMap m → ((j : Bytes) → is_zero (value_of j m) ≡ true) → some_nonzero m ≡ false
unfolding some_nonzero
all_zero [] d h = refl
all_zero ((k, v) ∷ m) (fresh, d) h =
    let here : is_zero v ≡ true = rw (bytes_eq_refl k) at (h k) in
    rw here (
      all_zero m d λ j. elim (Bool-cases (bytes_eq k j)) [
        | inl e ↦ ap is_zero (value_of-absent j m (rw (bytes_eq→eq k j e) at fresh))
        | inr ne ↦ rw ne at (h j)
      ])

counts_iff :
    (ps current : List Bytes)
    → (some_nonzero (change_all decrease ps (change_all increase current [])) ≡ false)
      ↔ ((p : Bytes) → count p ps ≡ count p current)
counts_iff ps current = (
  λ h p.
      let same =
        (is_zero-minus (count p current + 0) (count p ps + 0)).0
          (sym (ap is_zero (final p)) ∙ zeros m h p) in
      omega (arith, same),
  λ h. all_zero m (IsMap-change_all decrease ps _ (IsMap-change_all increase current [] tt)) λ p.
      ap is_zero (final p)
      ∙ (is_zero-minus (count p current + 0) (count p ps + 0)).1 (omega (arith, h p)),
)
  where
    m : Counts
    m = change_all decrease ps (change_all increase current [])

    final : (p : Bytes) → value_of p m ≡ minus (count p current + 0) (count p ps + 0)
    final p =
        value_of-decrease ps (change_all increase current []) p (count p current + 0) 0
          (value_of-increase current [] p 0 0 refl)

differ : (s t : Bytes) → bytes_eq s t ≡ false → s ≢ t
differ s t e p = ground (arith, bytes_eq_iff s t)

-- equality of texts as a decision
abbrev bytes_dec_by : (s t : Bytes) (b : Bool) → bytes_eq s t ≡ b → Dec (s ≡ t)
bytes_dec_by s t true e = yes (bytes_eq→eq s t e)
bytes_dec_by s t false e = no (λ p. differ s t e p)

abbrev bytes_dec : (s t : Bytes) → Dec (s ≡ t)
bytes_dec s t = bytes_dec_by s t (bytes_eq s t) refl

from_ite :
    (s t : Bytes) (b : Bool) (e : bytes_eq s t ≡ b) (n : M.ℕ)
    → from_ℕ (ite {C = M.ℕ} (bytes_dec_by s t b e) (M.suc n) n) ≡ (if b then 1 else 0) + from_ℕ n
from_ite s t true e n = omega arith
from_ite s t false e n = omega arith

from_count : (p : Bytes) (xs : List Bytes) → from_ℕ (List.count bytes_dec p xs) ≡ count p xs
from_count p [] = refl
from_count p (x ∷ xs) =
    from_ite x p (bytes_eq x p) refl (List.count bytes_dec p xs)
    ∙ ap (λ n. (if bytes_eq x p then 1 else 0) + n) (from_count p xs)

from_length : (xs : List Bytes) → from_ℕ (List.length xs) ≡ length xs
from_length [] = refl
from_length (x ∷ xs) = ap suc (from_length xs)

from_injective : (m n : M.ℕ) → from_ℕ m ≡ from_ℕ n → m ≡ n
from_injective m n h = sym (to_ℕ-from_ℕ m) ∙ ap to_ℕ h ∙ to_ℕ-from_ℕ n

Perm-count : (xs ys : List Bytes) → Perm xs ys ↔ ((p : Bytes) → count p xs ≡ count p ys)
Perm-count xs ys = (
  λ h p. sym (from_count p xs) ∙ ap from_ℕ ((perm_iff_count bytes_dec).0 h p) ∙ from_count p ys,
  λ h.
      (perm_iff_count bytes_dec).1
        λ p. from_injective _ _ (from_count p xs ∙ h p ∙ sym (from_count p ys)),
)

length-Perm : (xs ys : List Bytes) → Perm xs ys → length xs ≡ length ys
length-Perm xs ys h = sym (from_length xs) ∙ ap from_ℕ (Perm.length-eq h) ∙ from_length ys

same_flag_iff : (a b : Bool) → (same_flag a b ≡ true) ↔ (a ≡ b)
same_flag_iff a b = ground arith

-- SavePreferences finds no change exactly if the flag is the same and the platforms of the request
-- are a permutation of the current ones.
pub changed-Perm :
    (ps : List Bytes) (dedicated : Bool) (current : List Bytes) (current_dedicated : Bool)
    → (changed ps dedicated current current_dedicated ≡ false)
      ↔ ((dedicated ≡ current_dedicated) × Perm ps current)
unfolding changed
changed-Perm ps d current cd = (
  λ h. (
    ground (arith, h),
    (Perm-count ps current).1 ((counts_iff ps current).0 (ground (arith, h))),
  ),
  λ (e, h).
      let size = length-Perm ps current h in
      let zero_counts = (counts_iff ps current).1 ((Perm-count ps current).0 h) in
      ground (arith, e, size, zero_counts),
)
