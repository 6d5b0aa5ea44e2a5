-- ===== src/Telegram/Utf8.antt =====
-- strings.ToValidUTF8(text, ""), which EscapeHTML of internal/observability/telegram.go calls first:
-- the bytes that start no well-formed code point are dropped.
use contest_sync.Common.{
  ℕ, zero, suc, ◌≡◌, refl, Bool, true, false, ◌&&◌, [], ◌∷◌, Bytes, ltb, leb, ◌==◌, if◌then◌else◌,
}

abbrev within : ℕ → ℕ → ℕ → Bool
within lo hi c = leb lo c && leb c hi

-- The `n` bytes from here on are continuation bytes.
unfoldable pub continues : ℕ → Bytes → Bool
continues zero s = true
continues (suc n) [] = false
continues (suc n) (c ∷ s) = within 0x80 0xBF c && continues n s

-- As `continues`, with bounds of its own for the first byte.
unfoldable pub second : ℕ → ℕ → ℕ → Bytes → Bool
second lo hi n [] = false
second lo hi n (c ∷ s) = within lo hi c && continues n s

-- The width of the code point with first byte `c`, or 0 if it is malformed.
unfoldable pub width : ℕ → Bytes → ℕ
unfolding continues second
width c s =
    if ltb c 0x80
    then 1
    else if within 0xC2 0xDF c && continues 1 s
    then 2
    else if (c == 0xE0) && second 0xA0 0xBF 1 s
    then 3
    else if (c == 0xED) && second 0x80 0x9F 1 s
    then 3
    else if within 0xE1 0xEF c && not_surrogate c && continues 2 s
    then 3
    else if (c == 0xF0) && second 0x90 0xBF 2 s
    then 4
    else if (c == 0xF4) && second 0x80 0x8F 2 s
    then 4
    else if within 0xF1 0xF3 c && continues 3 s
    then 4
    else 0
  where
    not_surrogate : ℕ → Bool
    not_surrogate b = if b == 0xED then false else true

-- The first argument counts the bytes of the current code point that are still to be copied.
copy : ℕ → Bytes → Bytes
copy n [] = []
copy (suc n) (c ∷ s) = c ∷ copy n s
copy zero (c ∷ s) = elim (width c s) [ zero ↦ copy zero s | suc n ↦ c ∷ copy n s ]

unfoldable pub to_valid_utf8 : Bytes → Bytes
unfolding copy width
to_valid_utf8 s = copy 0 s

broken :
    to_valid_utf8 (b'a' ∷ 0xC3 ∷ b'b' ∷ 0xE2 ∷ 0x82 ∷ 0xAC ∷ [])
    ≡ b'a' ∷ b'b' ∷ 0xE2 ∷ 0x82 ∷ 0xAC ∷ []
unfolding to_valid_utf8
broken = refl
