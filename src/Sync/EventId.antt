-- ===== src/Sync/EventId.antt =====
-- GenerateDeterministicEventID of internal/sync/sync.go: the MD5 sum of the user and the contest, in
-- the lower case of the base32 alphabet with 0-9 and a-v, which Google Calendar takes as an event id.
use contest_sync.Common.{
  ℕ, ◌+◌, ◌-◌, ◌*◌, ◌/◌, ◌%◌, ◌≤◌, ◌<◌, ◌≡◌, refl, ◌⊎◌, [], ◌∷◌, ◌++◌, arith, Bytes, codes, ltb,
  if◌then◌else◌, length, All,
}

-- encoding/base32: five bytes at a time become eight characters, each of five bits; what is left
-- at the end is filled up with zero bits.
symbol : ℕ → ℕ
symbol v = if ltb v 10 then b'0' + v else b'a' + (v - 10)

-- base32.HexEncoding with no padding, and strings.ToLower of it
unfoldable pub base32_hex : Bytes → Bytes
unfolding symbol
base32_hex [] = []
base32_hex (a ∷ []) = symbol (a / 8) ∷ symbol (a % 8 * 4) ∷ []
base32_hex (a ∷ b ∷ []) =
    symbol (a / 8) ∷ symbol (a % 8 * 4 + b / 64) ∷ symbol (b / 2 % 32) ∷ symbol (b % 2 * 16) ∷ []
base32_hex (a ∷ b ∷ c ∷ []) =
    symbol (a / 8)
    ∷ symbol (a % 8 * 4 + b / 64)
    ∷ symbol (b / 2 % 32)
    ∷ symbol (b % 2 * 16 + c / 16)
    ∷ symbol (c % 16 * 2)
    ∷ []
base32_hex (a ∷ b ∷ c ∷ d ∷ []) =
    symbol (a / 8)
    ∷ symbol (a % 8 * 4 + b / 64)
    ∷ symbol (b / 2 % 32)
    ∷ symbol (b % 2 * 16 + c / 16)
    ∷ symbol (c % 16 * 2 + d / 128)
    ∷ symbol (d / 4 % 32)
    ∷ symbol (d % 4 * 8)
    ∷ []
base32_hex (a ∷ b ∷ c ∷ d ∷ e ∷ rest) =
    symbol (a / 8)
    ∷ symbol (a % 8 * 4 + b / 64)
    ∷ symbol (b / 2 % 32)
    ∷ symbol (b % 2 * 16 + c / 16)
    ∷ symbol (c % 16 * 2 + d / 128)
    ∷ symbol (d / 4 % 32)
    ∷ symbol (d % 4 * 8 + e / 32)
    ∷ symbol (e % 32)
    ∷ base32_hex rest

-- GenerateDeterministicEventID, for the sum `md5`
unfoldable pub deterministic_event_id : (Bytes → Bytes) → Bytes → Bytes → Bytes
unfolding base32_hex
deterministic_event_id md5 google_id contest_id =
    base32_hex (md5 (google_id ++ (codes "_" ++ contest_id)))

rfc4648_foobar : base32_hex (codes "foobar") ≡ codes "cpnmuoj1e8"
unfolding base32_hex
rfc4648_foobar = refl

abbrev pub IsByte : ℕ → Type 0
IsByte c = c < 256

abbrev pub IsIdSymbol : ℕ → Type 0
IsIdSymbol c = ((b'0' ≤ c) × (c ≤ b'9')) ⊎ ((b'a' ≤ c) × (c ≤ b'v'))

symbol-IsIdSymbol : (v : ℕ) → v < 32 → IsIdSymbol (symbol v)
unfolding symbol
symbol-IsIdSymbol v h = ground arith

-- the eight symbols of five bytes, and the rest
block-IsIdSymbol :
    (a b c d e : ℕ) (rest : Bytes)
    → All IsByte (a ∷ b ∷ c ∷ d ∷ e ∷ [])
    → All IsIdSymbol rest
    → All IsIdSymbol (
        symbol (a / 8)
        ∷ symbol (a % 8 * 4 + b / 64)
        ∷ symbol (b / 2 % 32)
        ∷ symbol (b % 2 * 16 + c / 16)
        ∷ symbol (c % 16 * 2 + d / 128)
        ∷ symbol (d / 4 % 32)
        ∷ symbol (d % 4 * 8 + e / 32)
        ∷ symbol (e % 32)
        ∷ rest)
block-IsIdSymbol a b c d e rest h hr = (
  symbol-IsIdSymbol (a / 8) (omega arith),
  (
    symbol-IsIdSymbol (a % 8 * 4 + b / 64) (omega arith),
    (
      symbol-IsIdSymbol (b / 2 % 32) (omega arith),
      (
        symbol-IsIdSymbol (b % 2 * 16 + c / 16) (omega arith),
        (
          symbol-IsIdSymbol (c % 16 * 2 + d / 128) (omega arith),
          (
            symbol-IsIdSymbol (d / 4 % 32) (omega arith),
            (
              symbol-IsIdSymbol (d % 4 * 8 + e / 32) (omega arith),
              (symbol-IsIdSymbol (e % 32) (omega arith), hr),
            ),
          ),
        ),
      ),
    ),
  ),
)

base32_hex-IsIdSymbol : (s : Bytes) → All IsByte s → All IsIdSymbol (base32_hex s)
unfolding base32_hex
base32_hex-IsIdSymbol [] h = tt
base32_hex-IsIdSymbol (a ∷ []) h =
    (symbol-IsIdSymbol (a / 8) (omega arith), (symbol-IsIdSymbol (a % 8 * 4) (omega arith), tt))
base32_hex-IsIdSymbol (a ∷ b ∷ []) h = (
  symbol-IsIdSymbol (a / 8) (omega arith),
  (
    symbol-IsIdSymbol (a % 8 * 4 + b / 64) (omega arith),
    (
      symbol-IsIdSymbol (b / 2 % 32) (omega arith),
      (symbol-IsIdSymbol (b % 2 * 16) (omega arith), tt),
    ),
  ),
)
base32_hex-IsIdSymbol (a ∷ b ∷ c ∷ []) h = (
  symbol-IsIdSymbol (a / 8) (omega arith),
  (
    symbol-IsIdSymbol (a % 8 * 4 + b / 64) (omega arith),
    (
      symbol-IsIdSymbol (b / 2 % 32) (omega arith),
      (
        symbol-IsIdSymbol (b % 2 * 16 + c / 16) (omega arith),
        (symbol-IsIdSymbol (c % 16 * 2) (omega arith), tt),
      ),
    ),
  ),
)
base32_hex-IsIdSymbol (a ∷ b ∷ c ∷ d ∷ []) h = (
  symbol-IsIdSymbol (a / 8) (omega arith),
  (
    symbol-IsIdSymbol (a % 8 * 4 + b / 64) (omega arith),
    (
      symbol-IsIdSymbol (b / 2 % 32) (omega arith),
      (
        symbol-IsIdSymbol (b % 2 * 16 + c / 16) (omega arith),
        (
          symbol-IsIdSymbol (c % 16 * 2 + d / 128) (omega arith),
          (
            symbol-IsIdSymbol (d / 4 % 32) (omega arith),
            (symbol-IsIdSymbol (d % 4 * 8) (omega arith), tt),
          ),
        ),
      ),
    ),
  ),
)
base32_hex-IsIdSymbol (a ∷ b ∷ c ∷ d ∷ e ∷ rest) (ha, (hb, (hc, (hd, (he, h))))) =
    block-IsIdSymbol a b c d e (base32_hex rest) (ha, (hb, (hc, (hd, (he, tt)))))
      (base32_hex-IsIdSymbol rest h)

length-base32_hex : (s : Bytes) → length (base32_hex s) ≡ (8 * length s + 4) / 5
unfolding base32_hex
length-base32_hex [] = refl
length-base32_hex (a ∷ []) = refl
length-base32_hex (a ∷ b ∷ []) = refl
length-base32_hex (a ∷ b ∷ c ∷ []) = refl
length-base32_hex (a ∷ b ∷ c ∷ d ∷ []) = refl
length-base32_hex (a ∷ b ∷ c ∷ d ∷ e ∷ rest) = omega (arith, length-base32_hex rest)

-- Where MD5 gives 16 bytes for the text of the user and the contest, the event id has 26 characters,
-- all among 0-9 and a-v, as Google Calendar asks of an id.
pub event_id_valid :
    (md5 : Bytes → Bytes) (google_id contest_id : Bytes)
    → length (md5 (google_id ++ (codes "_" ++ contest_id))) ≡ 16
    → All IsByte (md5 (google_id ++ (codes "_" ++ contest_id)))
    → (length (deterministic_event_id md5 google_id contest_id) ≡ 26)
      × All IsIdSymbol (deterministic_event_id md5 google_id contest_id)
unfolding deterministic_event_id
event_id_valid md5 google_id contest_id size bytes =
    let sum = md5 (google_id ++ (codes "_" ++ contest_id)) in
    (omega (arith, length-base32_hex sum), base32_hex-IsIdSymbol sum bytes)
