-- ===== src/Web/Feed/Escape.antt =====
-- escapeICalText of internal/api/handlers.go, and the texts of RFC 5545, section 3.3.11.
use contest_sync.Common.{
  ℕ, ◌≡◌, ◌≢◌, refl, Bool, true, false, [], ◌∷◌, ◌++◌, append_assoc, Bytes, replace_all, ◌==◌,
  if◌then◌else◌, All, All-append, arith,
}

abbrev pub backslash : ℕ
backslash = 92

abbrev pub line_feed : ℕ
line_feed = 10

abbrev pub carriage_return : ℕ
carriage_return = 13

-- a character behind a backslash
abbrev pub quoted : ℕ → Bytes
quoted c = backslash ∷ c ∷ []

unfoldable pub escape_ical_text : Bytes → Bytes
escape_ical_text text =
    let text1 = replace_all text backslash (quoted backslash) in
    let text2 = replace_all text1 b';' (quoted b';') in
    let text3 = replace_all text2 b',' (quoted b',') in
    let text4 = replace_all text3 line_feed (quoted b'n') in replace_all text4 carriage_return []

-- The character that a backslash and `c` stand for.
abbrev pub meaning : ℕ → ℕ
meaning c = if c == b'n' then line_feed else c

-- What a reader of calendars takes a text for; the test says whether a backslash has come before.
unfoldable pub read_text : Bool → Bytes → Bytes
read_text quote [] = []
read_text true (c ∷ t) = meaning c ∷ read_text false t
read_text false (c ∷ t) =
    let open_quote = read_text true t in
    let plain = read_text false t in if c == backslash then open_quote else c ∷ plain

abbrev pub NoBreak : ℕ → Type 0
NoBreak c = (c ≢ line_feed) × (c ≢ carriage_return)

replace_all-append :
    (s t : Bytes) (old : ℕ) (new : Bytes)
    → replace_all (s ++ t) old new ≡ replace_all s old new ++ replace_all t old new
unfolding replace_all
replace_all-append [] t old new = refl
replace_all-append (c ∷ s) t old new = rw (replace_all-append s t old new, append_assoc)

escape_ical_text-append :
    (s t : Bytes) → escape_ical_text (s ++ t) ≡ escape_ical_text s ++ escape_ical_text t
unfolding escape_ical_text
escape_ical_text-append s t = simp replace_all-append

read_text-one :
    (c : ℕ) (t : Bytes)
    → read_text false (escape_ical_text (c ∷ []) ++ t)
      ≡ replace_all (c ∷ []) carriage_return [] ++ read_text false t
unfolding read_text escape_ical_text replace_all
read_text-one c t = ground arith

NoBreak-one : (c : ℕ) → All NoBreak (escape_ical_text (c ∷ []))
unfolding escape_ical_text replace_all
NoBreak-one c = ground arith

-- A reader of calendars takes an escaped text for the text less its carriage returns, and the escaped
-- text has no line feed and no carriage return, so it stays in its line.
pub escape_ical_text-read :
    (t : Bytes)
    → (read_text false (escape_ical_text t) ≡ replace_all t carriage_return [])
      × All NoBreak (escape_ical_text t)
escape_ical_text-read [] = unfold escape_ical_text read_text replace_all in (refl, tt)
escape_ical_text-read (c ∷ t) =
    let (reads, breaks) = escape_ical_text-read t in
    let e = escape_ical_text-append (c ∷ []) t in
    (
      rw (e, read_text-one c _, reads, replace_all-append (c ∷ []) t carriage_return []),
      rw e (All-append NoBreak _ _ (NoBreak-one c) breaks),
    )
