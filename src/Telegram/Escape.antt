-- ===== src/Telegram/Escape.antt =====
-- EscapeHTML of internal/observability/telegram.go and EscapeTelegramHTML of internal/sync/sync.go.
use contest_sync.Common.{
  ℕ, zero, suc, ◌≡◌, ◌≢◌, refl, sym, ap, ◌∙◌, [], ◌∷◌, ◌++◌, append_assoc, arith, Bytes, codes,
  ◌==◌, if◌then◌else◌, replace_all, All, All-append, has_prefix,
}
use contest_sync.Telegram.Utf8.{to_valid_utf8}

abbrev pub amp : Bytes
amp = codes "&amp;"

abbrev pub lt : Bytes
lt = codes "&lt;"

abbrev pub gt : Bytes
gt = codes "&gt;"

-- the three replacements that both functions make
unfoldable pub escape_telegram_html : Bytes → Bytes
escape_telegram_html text = replace_all (replace_all (replace_all text b'&' amp) b'<' lt) b'>' gt

unfoldable pub escape_html : Bytes → Bytes
escape_html text =
    let text = to_valid_utf8 text in
    let text = replace_all text 0 [] in
    let text = replace_all text b'&' amp in
    let text = replace_all text b'<' lt in replace_all text b'>' gt

replace_all-append :
    (s t : Bytes) (old : ℕ) (new : Bytes)
    → replace_all (s ++ t) old new ≡ replace_all s old new ++ replace_all t old new
unfolding replace_all
replace_all-append [] t old new = refl
replace_all-append (c ∷ s) t old new =
    rw (replace_all-append s t old new) (sym (append_assoc _ (replace_all s old new) _))

-- the text that one byte becomes
hide : ℕ → Bytes
hide c = if c == b'&' then amp else if c == b'<' then lt else if c == b'>' then gt else c ∷ []

escape-append :
    (s t : Bytes) → escape_telegram_html (s ++ t) ≡ escape_telegram_html s ++ escape_telegram_html t
unfolding escape_telegram_html
escape-append s t = simp replace_all-append

escape_one : (c : ℕ) → escape_telegram_html (c ∷ []) ≡ hide c
unfolding escape_telegram_html replace_all hide
escape_one c = ground arith

escape-cons : (c : ℕ) (s : Bytes) → escape_telegram_html (c ∷ s) ≡ hide c ++ escape_telegram_html s
escape-cons c s = escape-append (c ∷ []) s ∙ ap (λ t. t ++ escape_telegram_html s) (escape_one c)

-- What a reader of HTML makes of the text from a byte on: a byte, and how many bytes to pass over.
entity : ℕ → Bytes → ℕ × ℕ
unfolding has_prefix
entity c s =
    if has_prefix (c ∷ s) amp
    then (b'&', 4)
    else if has_prefix (c ∷ s) lt
    then (b'<', 3)
    else if has_prefix (c ∷ s) gt
    then (b'>', 3)
    else (c, 0)

read : ℕ → Bytes → Bytes
read n [] = []
read (suc n) (c ∷ s) = read n s
read zero (c ∷ s) = (entity c s).0 ∷ read (entity c s).1 s

-- The text as a reader of HTML shows it, as far as the three entities go.
pub rendered : Bytes → Bytes
unfolding read entity
rendered s = read 0 s

read-hide : (c : ℕ) (t : Bytes) → read 0 (hide c ++ t) ≡ c ∷ read 0 t
unfolding read hide entity
read-hide c t = ground arith

-- An escaped text is shown as the text that was escaped.
pub rendered-escape_telegram_html : (s : Bytes) → rendered (escape_telegram_html s) ≡ s
unfolding rendered
rendered-escape_telegram_html [] = unfold escape_telegram_html replace_all in refl
rendered-escape_telegram_html (c ∷ s) =
    rw (escape-cons c s, read-hide c (escape_telegram_html s))
      (ap (λ t. c ∷ t) (rendered-escape_telegram_html s))

abbrev pub IsMarkupFree : Bytes → Type 0
IsMarkupFree = All (λ c. (c ≢ b'<') × (c ≢ b'>'))

hide-IsMarkupFree : (c : ℕ) → IsMarkupFree (hide c)
unfolding hide
hide-IsMarkupFree c = ground arith

escape-IsMarkupFree : (s : Bytes) → IsMarkupFree (escape_telegram_html s)
escape-IsMarkupFree [] = unfold escape_telegram_html replace_all in tt
escape-IsMarkupFree (c ∷ s) =
    rw (escape-cons c s)
      (All-append _ (hide c) (escape_telegram_html s) (hide-IsMarkupFree c) (escape-IsMarkupFree s))

escape_html-eq :
    (s : Bytes) → escape_html s ≡ escape_telegram_html (replace_all (to_valid_utf8 s) 0 [])
unfolding escape_html escape_telegram_html
escape_html-eq s = refl

-- For every text, the result of EscapeHTML holds neither `<` nor `>`, and a reader of HTML shows
-- for it the text less its malformed UTF-8 and its zero bytes.
pub escape_html_shown :
    (s : Bytes)
    → IsMarkupFree (escape_html s) × (rendered (escape_html s) ≡ replace_all (to_valid_utf8 s) 0 [])
escape_html_shown s = rw escape_html-eq (
  escape-IsMarkupFree (replace_all (to_valid_utf8 s) 0 []),
  rendered-escape_telegram_html (replace_all (to_valid_utf8 s) 0 []),
)
