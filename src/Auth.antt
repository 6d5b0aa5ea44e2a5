-- ===== src/Auth.antt =====
-- internal/auth/auth.go: refresh tokens at rest, encrypted by AES-GCM and written in base64.
pub mod RoundTrip
use contest_sync.Common.{
  ℕ, Bool, true, false, ◌||◌, Option, none, some, List, [], ◌∷◌, ◌++◌, Bytes, codes, ltb, ◌==◌,
  if◌then◌else◌, length, take, drop,
}
use contest_sync.World.Models.{Err, Result, ok, err}

-- crypto/aes, crypto/cipher and encoding/base64. `sealed` and `opened` take the key, the nonce and
-- the text; `opened` fails where the authentication tag does not fit.
pub record Cipher : Type 0 where
  pub sealed : Bytes → Bytes → Bytes → Bytes
  pub opened : Bytes → Bytes → Bytes → Option Bytes
  pub to_base64 : Bytes → Bytes
  pub of_base64 : Bytes → Option Bytes

abbrev pub plain_error : Bytes → Err
plain_error text = record { text = text; code = none }

-- cipher.NewGCM's NonceSize()
abbrev pub nonce_size : ℕ
nonce_size = 12

-- aes.NewCipher accepts keys of three lengths.
unfoldable pub is_aes_key : Bytes → Bool
is_aes_key key = (length key == 16) || (length key == 24) || (length key == 32)

abbrev pub invalid_key : Err
invalid_key = plain_error (codes "crypto/aes: invalid key size")

abbrev pub no_randomness : Err
no_randomness = plain_error (codes "random read failed")

-- EncryptToken. The nonce is what rand.Reader gives; `none` is a failed read.
unfoldable pub encrypt_token : Cipher → Option Bytes → Bytes → Bytes → Result Bytes
unfolding is_aes_key
encrypt_token c none plaintext key = if is_aes_key key then err no_randomness else err invalid_key
encrypt_token c (some nonce) plaintext key =
    if is_aes_key key
    then ok (c.to_base64 (nonce ++ c.sealed key nonce plaintext))
    else err invalid_key

abbrev pub bad_base64 : Err
bad_base64 = plain_error (codes "illegal base64 data")

abbrev pub too_short : Err
too_short = plain_error (codes "ciphertext too short")

abbrev pub not_authentic : Err
not_authentic = plain_error (codes "cipher: message authentication failed")

unfoldable pub authenticated : Option Bytes → Result Bytes
authenticated none = err not_authentic
authenticated (some plaintext) = ok plaintext

-- DecryptToken behind the base64 decoding
unfoldable pub open_token : Cipher → Bytes → Bytes → Result Bytes
unfolding authenticated
open_token c data' key =
    if is_aes_key key
    then if ltb (length data') nonce_size
      then err too_short
      else authenticated (c.opened key (take nonce_size data') (drop nonce_size data'))
    else err invalid_key

unfoldable pub decrypt_token : Cipher → Bytes → Bytes → Result Bytes
unfolding open_token is_aes_key
decrypt_token c encoded key = elim (c.of_base64 encoded) [
  | none ↦ err bad_base64
  | some data' ↦ open_token c data' key
]
