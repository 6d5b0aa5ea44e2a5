-- ===== src/Auth/RoundTrip.antt =====
-- Decryption undoes encryption, and refuses all else.
use contest_sync.Common.{
  ℕ, zero, suc, ◌+◌, ◌≤◌, Option-cases, inl, inr, ◌≡◌, refl, ap, true, some, List, [], ◌∷◌, ◌++◌,
  arith, Bytes, length, take, drop, length-append,
}
use contest_sync.World.Models.{ok}
use contest_sync.Auth.{
  Cipher, encrypt_token, decrypt_token, is_aes_key, nonce_size, authenticated, open_token,
}

-- What the packages promise: base64 and GCM decode what they encode.
pub record IsFaithful (c : Cipher) : Type 0 where
  pub base64 : (data' : Bytes) → c.of_base64 (c.to_base64 data') ≡ some data'
  pub gcm : (key nonce p : Bytes) → c.opened key nonce (c.sealed key nonce p) ≡ some p

module _ {ℓ} {A : Type ℓ} where
  take-length : (n : ℕ) (xs ys : List A) → length xs ≡ n → take n (xs ++ ys) ≡ xs
  take-length zero [] ys h = refl
  take-length zero (x ∷ xs) ys h = absurd (omega arith)
  take-length (suc n) [] ys h = absurd (omega arith)
  take-length (suc n) (x ∷ xs) ys h = ap (λ l. x ∷ l) (take-length n xs ys (omega arith))

  drop-length : (n : ℕ) (xs ys : List A) → length xs ≡ n → drop n (xs ++ ys) ≡ ys
  drop-length zero [] ys h = refl
  drop-length zero (x ∷ xs) ys h = absurd (omega arith)
  drop-length (suc n) [] ys h = absurd (omega arith)
  drop-length (suc n) (x ∷ xs) ys h = drop-length n xs ys (omega arith)

module _ (c : Cipher) (nonce token key : Bytes) (faithful : IsFaithful c) where
  body : Bytes
  body = nonce ++ c.sealed key nonce token

  opened_body :
      length nonce ≡ nonce_size
      → c.opened key (take nonce_size body) (drop nonce_size body) ≡ some token
  unfolding body
  opened_body size =
      rw
        (
          take-length nonce_size nonce (c.sealed key nonce token) size,
          drop-length nonce_size nonce (c.sealed key nonce token) size,
        )
        (faithful.gcm key nonce token)

  length-body : length body ≡ length nonce + length (c.sealed key nonce token)
  unfolding body
  length-body = length-append nonce (c.sealed key nonce token)

  open_token-body :
      is_aes_key key ≡ true → length nonce ≡ nonce_size → open_token c body key ≡ ok token
  unfolding open_token authenticated
  open_token-body good size = ground (arith, opened_body size, length-body)

-- With a cipher and a base64 that decode what they encode, a key of an AES length and a nonce of 12
-- bytes, encryption succeeds, and decryption by the same key gives the token back.
pub decrypt-encrypt :
    (c : Cipher) (nonce token key : Bytes)
    → IsFaithful c
    → is_aes_key key ≡ true
    → length nonce ≡ nonce_size
    → (text : Bytes) × (encrypt_token c (some nonce) token key ≡ ok text)
      × (decrypt_token c text key ≡ ok token)
decrypt-encrypt c nonce token key faithful good size = (
  c.to_base64 (body c nonce token key faithful),
  (unfold encrypt_token body in rw good),
  (unfold decrypt_token in
      rw (faithful.base64 (body c nonce token key faithful), decrypt_token)
        (open_token-body c nonce token key faithful good size)),
)

-- Every failure of the packages is an error of DecryptToken, so a token comes back only from a text
-- that decodes, is as long as a nonce, and passes the check of its tag.
pub decrypt_sound :
    (c : Cipher) (encoded key token : Bytes)
    → decrypt_token c encoded key ≡ ok token
    → (data' : Bytes) × (c.of_base64 encoded ≡ some data')
      × (is_aes_key key ≡ true)
      × (nonce_size ≤ length data')
      × (c.opened key (take nonce_size data') (drop nonce_size data') ≡ some token)
unfolding decrypt_token open_token authenticated
decrypt_sound c encoded key token h = elim (Option-cases (c.of_base64 encoded)) [
  | inl e ↦ ground arith
  | inr (d, e) ↦ (d, e, ground arith, ground arith, ground arith)
]
