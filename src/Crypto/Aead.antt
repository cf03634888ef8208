-- ===== src/Crypto/Aead.antt =====
-- internal/crypto/crypto.go: texts at rest, with a mark that tells ciphertext from plain text. The
-- AEAD, base64 and the random nonces are arguments.
use pixiv_relay.Crypto.{Cipher}
use pixiv_relay.Common.Errors.{Result, ok, err, internal}
use pixiv_relay.Prelude.{
  ℕ, ◌≡◌, refl, ap, ◌∙◌, sym, false, not, Option, none, some, Text, codes, [], ◌∷◌, ◌++◌, length,
  length-append, take, drop, ltb, nat_beq, is_empty, cut_prefix, cut_prefix-append, if◌then◌else◌,
  arith,
}

pub record Aead : Type 0 where
  pub nonce_size : ℕ
  pub seal : Text → Text → Text
  pub unseal : Text → Text → Option Text

pub record Base64 : Type 0 where
  pub encode : Text → Text
  pub decode : Text → Option Text

abbrev pub prefix : Text
prefix = codes "enc:v1:"

abbrev pub key_size : ℕ
key_size = 32

module _ (base64 : Base64) where
  -- Load: no key is no encryption; `new_aead` makes the AEAD of a key of the right size.
  unfoldable pub load_key : (Text → Text) → (Text → Option Aead) → Text → Result (Option Aead)
  load_key trim new_aead given =
      if is_empty (trim given) then ok none else elim (base64.decode (trim given)) [
        | none ↦ err (internal (codes "crypto: DATA_ENC_KEY base64 decode"))
        | some key ↦
            if not (nat_beq (length key) key_size)
            then err (internal (codes "crypto: DATA_ENC_KEY must be 32 bytes after base64 decode"))
            else elim (new_aead key) [
              | none ↦ err (internal (codes "crypto: aes"))
              | some aead ↦ ok (some aead)
            ]
      ]

  unfoldable pub encrypt : Option Aead → Text → Text → Text
  encrypt none nonce plain = plain
  encrypt (some aead) nonce plain = prefix ++ base64.encode (nonce ++ aead.seal nonce plain)

  unfoldable pub open_sealed : Aead → Option Text → Option Text
  open_sealed aead none = none
  open_sealed aead (some raw) =
      if ltb (length raw) aead.nonce_size
      then none
      else aead.unseal (take aead.nonce_size raw) (drop aead.nonce_size raw)

  unfoldable pub decrypt_marked : Option Aead → Text → Option Text
  unfolding open_sealed
  decrypt_marked none body = none
  decrypt_marked (some aead) body = open_sealed aead (base64.decode body)

  unfoldable pub decrypt_cut : Option Aead → Text → Option Text → Option Text
  unfolding decrypt_marked
  decrypt_cut key s none = some s
  decrypt_cut key s (some body) = decrypt_marked key body

  -- `none` is an error. A text without the mark is plain.
  unfoldable pub decrypt : Option Aead → Text → Option Text
  unfolding decrypt_cut
  decrypt key s = decrypt_cut key s (cut_prefix prefix s)

  -- The cipher that the stores use, with a nonce for each call.
  abbrev pub cipher_of : Option Aead → (ℕ → Text) → Cipher
  cipher_of key nonce = record { encrypt = λ i. encrypt key (nonce i); decrypt = decrypt key }

take-length : (xs ys : Text) → take (length xs) (xs ++ ys) ≡ xs
take-length [] ys = refl
take-length (x ∷ xs) ys = ap (◌∷◌ x) (take-length xs ys)

drop-length : (xs ys : Text) → drop (length xs) (xs ++ ys) ≡ ys
drop-length [] ys = refl
drop-length (x ∷ xs) ys = drop-length xs ys

-- With a key, what is encrypted decrypts to the same text, whatever it is, also one that bears the
-- mark already; base64 reads back what it wrote, the AEAD opens what it sealed, and the nonce has
-- the AEAD's size.
pub decrypt-encrypt :
    (base64 : Base64) (aead : Aead) (nonce plain : Text)
    → ((s : Text) → base64.decode (base64.encode s) ≡ some s)
    → ((n p : Text) → aead.unseal n (aead.seal n p) ≡ some p)
    → length nonce ≡ aead.nonce_size
    → decrypt base64 (some aead) (encrypt base64 (some aead) nonce plain) ≡ some plain
unfolding decrypt decrypt_cut decrypt_marked open_sealed encrypt
decrypt-encrypt base64 aead nonce plain round opens size =
    let sealed = nonce ++ aead.seal nonce plain in
    let front : take aead.nonce_size sealed ≡ nonce =
      ap (λ n. take n sealed) (sym size) ∙ take-length nonce (aead.seal nonce plain) in
    let back : drop aead.nonce_size sealed ≡ aead.seal nonce plain =
      ap (λ n. drop n sealed) (sym size) ∙ drop-length nonce (aead.seal nonce plain) in
    let long : ltb (length sealed) aead.nonce_size ≡ false =
      ground (arith, length-append nonce (aead.seal nonce plain)) in
    let body = base64.encode sealed in
    let opened : open_sealed base64 aead (some sealed) ≡ some plain =
      rw (long, front, back) (opens nonce plain) in
    ap (decrypt_cut base64 (some aead) (prefix ++ body)) (cut_prefix-append prefix body)
    ∙ (ap (open_sealed base64 aead) (round sealed) ∙ opened)
