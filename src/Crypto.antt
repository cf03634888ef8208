-- ===== src/Crypto.antt =====
-- What the stores need of internal/crypto: a cipher as its clients see it.
pub mod Aead
mod Examples
use pixiv_relay.Prelude.{ℕ, Text, Option, some, ◌≡◌}

-- `encrypt i` is the i-th call of Encrypt in a request, since each call draws a nonce of its own.
pub record Cipher : Type 0 where
  pub encrypt : ℕ → Text → Text
  pub decrypt : Text → Option Text

-- What is written reads back.
pub record IsCipher (c : Cipher) (P : Text → Type 0) : Type 0 where
  pub decrypt-encrypt : (i : ℕ) (s : Text) → P s → c.decrypt (c.encrypt i s) ≡ some s

-- A nil *Cipher, over texts without the mark.
abbrev pub no_cipher : Cipher
no_cipher = record { encrypt = λ i s. s; decrypt = some }
