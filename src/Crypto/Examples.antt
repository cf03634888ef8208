-- ===== src/Crypto/Examples.antt =====
-- The theorems on internal/crypto, applied to a toy AEAD that puts the nonce before the text.
use pixiv_relay.Crypto.Aead.{Aead, Base64, encrypt, decrypt, decrypt-encrypt}
use pixiv_relay.Prelude.{◌≡◌, refl, some, codes}

abbrev base64 : Base64
base64 = record { encode = λ t. t; decode = some }

abbrev aead : Aead
aead = record { nonce_size = 2; seal = λ n p. p; unseal = λ n s. some s }

decrypt-encrypt_example :
    decrypt base64 (some aead) (encrypt base64 (some aead) (codes "ab") (codes "enc:v1:x"))
    ≡ some (codes "enc:v1:x")
decrypt-encrypt_example =
    decrypt-encrypt base64 aead (codes "ab") (codes "enc:v1:x") (λ s. refl) (λ n p. refl) refl
