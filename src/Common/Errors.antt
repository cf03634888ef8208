-- ===== src/Common/Errors.antt =====
-- internal/common/errors.go and the part of response.go that decides what a client sees.
use pixiv_relay.Prelude.{ℕ, Text, codes, Bool, true, false, ◌≡◌, refl, ◌⊎◌, inl, inr}

pub record ApiError : Type 0 where
  pub status : ℕ
  pub code : Text
  pub message : Text

-- An `error` value: an *APIError, or any other, of which only the log sees the text.
pub data Error : Type 0 where
  api : ApiError → Error
  internal : Text → Error

unfoldable pub new_error : ℕ → Text → Text → ApiError
new_error status code message = record { status = status; code = code; message = message }

unfoldable pub bad_request : Text → Error
unfolding new_error
bad_request msg = api (new_error 400 (codes "VALIDATION_FAILED") msg)

unfoldable pub unauthorized : Text → Error
unfolding new_error
unauthorized msg = api (new_error 401 (codes "INVALID_TOKEN") msg)

unfoldable pub forbidden : Text → Error
unfolding new_error
forbidden msg = api (new_error 403 (codes "FORBIDDEN") msg)

unfoldable pub not_found : Text → Error
unfolding new_error
not_found msg = api (new_error 404 (codes "NOT_FOUND") msg)

unfoldable pub rate_limited : Error
unfolding new_error
rate_limited = api (new_error 429 (codes "RATE_LIMITED") (codes "rate limit exceeded"))

unfoldable pub bad_gateway : Text → Error
unfolding new_error
bad_gateway msg = api (new_error 502 (codes "UPSTREAM_UNREACHABLE") msg)

-- What WriteError puts into the response.
unfoldable pub write_error : Error → ApiError
unfolding new_error
write_error (api e) = e
write_error (internal m) = new_error 500 (codes "INTERNAL") (codes "internal error")

pub data Result {ℓ} (A : Type ℓ) : Type ℓ where
  ok : A → Result A
  err : Error → Result A

pub Result-cases {ℓ} :
    {A : Type ℓ} (r : Result A) → ((a : A) × (r ≡ ok a)) ⊎ ((e : Error) × (r ≡ err e))
Result-cases (ok a) = inl (a, refl)
Result-cases (err e) = inr (e, refl)

infixl 5 ◌>>=◌ ◌>>◌
abbrev pub ◌>>=◌ {ℓ κ} : {X : Type ℓ} {Y : Type κ} → Result X → (X → Result Y) → Result Y
ok x >>= next = next x
err failure >>= next = err failure

abbrev pub ◌>>◌ {ℓ} : {Y : Type ℓ} → Result (Unit {0}) → Result Y → Result Y
check >> rest = check >>= λ _. rest

-- `if refused { return e }`
abbrev pub refuse : Bool → Error → Result (Unit {0})
refuse true e = err e
refuse false e = ok tt

pub >>=-eq-ok {ℓ κ} :
    {X : Type ℓ} {Y : Type κ} (r : Result X) (next : X → Result Y) {y : Y}
    → (r >>= next) ≡ ok y
    → (x : X) × (r ≡ ok x) × (next x ≡ ok y)
>>=-eq-ok (ok x) next h = (x, refl, h)
>>=-eq-ok (err e) next h = cc

pub refuse-eq-ok {ℓ} :
    {B : Type ℓ} (b : Bool) (e : Error) (m : Result B) {x : B}
    → (refuse b e >> m) ≡ ok x
    → (b ≡ false) × (m ≡ ok x)
refuse-eq-ok true e m h = absurd (cc)
refuse-eq-ok false e m h = (refl, h)

pub ok_injective {ℓ} : {X : Type ℓ} {x y : X} → ok x ≡ ok y → x ≡ y
ok_injective h = cc h
