-- ===== src/Prelude/Decimal.antt =====
-- strconv.FormatInt and strconv.ParseInt in base 10.
use pixiv_relay.Prelude.Int.{ℤ, pos, negsuc, two63}
use pixiv_relay.Prelude.{
  ℕ, zero, suc, ◌+◌, ◌-◌, ◌*◌, ◌/◌, ◌%◌, ◌<◌, ◌≡◌, refl, ap, Bool, true, false, ◌&&◌, [], ◌∷◌, ◌++◌,
  Option, none, some, arith, ltb, leb, nat_beq, ◌≢◌, if◌then◌else◌, Text, All, All-append, IsFree,
}

-- Each round writes one digit; `suc n` rounds are enough for `n`.
abbrev pub show_fuel : ℕ → ℕ → Text
show_fuel zero n = []
show_fuel (suc f) n =
    let rest = show_fuel f (n / 10) in
    if ltb n 10 then (b'0' + n) ∷ [] else rest ++ (b'0' + n % 10) ∷ []

unfoldable pub show_ℕ : ℕ → Text
show_ℕ n = show_fuel (suc n) n

unfoldable pub format_int : ℤ → Text
unfolding show_ℕ
format_int (pos n) = show_ℕ n
format_int (negsuc n) = b'-' ∷ show_ℕ (suc n)

abbrev pub is_digit : ℕ → Bool
is_digit c = leb b'0' c && leb c b'9'

-- The value of a run of digits that follows a number; `none` at any other byte.
unfoldable pub digits : ℕ → Text → Option ℕ
digits n [] = some n
digits n (c ∷ s) = if is_digit c then digits (n * 10 + (c - b'0')) s else none

-- One digit at least.
unfoldable pub parse_uint : Text → Option ℕ
unfolding digits
parse_uint [] = none
parse_uint (c ∷ s) = digits 0 (c ∷ s)

positive : Option ℕ → Option ℤ
positive none = none
positive (some n) = if ltb n two63 then some (pos n) else none

negative : Option ℕ → Option ℤ
negative none = none
negative (some zero) = some (pos 0)
negative (some (suc n)) = if ltb n two63 then some (negsuc n) else none

sign_split : ℕ → Text → Option ℤ
unfolding positive negative parse_uint
sign_split c s =
    if nat_beq c b'+'
    then positive (parse_uint s)
    else if nat_beq c b'-'
    then negative (parse_uint s)
    else positive (parse_uint (c ∷ s))

unfoldable pub parse_int : Text → Option ℤ
unfolding sign_split
parse_int [] = none
parse_int (c ∷ s) = sign_split c s

digits-append : (n m : ℕ) (s t : Text) → digits n s ≡ some m → digits n (s ++ t) ≡ digits m t
unfolding digits
digits-append n m [] t h = ground arith
digits-append n m (c ∷ s) t h = ground (arith, digits-append (n * 10 + (c - b'0')) m s t)

digits-show_fuel : (f n : ℕ) → n < f → digits 0 (show_fuel f n) ≡ some n
unfolding digits
digits-show_fuel zero n h = elim h [ ]
digits-show_fuel (suc f) n h = ground (
  arith,
  digits-show_fuel f (n / 10),
  digits-append 0 (n / 10) (show_fuel f (n / 10)) ((b'0' + n % 10) ∷ []),
)

abbrev pub IsDigits : Text → Type 0
IsDigits = All (λ c. is_digit c ≡ true)

if_IsDigits :
    (b : Bool) (s t : Text) → (b ≡ true → IsDigits s) → IsDigits t → IsDigits (if b then s else t)
if_IsDigits true s t h k = h refl
if_IsDigits false s t h k = k

show_fuel-IsDigits : (f n : ℕ) → IsDigits (show_fuel f n)
show_fuel-IsDigits zero n = tt
show_fuel-IsDigits (suc f) n =
    if_IsDigits (ltb n 10) _ _ (λ h. (ground arith, tt))
      (All-append (λ c. is_digit c ≡ true) (show_fuel f (n / 10)) ((b'0' + n % 10) ∷ [])
        (show_fuel-IsDigits f (n / 10)) (ground arith, tt))

pub show_ℕ-IsDigits : (n : ℕ) → IsDigits (show_ℕ n)
unfolding show_ℕ
show_ℕ-IsDigits n = show_fuel-IsDigits (suc n) n

pub IsDigits-IsFree : (c : ℕ) (s : Text) → is_digit c ≡ false → IsDigits s → IsFree c s
IsDigits-IsFree c [] h d = tt
IsDigits-IsFree c (x ∷ s) h d = (ground (arith, d.0), IsDigits-IsFree c s h d.1)

snoc-ne-nil : (s : Text) (c : ℕ) → s ++ c ∷ [] ≢ []
snoc-ne-nil [] c h = cc
snoc-ne-nil (d ∷ s) c h = cc

pub show_ℕ-ne-nil : (n : ℕ) → show_ℕ n ≢ []
unfolding show_ℕ
show_ℕ-ne-nil n = ground (arith, snoc-ne-nil (show_fuel n (n / 10)) (b'0' + n % 10))

parse_int_of_digits :
    (s : Text) (n : ℕ)
    → s ≢ []
    → IsDigits s
    → digits 0 s ≡ some n
    → n < two63
    → parse_int s ≡ some (pos n)
unfolding parse_int
parse_int_of_digits [] n ne d h b = absurd (ne refl)
parse_int_of_digits (c ∷ s) n ne d h b = ground (arith, d.0)

-- A number that fits an int64 reads back as itself.
pub parse_int-format_int : (n : ℕ) → n < two63 → parse_int (format_int (pos n)) ≡ some (pos n)
unfolding format_int
parse_int-format_int n h =
    parse_int_of_digits (show_ℕ n) n (show_ℕ-ne-nil n) (show_ℕ-IsDigits n)
      (digits-show_fuel (suc n) n (omega arith)) h

-- Different numbers have different texts.
pub show_ℕ_injective : (n m : ℕ) → show_ℕ n ≡ show_ℕ m → n ≡ m
unfolding show_ℕ
show_ℕ_injective n m h =
    ground (arith, digits-show_fuel (suc n) n, digits-show_fuel (suc m) m, ap (digits 0) h)
