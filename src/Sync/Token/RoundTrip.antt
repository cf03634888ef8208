-- ===== src/Sync/Token/RoundTrip.antt =====
-- ParseToken undoes the formatting of a token, and a domain's key determines its account and name.
use pixiv_relay.Prelude.Decimal.{
  show_ℕ, format_int, parse_int-format_int, show_ℕ-IsDigits, IsDigits-IsFree, show_ℕ_injective,
}
use pixiv_relay.Prelude.Int.{pos, two63}
use pixiv_relay.Prelude.{
  byte_length, ℕ, ◌<◌, ◌≡◌, refl, ap, ◌++◌, ◌∷◌, some, Text, codes, cut, cut-append,
  cut_prefix-append, arith, IsFree, sym, ◌∙◌,
}
use pixiv_relay.Sync.Token.{format_token, parse_token, token_key}

number-IsFree : (n c : ℕ) → c < 48 → IsFree c (show_ℕ n)
number-IsFree n c h = IsDigits-IsFree c (show_ℕ n) (ground arith) (show_ℕ-IsDigits n)

underscore-IsFree : (n : ℕ) → IsFree b'_' (show_ℕ n)
underscore-IsFree n = IsDigits-IsFree b'_' (show_ℕ n) refl (show_ℕ-IsDigits n)

-- A token that the server writes, with a number that fits an int64 and six hex digits, parses, and
-- gives that number back.
pub parse_token-format_token :
    (n : ℕ) (hex : Text)
    → n < two63
    → byte_length hex ≡ 6
    → parse_token (format_token (pos n) hex) ≡ some (pos n)
unfolding parse_token format_token format_int
parse_token-format_token n hex h six = ground (
  arith,
  cut_prefix-append (codes "st_") (show_ℕ n ++ b'_' ∷ hex),
  cut-append b'_' (show_ℕ n) hex (underscore-IsFree n),
  parse_int-format_int n h,
)

cut-token_key : (a : ℕ) (d : Text) → cut 0 (token_key a d) ≡ some (show_ℕ a, d)
unfolding token_key
cut-token_key a d = cut-append 0 (show_ℕ a) d (number-IsFree a 0 (omega arith))

-- The map's key for one account and domain is the key of no other.
pub token_key_injective : (a b : ℕ) (d e : Text) → token_key a d ≡ token_key b e → (a ≡ b) × (d ≡ e)
token_key_injective a b d e h =
    let same : some (show_ℕ a, d) ≡ some (show_ℕ b, e) =
      sym (cut-token_key a d) ∙ (ap (cut 0) h ∙ cut-token_key b e) in
    let texts : show_ℕ a ≡ show_ℕ b = cc same in (show_ℕ_injective a b texts, cc same)
