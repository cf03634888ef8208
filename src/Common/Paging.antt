-- ===== src/Common/Paging.antt =====
-- internal/common/pagination.go and validate.go: cursors, limits and required fields.
use pixiv_relay.Common.Errors.{Result, ok, err, Error, bad_request}
use pixiv_relay.Prelude.Decimal.{
  format_int, parse_int, parse_int-format_int, show_ℕ, show_ℕ-IsDigits, IsDigits-IsFree,
}
use pixiv_relay.Prelude.Int.{ℤ, pos, ltb_ℤ, two63}
use pixiv_relay.Prelude.{
  ℕ, ◌<◌, ◌≡◌, refl, false, ◌∷◌, ◌++◌, Option, none, some, Text, codes, cut, cut-append, is_empty,
  if◌then◌else◌, arith,
}

-- base64.RawURLEncoding.
pub record Base64 : Type 0 where
  pub encode : Text → Text
  pub decode : Text → Option Text

module _ (base64 : Base64) where
  unfoldable pub encode_cursor : ℤ → Text → Text
  encode_cursor ts id = base64.encode (format_int ts ++ b':' ∷ id)

  unfoldable pub split_cursor : Text → Result (ℤ × Text)
  split_cursor raw = elim (cut b':' raw) [
    | none ↦ err (bad_request (codes "invalid cursor"))
    | some (ts, id) ↦
        if is_empty id then err (bad_request (codes "invalid cursor")) else elim (parse_int ts) [
          | none ↦ err (bad_request (codes "invalid cursor"))
          | some n ↦ ok (n, id)
        ]
  ]

  unfoldable pub decode_cursor : Text → Result (ℤ × Text)
  unfolding split_cursor
  decode_cursor s = elim (base64.decode s) [
    | none ↦ err (bad_request (codes "invalid cursor"))
    | some raw ↦ split_cursor raw
  ]

  -- A cursor for a time that fits an int64 and an id decodes to that time and id, the id whatever
  -- bytes it has, where base64 reads back what it wrote.
  decode_cursor-encode_cursor :
      (ts : ℕ) (id : Text)
      → ((s : Text) → base64.decode (base64.encode s) ≡ some s)
      → ts < two63
      → is_empty id ≡ false
      → decode_cursor (encode_cursor (pos ts) id) ≡ ok (pos ts, id)
  unfolding decode_cursor split_cursor encode_cursor format_int
  decode_cursor-encode_cursor ts id round fits full = ground (
    arith,
    round (show_ℕ ts ++ b':' ∷ id),
    cut-append b':' (show_ℕ ts) id (IsDigits-IsFree b':' (show_ℕ ts) refl (show_ℕ-IsDigits ts)),
    parse_int-format_int ts fits,
  )

-- The limit of a page: 30 where none or no positive one is given, and 100 at most.
unfoldable pub parse_limit : Text → ℤ
parse_limit s = if is_empty s then pos 30 else elim (parse_int s) [
  | none ↦ pos 30
  | some n ↦ if ltb_ℤ n (pos 1) then pos 30 else if ltb_ℤ (pos 100) n then pos 100 else n
]

unfoldable pub required : Text → Text → Option Error
required field value =
    if is_empty value then some (bad_request (codes "missing field: " ++ field)) else none
