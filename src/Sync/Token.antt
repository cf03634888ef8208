-- ===== src/Sync/Token.antt =====
-- internal/sync/token.go: the sync tokens and the cursor of each domain.
pub mod RoundTrip
pub mod Monotone
pub mod Load
use pixiv_relay.Prelude.Decimal.{show_ℕ, format_int, parse_int}
use pixiv_relay.Prelude.Int.{ℤ, pos, negsuc, add64, ltb_ℤ, leb_ℤ}
use pixiv_relay.Prelude.Table.{find, upsert}
use pixiv_relay.Prelude.{
  byte_length, ℕ, ◌+◌, Bool, true, false, ◌&&◌, List, [], ◌∷◌, ◌++◌, Option, none, some, Text,
  codes, ltb, nat_beq, if◌then◌else◌, length, cut, cut_prefix, is_empty, text_eq,
}

-- fmt.Sprintf("st_%d_%s", n, hex)
unfoldable pub format_token : ℤ → Text → Text
format_token n hex = codes "st_" ++ (format_int n ++ b'_' ∷ hex)

-- The three errors of ParseToken are not told apart by any caller.
unfoldable pub parse_token : Text → Option ℤ
parse_token tok = elim (cut_prefix (codes "st_") tok) [
  | none ↦ none
  | some rest ↦ elim (cut b'_' rest) [
    | none ↦ none
    | some (ms, hex) ↦ if nat_beq (byte_length hex) 6 then parse_int ms else none
  ]
]

-- The map `cur`, from the key of an account and a domain to the current token.
abbrev pub TokenStore : Type 0
TokenStore = List (Text × Text)

abbrev pub slot : Text × Text → Text
slot e = e.0

unfoldable pub token_key : ℕ → Text → Text
token_key account domain = show_ℕ account ++ 0 ∷ domain

-- `none` where the map has no entry.
unfoldable pub current? : TokenStore → ℕ → Text → Option Text
current? cur account domain = elim (find slot (token_key account domain) cur) [
  | none ↦ none
  | some e ↦ some e.1
]

unfoldable pub current : TokenStore → ℕ → Text → Text
unfolding current?
current cur account domain = elim (current? cur account domain) [ none ↦ [] | some tok ↦ tok ]

abbrev pub or_zero : Option ℤ → ℤ
or_zero none = pos 0
or_zero (some n) = n

-- The number that the last token of the domain carries; 0 where there is none, or none that reads.
unfoldable pub previous : TokenStore → ℕ → Text → ℤ
unfolding current?
previous cur account domain =
    or_zero (elim (current? cur account domain) [ none ↦ none | some tok ↦ parse_token tok ])

-- The first and the last number of a batch of `n` items.
unfoldable pub first_seq : ℤ → ℤ → ℤ
first_seq prev now = let start = add64 prev (pos 1) in if ltb_ℤ start now then now else start

unfoldable pub last_seq : ℤ → ℕ → ℤ
last_seq start n = if ltb 0 n then add64 (add64 start (pos n)) (negsuc 0) else start

pub record Batch : Type 0 where
  pub seq_base : ℤ
  pub token : Text
  pub store : TokenStore

-- `hex` is what randHex6 returns.
unfoldable pub next : TokenStore → ℕ → Text → ℕ → ℤ → Text → Batch
unfolding previous first_seq last_seq
next cur account domain n now hex =
    let start = first_seq (previous cur account domain) now in
    let tok = format_token (last_seq start n) hex in
    record {
      seq_base = start;
      token = tok;
      store = upsert slot (token_key account domain, tok) cur;
    }

-- A row of sync_domains as Load scans it.
pub record TokenRow : Type 0 where
  pub account : ℕ
  pub domain : Text
  pub sync_token : Text

abbrev pub keeps_current : Option ℤ → Option ℤ → Bool
keeps_current (some cur_ms) (some new_ms) = leb_ℤ new_ms cur_ms
keeps_current _ _ = false

unfoldable pub load_row : TokenStore → TokenRow → TokenStore
unfolding current?
load_row cur row =
    let written = upsert slot (token_key row.account row.domain, row.sync_token) cur in
    elim (current? cur row.account row.domain) [
      | none ↦ written
      | some tok ↦
          if keeps_current (parse_token tok) (parse_token row.sync_token) then cur else written
    ]

-- Rows with an empty token are left out by the query.
unfoldable pub load : TokenStore → List TokenRow → TokenStore
load cur [] = cur
load cur (row ∷ rows) = load (if is_empty row.sync_token then cur else load_row cur row) rows
