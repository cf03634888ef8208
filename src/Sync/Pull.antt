-- ===== src/Sync/Pull.antt =====
-- Pull of internal/sync/service.go: a page of the rows behind a cursor.
pub mod Order
pub mod Pages
pub mod Complete
pub mod Expiry
use pixiv_relay.Crypto.{Cipher}
use pixiv_relay.Common.Errors.{Result, ok, err, Error, internal, bad_request, refuse, ◌>>=◌, ◌>>◌}
use pixiv_relay.Prelude.Int.{ℤ, pos, negsuc, ltb_ℤ, leb_ℤ}
use pixiv_relay.Prelude.{
  ℕ, suc, zero, ◌+◌, ◌-◌, Bool, true, false, ◌&&◌, not, List, [], ◌∷◌, Option, none, some, Text,
  codes, length, ltb, text_beq, nat_beq, if◌then◌else◌, keep, take, is_empty,
}
use pixiv_relay.Sync.Store.{Entry, Service, valid_domain, is_beyond_retention, sync_full_required}
use pixiv_relay.Sync.Token.{current, format_token, parse_token}

pub record PullItem : Type 0 where
  pub key : Text
  pub data_text : Text
  pub updated_at : ℤ
  pub deleted : Bool

pub record PullResponse : Type 0 where
  pub items : List PullItem
  pub sync_token : Text
  pub has_more : Bool

-- ORDER BY seq ASC
unfoldable pub insert_row : Entry → List Entry → List Entry
insert_row x [] = x ∷ []
insert_row x (y ∷ rows) = if leb_ℤ x.seq y.seq then x ∷ (y ∷ rows) else y ∷ insert_row x rows

unfoldable pub order_by_seq : List Entry → List Entry
unfolding insert_row
order_by_seq [] = []
order_by_seq (x ∷ rows) = insert_row x (order_by_seq rows)

abbrev pub is_of : ℕ → Text → Entry → Bool
is_of account domain e = nat_beq e.account account && text_beq e.domain domain

-- The query without its LIMIT.
unfoldable pub rows_since : List Entry → ℕ → Text → ℤ → List Entry
unfolding order_by_seq
rows_since entries account domain since =
    order_by_seq (keep (λ e. is_of account domain e && ltb_ℤ since e.seq) entries)

unfoldable pub open_row : Cipher → Entry → Result PullItem
open_row c e = elim (c.decrypt e.data_text) [
  | none ↦ err (internal (codes "decrypt sync entry"))
  | some plain ↦
      ok (record { key = e.key; data_text = plain; updated_at = e.updated_at; deleted = e.deleted })
]

-- The loop over the rows, which stops at the first that does not decrypt.
unfoldable pub open_rows : Cipher → List Entry → Result (List PullItem)
unfolding open_row
open_rows c [] = ok []
open_rows c (e ∷ rows) = do it ← open_row c e; rest ← open_rows c rows; ok (it ∷ rest)

abbrev pub row_at : List Entry → ℕ → Option Entry
row_at [] i = none
row_at (e ∷ rows) zero = some e
row_at (e ∷ rows) (suc i) = row_at rows i

-- The token of a page that has a successor carries the number of its last row. (Go would panic at
-- limit 0, which ParseLimit never gives.)
unfoldable pub page_token : Text → List Entry → ℕ → Text
page_token hex rows limit = elim (row_at rows (limit - 1)) [
  | none ↦ []
  | some e ↦ format_token e.seq hex
]

unfoldable pub since_seq : ℤ → Text → Result ℤ
since_seq now since = if is_empty since then ok (negsuc 0) else elim (parse_token since) [
  | none ↦ err (sync_full_required (codes "since token invalid or expired; full resync required"))
  | some ms ↦
      if is_beyond_retention now ms
      then err (sync_full_required (codes "since token invalid or expired; full resync required"))
      else ok ms
]

-- `queries` says whether the query runs; `hex` is what randHex6 returns.
module _ (c : Cipher) (queries : Bool) (hex : Text) (s : Service) (account : ℕ)
    (domain : Text) where
  unfoldable pub answer : ℕ → List Entry → List PullItem → PullResponse
  unfolding page_token
  answer limit rows items =
      if ltb limit (length items)
      then record {
        items = take limit items;
        sync_token = page_token hex rows limit;
        has_more = true;
      }
      else record { items = items; sync_token = current s.tokens account domain; has_more = false }

  unfoldable pub page_from : ℕ → ℤ → Result PullResponse
  unfolding rows_since open_rows answer
  page_from limit since = do
    refuse (not queries) (internal (codes "query sync entries"))
    let rows = take (limit + 1) (rows_since s.entries account domain since)
    items ← open_rows c rows
    ok (answer limit rows items)

  unfoldable pub pull : ℤ → Text → ℕ → Result PullResponse
  unfolding since_seq page_from
  pull now since limit = do
    refuse (not (valid_domain domain)) (bad_request (codes "unknown domain"))
    start ← since_seq now since
    page_from limit start
