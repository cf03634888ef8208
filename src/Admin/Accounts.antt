-- ===== src/Admin/Accounts.antt =====
-- Accounts and devices in internal/admin/service.go, over the tables of auth, sync and recover.
use pixiv_relay.Auth.Store.{Account, Device}
use pixiv_relay.Common.Errors.{
  Result, ok, err, internal, not_found, bad_request, refuse, ◌>>=◌, ◌>>◌,
}
use pixiv_relay.Common.Paging.{Base64, encode_cursor, decode_cursor}
use pixiv_relay.Prelude.Decimal.{show_ℕ, parse_int}
use pixiv_relay.Prelude.Int.{ℤ, pos, ltb_ℤ, leb_ℤ}
use pixiv_relay.Prelude.Sorting.{order_by}
use pixiv_relay.Prelude.{
  ℕ, ◌+◌, Bool, ◌&&◌, ◌||◌, not, List, [], ◌∷◌, Option, none, some, Text, codes, length, take, keep,
  any, map, nat_beq, ltb, is_empty, if◌then◌else◌,
}
use pixiv_relay.Recover.Queue.{Row}
use pixiv_relay.Sync.Store.{Entry, DomainRow}

pub record Tables : Type 0 where
  pub accounts : List Account
  pub devices : List Device
  pub entries : List Entry
  pub domains : List DomainRow
  pub recover_rows : List Row

pub data Statement : Type 0 where
  begin devices entries domains recover_rows accounts commit : Statement

abbrev pub is_account : ℕ → Account → Bool
is_account id a = nat_beq a.id id

abbrev pub is_device_of : ℕ → Device → Bool
is_device_of id d = nat_beq d.account_id id

abbrev pub is_entry_of : ℕ → Entry → Bool
is_entry_of id e = nat_beq e.account id

abbrev pub is_domain_of : ℕ → DomainRow → Bool
is_domain_of id d = nat_beq d.account id

abbrev pub is_row_of : ℕ → Row → Bool
is_row_of id r = nat_beq r.account id

abbrev pub drop_if {ℓ} : {A : Type ℓ} → (A → Bool) → List A → List A
drop_if p = keep (λ x. not (p x))

unfoldable pub without_account : ℕ → Tables → Tables
without_account id t = record {
  accounts = drop_if (is_account id) t.accounts;
  devices = drop_if (is_device_of id) t.devices;
  entries = drop_if (is_entry_of id) t.entries;
  domains = drop_if (is_domain_of id) t.domains;
  recover_rows = drop_if (is_row_of id) t.recover_rows;
}

-- A transaction that came to its end, or not.
abbrev pub settle : Tables → Result Tables → Tables × Result (Unit {0})
settle t (ok t') = (t', ok tt)
settle t (err e) = (t, err e)

unfoldable pub delete_account : (Statement → Bool) → ℕ → Tables → Tables × Result (Unit {0})
unfolding without_account
delete_account fails id t = settle t (do
  refuse (fails begin) (internal (codes "begin delete account tx"))
  refuse (fails devices) (internal (codes "cascade delete"))
  refuse (fails entries) (internal (codes "cascade delete"))
  refuse (fails domains) (internal (codes "cascade delete"))
  refuse (fails recover_rows) (internal (codes "cascade delete"))
  refuse (fails accounts) (internal (codes "delete account"))
  refuse (not (any (is_account id) t.accounts)) (not_found (codes "account not found"))
  refuse (fails commit) (internal (codes "commit delete account tx"))
  ok (without_account id t))

abbrev pub is_device : ℕ → Device → Bool
is_device id d = nat_beq d.id id

unfoldable pub delete_device : Bool → ℕ → Tables → Tables × Result (Unit {0})
delete_device fails id t =
    if fails
    then (t, err (internal (codes "delete device")))
    else if any (is_device id) t.devices
    then (record t { devices = drop_if (is_device id) t.devices }, ok tt)
    else (t, err (not_found (codes "device not found")))

pub record AccountItem : Type 0 where
  pub id : ℕ
  pub created_at : ℤ
  pub device_count : ℕ
  pub sync_entry_count : ℕ

-- ORDER BY created_at, id
abbrev pub comes_before : Account → Account → Bool
comes_before a b =
    ltb_ℤ a.created_at b.created_at || (leb_ℤ a.created_at b.created_at && not (ltb b.id a.id))

unfoldable pub insert_account : Account → List Account → List Account
insert_account a [] = a ∷ []
insert_account a (b ∷ rows) = if comes_before a b then a ∷ (b ∷ rows) else b ∷ insert_account a rows

unfoldable pub order_accounts : List Account → List Account
unfolding insert_account
order_accounts [] = []
order_accounts (a ∷ rows) = insert_account a (order_accounts rows)

-- The WHERE of a page behind a cursor.
abbrev pub is_behind : ℤ → ℤ → Account → Bool
is_behind ts id a =
    ltb_ℤ ts a.created_at
    || ((leb_ℤ ts a.created_at && leb_ℤ a.created_at ts) && ltb_ℤ id (pos a.id))

unfoldable pub account_item : Tables → Account → AccountItem
account_item t a = record {
  id = a.id;
  created_at = a.created_at;
  device_count = length (keep (is_device_of a.id) t.devices);
  sync_entry_count = length (keep (is_entry_of a.id) t.entries);
}

abbrev pub last_of : List AccountItem → Option AccountItem
last_of [] = none
last_of (x ∷ []) = some x
last_of (x ∷ (y ∷ items)) = last_of (y ∷ items)

abbrev pub or_bad_request {ℓ} : {A : Type ℓ} → Text → Option A → Result A
or_bad_request msg none = err (bad_request msg)
or_bad_request msg (some a) = ok a

module _ (base64 : Base64) where
  abbrev pub cursor_of : Option AccountItem → Text
  cursor_of none = []
  cursor_of (some x) = encode_cursor base64 x.created_at (show_ℕ x.id)

  unfoldable pub filter_accounts : Text → List Account → Result (List Account)
  filter_accounts cursor rows = if is_empty cursor then ok rows else do
    c ← decode_cursor base64 cursor
    id ← or_bad_request (codes "invalid cursor") (parse_int c.1)
    ok (keep (is_behind c.0 id) rows)

  -- The items of a page, and the cursor of the next, empty where there is none.
  unfoldable pub list_accounts : Bool → Text → ℕ → Tables → Result (List AccountItem × Text)
  unfolding filter_accounts account_item order_accounts
  list_accounts fails cursor limit t = do
    rows ← filter_accounts cursor t.accounts
    refuse fails (internal (codes "list accounts"))
    let items = map (account_item t) (take (limit + 1) (order_accounts rows))
    ok (
        if ltb limit (length items)
        then (take limit items, cursor_of (last_of (take limit items)))
        else (items, []))

abbrev pub device_rank : Device → ℤ
device_rank d = pos d.id

unfoldable pub list_devices : Bool → ℕ → Tables → Result (List Device)
list_devices fails id t = do
  refuse fails (internal (codes "list devices"))
  ok (order_by device_rank (keep (is_device_of id) t.devices))
