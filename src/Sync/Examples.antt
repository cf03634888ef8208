-- ===== src/Sync/Examples.antt =====
-- The theorems on internal/sync, applied to one small store: an account with two rows of one domain
-- and one of another, and a push of two items.
use pixiv_relay.Common.Errors.{ok}
use pixiv_relay.Crypto.{no_cipher}
use pixiv_relay.Prelude.Int.{ℤ, pos, negsuc, two63, int_eq}
use pixiv_relay.Prelude.Table.{find, keep_if, HasDistinctKeys}
use pixiv_relay.Prelude.{
  ℕ, suc, ◌+◌, ◌<◌, ◌≤◌, ◌≡◌, ◌≢◌, refl, Bool, true, false, List, [], ◌∷◌, ◌++◌, Option, none, some,
  arith, Text, codes, text_eq, nat_eq, pair_eq, length, any, sym, drop, All,
}
use pixiv_relay.Sync.Json.{
  Value, null, obj, arr, nil, cons, end, field, contains_sensitive_field, bears, token_forms,
  field_names, contains_sensitive_field-eq-any,
}
use pixiv_relay.Sync.Pull.{since_seq, rows_since, open_rows}
use pixiv_relay.Sync.Pull.Complete.{pull_all, pull_all_complete, IsRecent}
use pixiv_relay.Sync.Pull.Pages.{rows_of}
use pixiv_relay.Sync.Pull.Order.{row_seq}
use pixiv_relay.Sync.Push.{Env, Statement, push, commit}
use pixiv_relay.Sync.Restart.{reloaded, reloaded-push}
use pixiv_relay.Sync.Push.Numbers.{IsNumbered, push-IsNumbered}
use pixiv_relay.Sync.Store.{
  Entry, domain_key, Service, PushItem, PushRequest, is_beyond_retention, valid_domain,
}
use pixiv_relay.Sync.Token.{current?, format_token, parse_token, token_key, previous, next}
use pixiv_relay.Sync.Token.Monotone.{start_of, end_of}
use pixiv_relay.Sync.Token.RoundTrip.{parse_token-format_token}

abbrev hex : Text
hex = codes "0a1b2c"

abbrev row : Text → Text → ℤ → ℤ → Entry
row d k time n = record {
  account = 1;
  domain = d;
  key = k;
  data_text = codes "{}";
  updated_at = time;
  deleted = false;
  seq = n;
}

abbrev mute : Text
mute = codes "mute"

abbrev settings : Text
settings = codes "settings"

abbrev store : Service
store = record {
  entries =
      row mute (codes "a") (pos 10) (pos 5)
      ∷ row mute (codes "b") (pos 90) (pos 6)
      ∷ row settings (codes "a") (pos 1) (pos 2)
      ∷ [];
  domains =
      record {
        account = 1;
        domain = mute;
        sync_token = format_token (pos 6) hex;
        latest_updated_at = pos 90;
      }
      ∷ [];
  tokens = (token_key 1 mute, format_token (pos 6) hex) ∷ [];
}

abbrev item : Text → ℤ → PushItem
item k time = record { key = k; raw = codes "{}"; updated_at = time; deleted = false }

abbrev request : PushRequest
request = record {
  domain = mute;
  base_token = [];
  items = item (codes "a") (pos 50) ∷ item (codes "b") (pos 60) ∷ [];
}

abbrev unmarshal : Text → Option Value
unmarshal raw = some (obj end)

abbrev works : Statement → Bool
works st = false

abbrev fails_commit : Statement → Bool
fails_commit commit = true
fails_commit st = false

abbrev env : (Statement → Bool) → Env
env fails = record { now = pos 100; hex = hex; cipher = no_cipher; fails = fails }

abbrev after : Service
after = (push unmarshal (env works) store 1 request).0

abbrev new_token : Text
new_token = format_token (pos 100) hex

pushed : push unmarshal (env works) store 1 request ≡ (after, ok (1, new_token))
unfolding push format_token valid_domain contains_sensitive_field find next
    pixiv_relay.Prelude.Int.add64 token_key pixiv_relay.Prelude.Decimal.show_ℕ parse_token
    pixiv_relay.Prelude.cut_prefix pixiv_relay.Prelude.cut pixiv_relay.Prelude.Decimal.format_int
    pixiv_relay.Prelude.Decimal.parse_int pixiv_relay.Prelude.byte_length
pushed = refl

abbrev row_key : Text → Text → ℕ × (Text × Text)
row_key d k = (1, (d, k))

six-ne-five : pos 6 ≢ pos 5
six-ne-five e = absurd (ground arith)

distinct_seqs : HasDistinctKeys row_seq (rows_of store.entries 1 mute)
distinct_seqs = ((six-ne-five, tt), (tt, tt))

saved : reloaded store 1 mute ≡ current? store.tokens 1 mute
unfolding pixiv_relay.Sync.Token.load format_token pixiv_relay.Sync.Token.load_row find token_key
    pixiv_relay.Prelude.Table.upsert
saved = refl

reloaded-push_example :
    (reloaded after 1 mute ≡ some new_token)
    × (reloaded after 1 mute ≡ current? after.tokens 1 mute)
    × HasDistinctKeys domain_key after.domains
reloaded-push_example =
    reloaded-push unmarshal (env works) store after 1 request 1 new_token 1 mute pushed (tt, tt)
      saved

last_carried : previous store.tokens 1 mute ≡ pos 6
unfolding previous find token_key pixiv_relay.Prelude.Decimal.show_ℕ parse_token
    pixiv_relay.Prelude.cut_prefix format_token pixiv_relay.Prelude.cut
    pixiv_relay.Prelude.Decimal.format_int pixiv_relay.Prelude.Decimal.parse_int
    pixiv_relay.Prelude.byte_length
last_carried = refl

numbered : IsNumbered store 1 mute 6
unfolding previous
numbered = record {
  carried = last_carried;
  bounded = ((5, refl, omega arith), ((6, refl, omega arith), tt));
  distinct = ((six-ne-five, tt), (tt, tt));
}

push-IsNumbered_example :
    IsNumbered after 1 mute (end_of (start_of 6 100) 1) × (6 < end_of (start_of 6 100) 1)
unfolding pixiv_relay.Prelude.byte_length
push-IsNumbered_example =
    push-IsNumbered unmarshal (env works) store after 1 request 1 new_token 6 100 pushed numbered
      refl refl (omega arith) (omega arith)

-- Both items name the same key, and the second is the older.
abbrev twice : PushRequest
twice = record {
  domain = mute;
  base_token = [];
  items = item (codes "a") (pos 70) ∷ item (codes "a") (pos 20) ∷ [];
}

IsRecent-rows :
    All
      (IsRecent (pos 100))
      (row mute (codes "a") (pos 10) (pos 5) ∷ row mute (codes "b") (pos 90) (pos 6) ∷ [])
unfolding is_beyond_retention pixiv_relay.Prelude.Int.sub64
IsRecent-rows = (
  record { number = 5; seq_lem = refl; fits = omega arith; young = refl },
  (record { number = 6; seq_lem = refl; fits = omega arith; young = refl }, tt),
)

pull_all_complete_example :
    pull_all no_cipher hex store 1 mute (pos 100) 1 3 []
    ≡ open_rows no_cipher (rows_since store.entries 1 mute (negsuc 0))
unfolding valid_domain since_seq rows_since pixiv_relay.Prelude.byte_length
pull_all_complete_example =
    pull_all_complete no_cipher hex store 1 mute (pos 100) 0 refl refl distinct_seqs IsRecent-rows 3
      [] (negsuc 0) refl (omega arith)

parse_token-format_token_example : parse_token (format_token (pos 6) hex) ≡ some (pos 6)
unfolding pixiv_relay.Prelude.byte_length
parse_token-format_token_example = parse_token-format_token 6 hex (omega arith) refl

abbrev nested : Value
nested = arr (cons (obj (field (codes "accessTOKEN") null end)) nil)

contains_sensitive_field-eq-any_example :
    contains_sensitive_field nested ≡ any (bears token_forms) (field_names nested)
contains_sensitive_field-eq-any_example = contains_sensitive_field-eq-any nested
