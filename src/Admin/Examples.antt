-- ===== src/Admin/Examples.antt =====
-- The theorems on internal/admin, applied to a table of two accounts and to a stored setting.
use pixiv_relay.Admin.Accounts.{Tables, Statement, delete_account}
use pixiv_relay.Admin.Codes.{is_among, csv_to_list-parse_invite_codes}
use pixiv_relay.Prelude.Table.{HasDistinctKeys}
use pixiv_relay.Admin.Effect.{is_named, resolve-persist_settings}
use pixiv_relay.Admin.Kinds.{IsSettingOf, resolve-IsSettingOf}
use pixiv_relay.Admin.Removal.{share, delete_account-share}
use pixiv_relay.Admin.Settings.{
  Key, recover_ttl_days, cache_high_watermark, SettingRow, Setting, int, db, env, env_snapshot,
  resolve, validate_patch, parse, persist_settings, key_name, key_name,
}
use pixiv_relay.Admin.Texts.{fields_of, csv_to_list, parse_invite_codes, trim_space}
use pixiv_relay.Auth.Store.{Account}
use pixiv_relay.Common.Errors.{ok, err, bad_request}
use pixiv_relay.Prelude.Decimal.{parse_int}
use pixiv_relay.Prelude.Int.{pos}
use pixiv_relay.Prelude.{
  any, ℕ, ◌≡◌, refl, Bool, true, false, List, [], ◌∷◌, Option, none, some, Text, codes, text_beq,
  if◌then◌else◌, text_eq, nat_beq, leb, ◌||◌,
}
use pixiv_relay.Sync.Store.{Entry}

abbrev account : ℕ → Account
account id = record { id = id; account_key_hash = codes "hash"; created_at = pos 5 }

abbrev entry : ℕ → Entry
entry id = record {
  account = id;
  domain = codes "follow";
  key = codes "1";
  data_text = codes "{}";
  updated_at = pos 5;
  deleted = false;
  seq = pos 1;
}

abbrev tables : Tables
tables = record {
  accounts = account 1 ∷ (account 2 ∷ []);
  devices = [];
  entries = entry 2 ∷ (entry 1 ∷ []);
  domains = [];
  recover_rows = [];
}

abbrev works : Statement → Bool
works s = false

removed : (delete_account works 1 tables).1 ≡ ok tt
unfolding delete_account
removed = refl

missing : (delete_account works 3 tables).0 ≡ tables
unfolding delete_account
missing = refl

delete_account-share_example : share 2 (delete_account works 1 tables).0 ≡ share 2 tables
delete_account-share_example = delete_account-share works 1 2 tables removed

-- A watermark counts in hundredths here.
abbrev hundredths : Text → Option ℕ
hundredths t = if text_beq t (codes "0.5") then some 50 else none

abbrev is_outside : ℕ → Bool
is_outside x = leb x 0 || leb 100 x

abbrev setting : Text → SettingRow
setting value = record { key = codes "recover_ttl_days"; value = value; updated_at = pos 5 }

abbrev no_env : Key → Option Text
no_env key = none

stored_setting :
    resolve hundredths is_outside 90 false
      (env_snapshot hundredths is_outside 90 no_env)
      (setting (codes " 30 ") ∷ [])
      recover_ttl_days
    ≡ (int (pos 30), db)
unfolding resolve pixiv_relay.Admin.Settings.stored pixiv_relay.Prelude.Table.find
    pixiv_relay.Admin.Settings.parse_positive_int parse_int pixiv_relay.Admin.Texts.trim_space
stored_setting = refl

refused :
    validate_patch hundredths is_outside 90 ((codes "recover_ttl_days", codes "0") ∷ [])
    ≡ err (bad_request (codes "invalid value for recover_ttl_days: must be a positive integer"))
unfolding validate_patch pixiv_relay.Admin.Settings.parse_positive_int parse_int
    pixiv_relay.Admin.Texts.trim_space parse
refused = refl

resolve-IsSettingOf_example :
    IsSettingOf is_outside recover_ttl_days
      (resolve hundredths is_outside 90 false
        (env_snapshot hundredths is_outside 90 no_env)
        (setting (codes " 30 ") ∷ [])
        recover_ttl_days).0
resolve-IsSettingOf_example =
    resolve-IsSettingOf hundredths is_outside 90 refl false no_env (setting (codes " 30 ") ∷ [])
      recover_ttl_days

abbrev patch : List (Text × Text)
patch = (codes "recover_ttl_days", codes " 30 ") ∷ ((codes "invite_codes", codes "a b a") ∷ [])

abbrev normalized : List (Text × Text)
normalized = (codes "recover_ttl_days", codes "30") ∷ ((codes "invite_codes", codes "a b a") ∷ [])

abbrev no_statement_fails : ℕ → Bool
no_statement_fails i = false

valid : validate_patch hundredths is_outside 90 patch ≡ ok normalized
unfolding validate_patch parse pixiv_relay.Admin.Settings.parse_positive_int parse_int trim_space
valid = refl

persisted :
    (persist_settings false no_statement_fails false
      (pos 6)
      normalized
      (setting (codes "7") ∷ [])).1
    ≡ ok tt
unfolding persist_settings
persisted = refl

named_once :
    any (is_named (key_name recover_ttl_days)) ((codes "invite_codes", codes "a b a") ∷ []) ≡ false
unfolding key_name
named_once = refl

resolve-persist_settings_example :
    (v : Setting ℕ) × (parse hundredths is_outside 90 recover_ttl_days (trim_space (codes " 30 "))
      ≡ some v)
    × (resolve hundredths is_outside 90 false
          (env_snapshot hundredths is_outside 90 no_env)
          (persist_settings false no_statement_fails false
            (pos 6)
            normalized
            (setting (codes "7") ∷ [])).0
          recover_ttl_days
        ≡ (v, db))
unfolding key_name
resolve-persist_settings_example =
    resolve-persist_settings hundredths is_outside 90 (env_snapshot hundredths is_outside 90 no_env)
      false no_statement_fails false (pos 6) recover_ttl_days (codes " 30 ") []
      ((codes "invite_codes", codes "a b a") ∷ []) normalized (setting (codes "7") ∷ []) named_once
      valid persisted

words : fields_of (codes "a b,, a") ≡ codes "a" ∷ (codes "b" ∷ (codes "a" ∷ []))
unfolding fields_of
words = refl

in_force : csv_to_list (parse_invite_codes (codes "a b,, a")) ≡ codes "a" ∷ (codes "b" ∷ [])
unfolding csv_to_list parse_invite_codes
in_force = refl

csv_to_list-parse_invite_codes_example :
    (is_among (codes "b") (csv_to_list (parse_invite_codes (codes "a b,, a")))
      ≡ is_among (codes "b") (fields_of (codes "a b,, a")))
    × HasDistinctKeys (λ s. s) (csv_to_list (parse_invite_codes (codes "a b,, a")))
csv_to_list-parse_invite_codes_example =
    csv_to_list-parse_invite_codes (codes "a b,, a") (codes "b")
