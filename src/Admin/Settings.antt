-- ===== src/Admin/Settings.antt =====
-- internal/admin/settings.go: the keys that can be changed while the server runs. ParseFloat and the
-- comparisons of its result are arguments.
use pixiv_relay.Common.Errors.{Result, ok, err, internal, bad_request, ◌>>=◌, ◌>>◌}
use pixiv_relay.Admin.Texts.{trim_space, parse_invite_codes}
use pixiv_relay.Prelude.Decimal.{parse_int}
use pixiv_relay.Prelude.Int.{ℤ, pos, leb_ℤ}
use pixiv_relay.Prelude.Table.{find, upsert}
use pixiv_relay.Prelude.{
  ℕ, ◌+◌, ◌*◌, ◌^◌, Bool, List, [], ◌∷◌, ◌++◌, Option, none, some, Text, codes, text_beq,
  if◌then◌else◌, text_eq,
}

pub data Key : Type 0 where
  cache_max_bytes cache_high_watermark recover_ttl_days recover_negative_ttl_days : Key
  rate_write_per_min rate_img_per_min invite_codes : Key

-- A value as `any` holds it: int64, float64 or string.
pub data Setting (F : Type 0) : Type 0 where
  int : ℤ → Setting F
  float : F → Setting F
  string : Text → Setting F

pub data Origin : Type 0 where
  db env default : Origin

unfoldable pub key_name : Key → Text
key_name cache_max_bytes = codes "cache_max_bytes"
key_name cache_high_watermark = codes "cache_high_watermark"
key_name recover_ttl_days = codes "recover_ttl_days"
key_name recover_negative_ttl_days = codes "recover_negative_ttl_days"
key_name rate_write_per_min = codes "rate_write_per_min"
key_name rate_img_per_min = codes "rate_img_per_min"
key_name invite_codes = codes "invite_codes"

abbrev pub all_keys : List Key
all_keys =
    cache_max_bytes ∷ cache_high_watermark ∷ recover_ttl_days ∷ recover_negative_ttl_days
    ∷ rate_write_per_min ∷ rate_img_per_min ∷ invite_codes ∷ []

unfoldable pub key_named : Text → List Key → Option Key
unfolding key_name
key_named name [] = none
key_named name (k ∷ keys) = if text_beq (key_name k) name then some k else key_named name keys

pub record SettingRow : Type 0 where
  pub key : Text
  pub value : Text
  pub updated_at : ℤ

abbrev pub setting_key : SettingRow → Text
setting_key r = r.key

abbrev value_of : Option SettingRow → Option Text
value_of none = none
value_of (some r) = some r.value

-- The text that a setting has in the table; a failing query counts as a missing row.
unfoldable pub stored : Bool → List SettingRow → Key → Option Text
unfolding key_name
stored fails rows key = if fails then none else value_of (find setting_key (key_name key) rows)

-- The environment variables that were set and parsed at the start.
abbrev pub EnvSnapshot : Type 0 → Type 0
EnvSnapshot F = Key → Option (Setting F)

module _ {F : Type 0} where
  abbrev pub if_positive : Option ℤ → Option (Setting F)
  if_positive none = none
  if_positive (some n) = if leb_ℤ n (pos 0) then none else some (int n)

  unfoldable pub parse_positive_int : Text → Option (Setting F)
  parse_positive_int raw = if_positive (parse_int (trim_space raw))

-- `is_outside v` is the test `v <= 0 || v >= 1` on floats, which is false of a NaN.
module _ {F : Type 0} (parse_float : Text → Option F) (is_outside : F → Bool)
    (nine_tenths : F) where
  abbrev pub if_between : Option F → Option (Setting F)
  if_between none = none
  if_between (some x) = if is_outside x then none else some (float x)

  unfoldable pub parse_watermark : Text → Option (Setting F)
  parse_watermark raw = if_between (parse_float (trim_space raw))

  -- The column `parse` of settingDefs; `none` is an error.
  unfoldable pub parse : Key → Text → Option (Setting F)
  unfolding parse_watermark
  parse cache_high_watermark raw = parse_watermark raw
  parse invite_codes raw = some (string (parse_invite_codes raw))
  parse _ raw = parse_positive_int raw

  -- The column `def`.
  unfoldable pub default_of : Key → Setting F
  default_of cache_max_bytes = int (pos (20 * 2 ^ 30))
  default_of cache_high_watermark = float nine_tenths
  default_of recover_ttl_days = int (pos 90)
  default_of recover_negative_ttl_days = int (pos 7)
  default_of rate_write_per_min = int (pos 60)
  default_of rate_img_per_min = int (pos 300)
  default_of invite_codes = string []

  unfoldable pub parse_given : Key → Option Text → Option (Setting F)
  unfolding parse
  parse_given key none = none
  parse_given key (some raw) = parse key raw

  unfoldable pub env_snapshot : (Key → Option Text) → EnvSnapshot F
  unfolding parse_given
  env_snapshot lookup_env key = parse_given key (lookup_env key)

  -- From the environment, or else the default.
  unfoldable pub fall_back : Key → Option (Setting F) → Setting F × Origin
  unfolding default_of
  fall_back key none = (default_of key, default)
  fall_back key (some v) = (v, env)

  unfoldable pub choose : EnvSnapshot F → Key → Option (Setting F) → Setting F × Origin
  unfolding fall_back
  choose snapshot key none = fall_back key (snapshot key)
  choose snapshot key (some v) = (v, db)

  unfoldable pub resolve : Bool → EnvSnapshot F → List SettingRow → Key → Setting F × Origin
  unfolding parse_given choose
  resolve fails snapshot rows key = choose snapshot key (parse_given key (stored fails rows key))

  -- What the error of `parse` says.
  abbrev reason : Key → Text
  reason cache_high_watermark = codes "must be a float in (0, 1)"
  reason _ = codes "must be a positive integer"

  abbrev pub check_parsed : Key → Text → Option (Setting F) → Result (Unit {0})
  check_parsed key name none =
      err (bad_request (codes "invalid value for " ++ name ++ codes ": " ++ reason key))
  check_parsed key name (some v) = ok tt

  abbrev pub check_setting : Text → Text → Option Key → Result (Unit {0})
  check_setting name raw none = err (bad_request (codes "unknown setting key: " ++ name))
  check_setting name raw (some key) = check_parsed key name (parse key raw)

  -- validatePatch: the texts to store, or the first refusal.
  unfoldable pub validate_patch : List (Text × Text) → Result (List (Text × Text))
  unfolding key_named
  validate_patch [] = ok []
  validate_patch ((name, raw) ∷ patch) = do
    check_setting name raw (key_named name all_keys)
    rest ← validate_patch patch
    ok ((name, trim_space raw) ∷ rest)

-- The loop over the settings of a patch; `fails` says which of its statements do.
unfoldable pub upsert_settings :
    (ℕ → Bool) → ℕ → ℤ → List (Text × Text) → List SettingRow → Result (List SettingRow)
upsert_settings fails i now [] rows = ok rows
upsert_settings fails i now ((key, value) ∷ kv) rows =
    if fails i
    then err (internal (codes "upsert setting " ++ key))
    else upsert_settings fails (i + 1) now kv
        (upsert setting_key (record { key = key; value = value; updated_at = now }) rows)

abbrev pub finish :
    Bool → List SettingRow → Result (List SettingRow) → List SettingRow × Result (Unit {0})
finish commit_fails rows (err e) = (rows, err e)
finish commit_fails rows (ok rows') =
    if commit_fails then (rows, err (internal (codes "commit settings tx"))) else (rows', ok tt)

unfoldable pub persist_settings :
    Bool
    → (ℕ → Bool)
    → Bool
    → ℤ
    → List (Text × Text)
    → List SettingRow
    → List SettingRow × Result (Unit {0})
unfolding upsert_settings
persist_settings begin_fails fails commit_fails now kv rows =
    if begin_fails
    then (rows, err (internal (codes "begin settings tx")))
    else finish commit_fails rows (upsert_settings fails 0 now kv rows)
