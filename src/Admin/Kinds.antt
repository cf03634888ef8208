-- ===== src/Admin/Kinds.antt =====
-- The type assertions of applyAll in internal/admin/settings.go: a setting always has its own type.
use pixiv_relay.Admin.Settings.{
  stored, Key, cache_max_bytes, cache_high_watermark, recover_ttl_days, recover_negative_ttl_days,
  rate_write_per_min, rate_img_per_min, invite_codes, Setting, int, float, string, SettingRow,
  EnvSnapshot, parse, parse_watermark, parse_positive_int, default_of, env_snapshot, resolve,
  if_positive, if_between, parse_given, fall_back, choose,
}
use pixiv_relay.Admin.Texts.{trim_space}
use pixiv_relay.Prelude.Decimal.{parse_int}
use pixiv_relay.Prelude.Int.{ℤ, pos, leb_ℤ, ◌<ℤ◌}
use pixiv_relay.Prelude.{
  ◌≡◌, Bool, false, List, Option, none, some, Text, arith, Bool-cases, inl, inr,
}

module _ {F : Type 0} (is_outside : F → Bool) where
  abbrev IsPositive : Setting F → Type 0
  IsPositive (int n) = pos 0 <ℤ n
  IsPositive (float x) = ⊥
  IsPositive (string t) = ⊥

  abbrev IsPassed : Setting F → Type 0
  IsPassed (int n) = ⊥
  IsPassed (float x) = is_outside x ≡ false
  IsPassed (string t) = ⊥

  abbrev IsString : Setting F → Type 0
  IsString (int n) = ⊥
  IsString (float x) = ⊥
  IsString (string t) = Unit

  -- The type of a key's value, and its range.
  abbrev pub IsSettingOf : Key → Setting F → Type 0
  IsSettingOf cache_high_watermark v = IsPassed v
  IsSettingOf invite_codes v = IsString v
  IsSettingOf _ v = IsPositive v

  abbrev IfSome : (Setting F → Type 0) → Option (Setting F) → Type 0
  IfSome P none = Unit
  IfSome P (some v) = P v

  if_positive-IfSome : (o : Option ℤ) → IfSome IsPositive (if_positive o)
  if_positive-IfSome none = tt
  if_positive-IfSome (some n) = elim (Bool-cases (leb_ℤ n (pos 0))) [
    | inl low ↦ rw low tt
    | inr high ↦ rw high (ground arith)
  ]

module _ {F : Type 0} (parse_float : Text → Option F) (is_outside : F → Bool) (nine_tenths : F)
    (sane : is_outside nine_tenths ≡ false) where
  if_between-IfSome :
      (o : Option F)
      → IfSome is_outside (IsPassed is_outside) (if_between parse_float is_outside nine_tenths o)
  if_between-IfSome none = tt
  if_between-IfSome (some x) = elim (Bool-cases (is_outside x)) [
    | inl outside ↦ rw outside tt
    | inr passed ↦ rw passed passed
  ]

  parse-IfSome :
      (key : Key) (raw : Text)
      → IfSome is_outside
          (IsSettingOf is_outside key)
          (parse parse_float is_outside nine_tenths key raw)
  unfolding parse parse_watermark parse_positive_int
  parse-IfSome cache_max_bytes raw = if_positive-IfSome is_outside (parse_int (trim_space raw))
  parse-IfSome cache_high_watermark raw = if_between-IfSome (parse_float (trim_space raw))
  parse-IfSome recover_ttl_days raw = if_positive-IfSome is_outside (parse_int (trim_space raw))
  parse-IfSome recover_negative_ttl_days raw =
      if_positive-IfSome is_outside (parse_int (trim_space raw))
  parse-IfSome rate_write_per_min raw = if_positive-IfSome is_outside (parse_int (trim_space raw))
  parse-IfSome rate_img_per_min raw = if_positive-IfSome is_outside (parse_int (trim_space raw))
  parse-IfSome invite_codes raw = tt

  default-IsSettingOf :
      (key : Key) → IsSettingOf is_outside key (default_of parse_float is_outside nine_tenths key)
  unfolding default_of
  default-IsSettingOf cache_max_bytes = omega arith
  default-IsSettingOf cache_high_watermark = sane
  default-IsSettingOf recover_ttl_days = omega arith
  default-IsSettingOf recover_negative_ttl_days = omega arith
  default-IsSettingOf rate_write_per_min = omega arith
  default-IsSettingOf rate_img_per_min = omega arith
  default-IsSettingOf invite_codes = tt

  given-IfSome :
      (key : Key) (o : Option Text)
      → IfSome is_outside
          (IsSettingOf is_outside key)
          (parse_given parse_float is_outside nine_tenths key o)
  unfolding parse_given
  given-IfSome key none = tt
  given-IfSome key (some raw) = parse-IfSome key raw

  fall_back-IsSettingOf :
      (key : Key) (o : Option (Setting F))
      → IfSome is_outside (IsSettingOf is_outside key) o
      → IsSettingOf is_outside key (fall_back parse_float is_outside nine_tenths key o).0
  unfolding fall_back
  fall_back-IsSettingOf key none h = default-IsSettingOf key
  fall_back-IsSettingOf key (some v) h = h

  choose-IsSettingOf :
      (snapshot : EnvSnapshot F) (key : Key) (o : Option (Setting F))
      → IfSome is_outside (IsSettingOf is_outside key) (snapshot key)
      → IfSome is_outside (IsSettingOf is_outside key) o
      → IsSettingOf is_outside key (choose parse_float is_outside nine_tenths snapshot key o).0
  unfolding choose
  choose-IsSettingOf snapshot key none e h = fall_back-IsSettingOf key (snapshot key) e
  choose-IsSettingOf snapshot key (some v) e h = h

  -- Whatever stands in the table and in the environment, the value of each setting has the type that
  -- applyAll asserts: a text, a positive number, or a watermark that the test `v <= 0 || v >= 1` lets
  -- pass, which it does a NaN. (It lets the built-in watermark pass.)
  pub resolve-IsSettingOf :
      (fails : Bool) (lookup_env : Key → Option Text) (rows : List SettingRow) (key : Key)
      → IsSettingOf is_outside key
          (resolve parse_float is_outside nine_tenths fails
            (env_snapshot parse_float is_outside nine_tenths lookup_env)
            rows
            key).0
  unfolding resolve env_snapshot
  resolve-IsSettingOf fails lookup_env rows key =
      choose-IsSettingOf (env_snapshot parse_float is_outside nine_tenths lookup_env) key
        (parse_given parse_float is_outside nine_tenths key (stored fails rows key))
        (given-IfSome key (lookup_env key)) (given-IfSome key (stored fails rows key))
