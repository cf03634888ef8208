-- ===== src/Admin/Effect.antt =====
-- A patch of settings that is accepted and stored takes effect.
use pixiv_relay.Admin.Settings.{
  Key, cache_max_bytes, cache_high_watermark, recover_ttl_days, recover_negative_ttl_days,
  rate_write_per_min, rate_img_per_min, invite_codes, all_keys, key_name, key_named, Setting,
  string, db, SettingRow, setting_key, EnvSnapshot, parse, parse_watermark, parse_positive_int,
  parse_given, stored, choose, resolve, check_setting, check_parsed, validate_patch,
  upsert_settings, finish, persist_settings,
}
use pixiv_relay.Admin.Texts.{trim_space, parse_invite_codes}
use pixiv_relay.Admin.Trim.{trim_space_twice}
use pixiv_relay.Common.Errors.{Result, ok, err, Error, >>=-eq-ok, ok_injective}
use pixiv_relay.Prelude.Int.{ℤ}
use pixiv_relay.Prelude.Table.{find, upsert, find-upsert_self, find-upsert_ne}
use pixiv_relay.Prelude.{
  ℕ, ◌+◌, ◌≡◌, refl, ap, ◌∙◌, sym, Bool, true, false, ◌≢◌, List, [], ◌∷◌, ◌++◌, Option, none, some,
  Text, any, arith, text_beq, text_eq, if◌then◌else◌,
}

abbrev pub is_named : Text → Text × Text → Bool
is_named name p = text_beq p.0 name

key_named-key_name : (key : Key) → key_named (key_name key) all_keys ≡ some key
unfolding key_named key_name
key_named-key_name cache_max_bytes = refl
key_named-key_name cache_high_watermark = refl
key_named-key_name recover_ttl_days = refl
key_named-key_name recover_negative_ttl_days = refl
key_named-key_name rate_write_per_min = refl
key_named-key_name rate_img_per_min = refl
key_named-key_name invite_codes = refl

-- An operation that did not fail at its guard.
past_guard {ℓ} :
    {A : Type ℓ} (b : Bool) (e : Error) (r : Result A) {x : A}
    → (if b then err e else r) ≡ ok x
    → r ≡ ok x
past_guard true e r h = absurd (cc)
past_guard false e r h = h

or_false : (a b : Bool) → (if a then true else b) ≡ false → (a ≡ false) × (b ≡ false)
or_false true b h = absurd (cc)
or_false false b h = (refl, h)

abbrev row_of : ℤ → Text → Text → SettingRow
row_of now name value = record { key = name; value = value; updated_at = now }

find-upsert_settings_ne :
    (fails : ℕ → Bool) (i : ℕ) (now : ℤ) (name : Text) (kv : List (Text × Text))
    (rows : List SettingRow) {rows' : List SettingRow}
    → any (is_named name) kv ≡ false
    → upsert_settings fails i now kv rows ≡ ok rows'
    → find setting_key name rows' ≡ find setting_key name rows
unfolding upsert_settings
find-upsert_settings_ne fails i now name [] rows out h =
    ap (find setting_key name) (sym (ok_injective h))
find-upsert_settings_ne fails i now name ((k, v) ∷ kv) rows out h =
    let (differs, rest) = or_false (text_beq k name) (any (is_named name) kv) out in
    let other : name ≢ k = λ e. absurd (ground (arith, differs, text_eq.beq_iff k name, e)) in
    find-upsert_settings_ne fails (i + 1) now name kv (upsert setting_key (row_of now k v) rows)
      rest (past_guard (fails i) _ _ h)
    ∙ find-upsert_ne setting_key (row_of now k v) name rows other

find-upsert_settings :
    (fails : ℕ → Bool) (i : ℕ) (now : ℤ) (name value : Text) (kv later : List (Text × Text))
    (rows : List SettingRow) {rows' : List SettingRow}
    → any (is_named name) later ≡ false
    → upsert_settings fails i now (kv ++ (name, value) ∷ later) rows ≡ ok rows'
    → find setting_key name rows' ≡ some (row_of now name value)
unfolding upsert_settings
find-upsert_settings fails i now name value [] later rows out h =
    find-upsert_settings_ne fails (i + 1) now name later
      (upsert setting_key (row_of now name value) rows) out (past_guard (fails i) _ _ h)
    ∙ find-upsert_self setting_key (row_of now name value) rows
find-upsert_settings fails i now name value ((k, v) ∷ kv) later rows out h =
    find-upsert_settings fails (i + 1) now name value kv later
      (upsert setting_key (row_of now k v) rows) out (past_guard (fails i) _ _ h)

finished :
    (commit_fails : Bool) (rows : List SettingRow) (r : Result (List SettingRow))
    → (finish commit_fails rows r).1 ≡ ok tt
    → r ≡ ok (finish commit_fails rows r).0
finished commit_fails rows (err e) h = absurd (cc (h))
finished true rows (ok rows') h = absurd (cc (h))
finished false rows (ok rows') h = refl

persisted :
    (now : ℤ) (begin_fails : Bool) (fails : ℕ → Bool) (commit_fails : Bool)
    (kv : List (Text × Text)) (rows : List SettingRow)
    → (persist_settings begin_fails fails commit_fails now kv rows).1 ≡ ok tt
    → upsert_settings fails 0 now kv rows
      ≡ ok (persist_settings begin_fails fails commit_fails now kv rows).0
unfolding persist_settings
persisted now true fails commit_fails kv rows h = absurd (cc (h))
persisted now false fails commit_fails kv rows h =
    finished commit_fails rows (upsert_settings fails 0 now kv rows) h

module _ {F : Type 0} (parse_float : Text → Option F) (is_outside : F → Bool)
    (nine_tenths : F) where
  abbrev validate : List (Text × Text) → Result (List (Text × Text))
  validate = validate_patch parse_float is_outside nine_tenths

  -- A patch that passed, by its first setting and the others.
  validate_cons :
      (name raw : Text) (patch : List (Text × Text)) {kv : List (Text × Text)}
      → validate ((name, raw) ∷ patch) ≡ ok kv
      → (check_setting parse_float is_outside nine_tenths name raw (key_named name all_keys)
          ≡ ok tt)
        × (rest : List (Text × Text)) × (validate patch ≡ ok rest)
        × (kv ≡ (name, trim_space raw) ∷ rest)
  unfolding validate_patch
  validate_cons name raw patch h =
      let (_, checked, e) = >>=-eq-ok _ _ h in
      let (rest, f, g) = >>=-eq-ok _ _ e in (checked, rest, f, sym (ok_injective g))

  validate_names :
      (name : Text) (patch : List (Text × Text)) {kv : List (Text × Text)}
      → validate patch ≡ ok kv
      → any (is_named name) kv ≡ any (is_named name) patch
  unfolding validate_patch
  validate_names name [] h = ap (any (is_named name)) (sym (ok_injective h))
  validate_names name ((k, raw) ∷ patch) h =
      let (_, rest, f, e) = validate_cons k raw patch h in
      ap (any (is_named name)) e
      ∙ ap (λ b. if text_beq k name then true else b) (validate_names name patch f)

  validate_split :
      (name raw : Text) (before after : List (Text × Text)) {kv : List (Text × Text)}
      → any (is_named name) after ≡ false
      → validate (before ++ (name, raw) ∷ after) ≡ ok kv
      → (check_setting parse_float is_outside nine_tenths name raw (key_named name all_keys)
          ≡ ok tt)
        × (earlier later : List (Text × Text)) × (kv ≡ earlier ++ (name, trim_space raw) ∷ later)
        × (any (is_named name) later ≡ false)
  validate_split name raw [] after out h =
      let (checked, rest, f, e) = validate_cons name raw after h in
      (checked, [], rest, e, validate_names name after f ∙ out)
  validate_split name raw ((k, r) ∷ before) after out h =
      let (_, rest, f, e) = validate_cons k r (before ++ (name, raw) ∷ after) h in
      let (checked, earlier, later, g, absent) = validate_split name raw before after out f in
      (checked, (k, trim_space r) ∷ earlier, later, e ∙ ap (λ s. (k, trim_space r) ∷ s) g, absent)

  check_parsed_ok :
      (key : Key) (name : Text) (o : Option (Setting F))
      → check_parsed parse_float is_outside nine_tenths key name o ≡ ok tt
      → (v : Setting F) × (o ≡ some v)
  check_parsed_ok key name none h = absurd (cc (h))
  check_parsed_ok key name (some v) h = (v, refl)

  -- What passes the check still parses when it is trimmed.
  parse-trim_space :
      (key : Key) (raw : Text) (v : Setting F)
      → parse parse_float is_outside nine_tenths key raw ≡ some v
      → (w : Setting F) × (parse parse_float is_outside nine_tenths key (trim_space raw) ≡ some w)
  unfolding parse parse_watermark parse_positive_int
  parse-trim_space invite_codes raw v h = (string (parse_invite_codes (trim_space raw)), refl)
  parse-trim_space cache_max_bytes raw v h = (v, rw (trim_space_twice raw) h)
  parse-trim_space cache_high_watermark raw v h = (v, rw (trim_space_twice raw) h)
  parse-trim_space recover_ttl_days raw v h = (v, rw (trim_space_twice raw) h)
  parse-trim_space recover_negative_ttl_days raw v h = (v, rw (trim_space_twice raw) h)
  parse-trim_space rate_write_per_min raw v h = (v, rw (trim_space_twice raw) h)
  parse-trim_space rate_img_per_min raw v h = (v, rw (trim_space_twice raw) h)

  resolve-stored :
      (snapshot : EnvSnapshot F) (rows : List SettingRow) (key : Key) (r : SettingRow)
      (v : Setting F)
      → find setting_key (key_name key) rows ≡ some r
      → parse parse_float is_outside nine_tenths key r.value ≡ some v
      → resolve parse_float is_outside nine_tenths false snapshot rows key ≡ (v, db)
  unfolding resolve stored parse_given choose
  resolve-stored snapshot rows key r v h e = rw (h, e) refl

  -- After a patch passes validation and is stored, the last text that it has for a setting, trimmed,
  -- parses, and its value is the one in force, from the database, whatever the environment says and
  -- the table held before.
  pub resolve-persist_settings :
      (snapshot : EnvSnapshot F) (begin_fails : Bool) (fails : ℕ → Bool) (commit_fails : Bool)
      (now : ℤ) (key : Key) (raw : Text) (before after : List (Text × Text))
      (kv : List (Text × Text)) (rows : List SettingRow)
      → any (is_named (key_name key)) after ≡ false
      → validate_patch parse_float is_outside nine_tenths (before ++ (key_name key, raw) ∷ after)
        ≡ ok kv
      → (persist_settings begin_fails fails commit_fails now kv rows).1 ≡ ok tt
      → (v : Setting F) × (parse parse_float is_outside nine_tenths key (trim_space raw) ≡ some v)
        × (resolve parse_float is_outside nine_tenths false snapshot
              (persist_settings begin_fails fails commit_fails now kv rows).0
              key
            ≡ (v, db))
  resolve-persist_settings snapshot begin_fails fails commit_fails now key raw before after kv rows
        last valid done =
      let (checked, earlier, later, same, absent) =
        validate_split (key_name key) raw before after last valid in
      let (u, parsed) =
        check_parsed_ok key (key_name key) (parse parse_float is_outside nine_tenths key raw) (
          ap (check_setting parse_float is_outside nine_tenths (key_name key) raw)
            (sym (key_named-key_name key))
          ∙ checked) in
      let (v, trimmed) = parse-trim_space key raw u parsed in
      let written =
        ap (λ s. upsert_settings fails 0 now s rows) (sym same)
        ∙ persisted now begin_fails fails commit_fails kv rows done in
      let found =
        find-upsert_settings fails 0 now (key_name key) (trim_space raw) earlier later rows absent
          written in
      (v, trimmed, resolve-stored snapshot _ key _ v found trimmed)
