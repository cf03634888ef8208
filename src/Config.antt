-- ===== src/Config.antt =====
-- internal/config/config.go: the environment, read once at the start. Getenv, filepath.Join, ParseFloat
-- and the parsers of addresses and networks are arguments, as are floats.
pub mod Entries
pub mod Invites
mod Examples
use pixiv_relay.Admin.Texts.{trim_space, split_comma}
use pixiv_relay.Prelude.Decimal.{parse_int, show_ℕ}
use pixiv_relay.Prelude.Int.{ℤ, pos}
use pixiv_relay.Prelude.{
  ℕ, Bool, true, false, List, [], ◌∷◌, ◌++◌, Option, none, some, Text, codes, any, is_empty,
  nat_beq, text_beq, to_lower, if◌then◌else◌,
}

-- `parse_ip` says whether an address is one of IPv4.
pub record Host (F Ip : Type 0) : Type 0 where
  pub getenv : Text → Text
  pub join_path : Text → Text → Text
  pub parse_float : Text → Option F
  pub is_positive : F → Bool
  pub of_nat : ℕ → F
  pub parse_ip : Text → Option Bool
  pub parse_cidr : Text → Option (Ip → Bool)

pub record Config (F Ip : Type 0) : Type 0 where
  pub port : Text
  pub data_dir : Text
  pub db_path : Text
  pub invite_codes : List Text
  pub static_tokens : List Text
  pub relay_extra_hosts : List Text
  pub upstream_proxy : Text
  pub img_extra_hosts : List Text
  pub cache_dir : Text
  pub cache_tmp_dir : Text
  pub cache_max_bytes : ℤ
  pub cache_layout : Text
  pub cache_high_watermark : F
  pub cache_eviction_batch : ℤ
  pub recover_sources : List Text
  pub recover_ttl_days : ℤ
  pub recover_negative_ttl_days : ℤ
  pub recover_shared : Bool
  pub recover_tmp_dir : Text
  pub web_dir : Text
  pub cors_origins : List Text
  pub data_enc_key : Text
  pub admin_token : Text
  pub rate_write_per_min : F
  pub rate_img_per_min : F
  pub rate_register_per_hour : F
  pub trusted_proxies : List (Ip → Bool)

-- The loop of splitCSV.
unfoldable pub tidy : List Text → List Text
tidy [] = []
tidy (item ∷ items) =
    let rest = tidy items in
    let trimmed = trim_space item in if is_empty trimmed then rest else trimmed ∷ rest

unfoldable pub split_csv : Text → List Text
unfolding tidy split_comma
split_csv s = let (item, items) = split_comma s in tidy (item ∷ items)

abbrev pub or_text : Text → Text → Text
or_text default given = if is_empty given then default else given

abbrev pub or_texts : List Text → List Text → List Text
or_texts default [] = default
or_texts default (t ∷ ts) = t ∷ ts

abbrev pub is_yes : Text → Bool
is_yes t = any (text_beq t) (codes "1" ∷ codes "true" ∷ codes "yes" ∷ [])

-- The number of bits that an address without a network stands for.
abbrev pub whole_net : Text → Option Bool → Option Text
whole_net item none = none
whole_net item (some is_v4) = some (item ++ b'/' ∷ show_ℕ (if is_v4 then 32 else 128))

abbrev pub put_net {ℓ} : {N : Type ℓ} → Option N → List N → List N
put_net none nets = nets
put_net (some n) nets = n ∷ nets

module _ {F Ip : Type 0} (host : Host F Ip) where
  abbrev pub parse_net : Option Text → Option (Ip → Bool)
  parse_net none = none
  parse_net (some item) = host.parse_cidr item

  -- The loop of parseCIDRs.
  unfoldable pub parse_nets : List Text → List (Ip → Bool)
  parse_nets [] = []
  parse_nets (item ∷ items) =
      let with_bits =
        if any (nat_beq b'/') item then some item else whole_net item (host.parse_ip item) in
      put_net (parse_net with_bits) (parse_nets items)

  unfoldable pub parse_cidrs : Text → List (Ip → Bool)
  unfolding parse_nets split_csv
  parse_cidrs s = parse_nets (split_csv s)

  unfoldable pub env_bool : Text → Bool
  env_bool name = is_yes (to_lower (trim_space (host.getenv name)))

  unfoldable pub env_int64 : Text → ℤ → ℤ
  env_int64 name default = elim (parse_int (trim_space (host.getenv name))) [
    | none ↦ default
    | some v ↦ v
  ]

  unfoldable pub env_float : Text → F → F
  env_float name default = elim (host.parse_float (trim_space (host.getenv name))) [
    | none ↦ default
    | some v ↦ v
  ]

  unfoldable pub env_float_def : Text → F → F
  unfolding env_float
  env_float_def name default =
      let v = env_float name (host.of_nat 0) in if host.is_positive v then v else default

  -- Load.
  unfoldable pub load : Config F Ip
  unfolding split_csv env_int64 env_float env_float_def env_bool parse_cidrs
  load =
      let data_dir = or_text (codes "./data") (host.getenv (codes "DATA_DIR")) in
      record {
        port = or_text (codes "8080") (host.getenv (codes "PORT"));
        data_dir = data_dir;
        db_path =
            or_text (host.join_path data_dir (codes "relay.db")) (host.getenv (codes "DB_PATH"));
        invite_codes = split_csv (host.getenv (codes "INVITE_CODES"));
        static_tokens = split_csv (host.getenv (codes "STATIC_TOKENS"));
        relay_extra_hosts = split_csv (host.getenv (codes "RELAY_EXTRA_HOSTS"));
        upstream_proxy = trim_space (host.getenv (codes "UPSTREAM_PROXY"));
        img_extra_hosts = split_csv (host.getenv (codes "IMG_EXTRA_HOSTS"));
        cache_dir =
            or_text (host.join_path data_dir (codes "cache")) (host.getenv (codes "CACHE_DIR"));
        cache_tmp_dir = host.getenv (codes "CACHE_TMP_DIR");
        cache_max_bytes = env_int64 (codes "CACHE_MAX_BYTES") (pos 0);
        cache_layout = host.getenv (codes "CACHE_LAYOUT");
        cache_high_watermark = env_float (codes "CACHE_HIGH_WATERMARK") (host.of_nat 0);
        cache_eviction_batch = env_int64 (codes "CACHE_EVICTION_BATCH") (pos 0);
        recover_sources =
            or_texts (codes "snapshot" ∷ codes "pixiv_cat" ∷ codes "pixiv_re" ∷ [])
              (split_csv (host.getenv (codes "RECOVER_SOURCES")));
        recover_ttl_days = env_int64 (codes "RECOVER_TTL_DAYS") (pos 90);
        recover_negative_ttl_days = env_int64 (codes "RECOVER_NEGATIVE_TTL_DAYS") (pos 7);
        recover_shared = env_bool (codes "RECOVER_SHARED");
        recover_tmp_dir =
            or_text (host.join_path data_dir (codes "recover-tmp"))
              (host.getenv (codes "RECOVER_TMP_DIR"));
        web_dir = trim_space (host.getenv (codes "WEB_DIR"));
        cors_origins = split_csv (host.getenv (codes "CORS_ORIGINS"));
        data_enc_key = trim_space (host.getenv (codes "DATA_ENC_KEY"));
        admin_token = trim_space (host.getenv (codes "ADMIN_TOKEN"));
        rate_write_per_min = env_float_def (codes "RATE_WRITE_PER_MIN") (host.of_nat 60);
        rate_img_per_min = env_float_def (codes "RATE_IMG_PER_MIN") (host.of_nat 300);
        rate_register_per_hour = env_float_def (codes "RATE_REGISTER_PER_HOUR") (host.of_nat 10);
        trusted_proxies = parse_cidrs (host.getenv (codes "TRUSTED_PROXIES"));
      }
