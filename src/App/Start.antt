-- ===== src/App/Start.antt =====
-- NewWithClient of internal/app/app.go up to the routes: the parts are built from the configuration, in
-- the order of the code; the first that fails ends the start.
use pixiv_relay.Admin.Settings.{SettingRow}
use pixiv_relay.Admin.Texts.{trim_space}
use pixiv_relay.App.Operator.{apply_all, resolve_all}
use pixiv_relay.App.State.{State, Server, Oracle}
use pixiv_relay.Auth
use pixiv_relay.Auth.Store.{Db, Middleware, ensure_static_account}
use pixiv_relay.Cache
use pixiv_relay.Cache.Evict.{EvictFaults}
use pixiv_relay.Cache.Open.{OpenFaults, open_cache}
use pixiv_relay.Cache.Store.{DiskLru, Meta}
use pixiv_relay.Common.Errors.{Result, ok, err, internal, refuse, ◌>>=◌, ◌>>◌}
use pixiv_relay.Common.Limits.{new_limiter}
use pixiv_relay.Config.{Config}
use pixiv_relay.Crypto.Aead
use pixiv_relay.Crypto.Aead.{Aead, load_key, cipher_of}
use pixiv_relay.Prelude.Int.{pos}
use pixiv_relay.Prelude.{
  ℕ, Bool, List, [], ◌∷◌, Option, none, some, Text, codes, is_empty, not, if◌then◌else◌,
}
use pixiv_relay.Recover.Build.{Wanted, new_service}
use pixiv_relay.Recover.Queue.{Queue, Row}
use pixiv_relay.Sync.Store.{Entry, DomainRow, load_service}
use pixiv_relay.Sync.Token.{load}
use pixiv_relay.Web.Spa.{Tools}

-- The tables and files that are there before the start.
pub record Disk : Type 0 where
  pub db : Db
  pub entries : List Entry
  pub domains : List DomainRow
  pub recover_rows : List Row
  pub settings : List SettingRow
  pub cache_rows : List Meta
  pub cache_files : List (Text × Text)

-- What the start meets: the code of others, and which calls fail. `is_ratio` says whether a watermark
-- is one, `over_60` divides by sixty, and `files` is SPAHandler of a directory, none where it fails.
pub record Meets (F : Type 0) : Type 0 where
  pub crypto_base64 : Aead.Base64
  pub new_aead : Text → Option Aead
  pub nonce : ℕ → Text
  pub auth : Auth.Store.Env
  pub bad_proxy : Bool
  pub is_ratio : F → Bool
  pub over_60 : F → F
  pub of_nat : ℕ → F
  pub cache_faults : OpenFaults
  pub evict_faults : ℕ → EvictFaults
  pub rounds : ℕ
  pub load_fails : Bool
  pub mkdir_fails : Bool
  pub files : Text → Option Tools

-- NewMiddleware: the shared account is there only for static tokens.
unfoldable pub new_middleware : Auth.Store.Env → List Text → Db → Db × Result Middleware
unfolding ensure_static_account
new_middleware env [] db = (db, ok (record { static_tokens = []; static_account_id = 0 }))
new_middleware env (t ∷ ts) db =
    let (db', id) = ensure_static_account env (codes "arkpix-static-shared-account") db in
    (db', do i ← id; ok (record { static_tokens = t ∷ ts; static_account_id = i }))

abbrev pub or_stop {ℓ} : {A : Type ℓ} → Text → Option A → Result A
or_stop text none = err (internal text)
or_stop text (some a) = ok a

module _ {F R B Ip : Type 0} (lib : Server F R B Ip) (oracle : Oracle) (meets : Meets F)
    (cfg : Config F Ip) (disk : Disk) where
  -- The server of the configuration; what is code of others is that of `lib`.
  abbrev pub configured : Middleware → Option Aead → Tools → Server F R B Ip
  configured tokens key files =
      let cipher = cipher_of meets.crypto_base64 key meets.nonce in
      record lib {
        trusted = cfg.trusted_proxies;
        tokens = tokens;
        admin_token = cfg.admin_token;
        origins = cfg.cors_origins;
        relay_hosts = cfg.relay_extra_hosts;
        img_hosts = cfg.img_extra_hosts;
        shared = cfg.recover_shared;
        cipher = cipher;
        codec = record lib.codec { cipher = cipher };
        files = files;
      }

  abbrev pub first_state : Db → DiskLru F → Queue → State F R B
  first_state db cache queue = record {
    db = db;
    sync = load_service disk.entries disk.domains;
    queue = queue;
    cache = cache;
    flights = [];
    settings = disk.settings;
    invites = cfg.invite_codes;
    register_limiter = new_limiter lib.buckets (meets.over_60 cfg.rate_register_per_hour) 3;
    admin_limiter = new_limiter lib.buckets (meets.over_60 (meets.of_nat 30)) 5;
    write_limiter = new_limiter lib.buckets cfg.rate_write_per_min 10;
    img_limiter = new_limiter lib.buckets cfg.rate_img_per_min 30;
    log = [];
  }

  -- With a token for the operator, the settings in force are handed out at once (NewService of
  -- internal/admin/service.go).
  abbrev pub with_admin : Server F R B Ip → State F R B → State F R B
  with_admin server s =
      if is_empty cfg.admin_token then s else apply_all server (resolve_all server oracle s) s

  abbrev pub empty_queue : Queue
  empty_queue = record {
    rows = disk.recover_rows;
    inflight = [];
    working = [];
    done = [];
    ttl = pos 0;
    negative_ttl = pos 0;
  }

  abbrev pub cache_config : Cache.Store.Config F
  cache_config = record {
    dir = cfg.cache_dir;
    tmp_dir = cfg.cache_tmp_dir;
    max_bytes = cfg.cache_max_bytes;
    max_file_bytes = pos 0;
    layout = cfg.cache_layout;
    high_watermark = cfg.cache_high_watermark;
    eviction_batch = cfg.cache_eviction_batch;
  }

  unfoldable pub opened_cache : Result (DiskLru F × Bool)
  unfolding open_cache
  opened_cache =
      open_cache meets.is_ratio lib.nine_tenths lib.scale meets.cache_faults meets.evict_faults
        meets.rounds cache_config disk.cache_rows disk.cache_files

  unfoldable pub built_queue : Result (List Wanted × (List Text × Queue))
  unfolding new_service
  built_queue =
      new_service meets.mkdir_fails cfg.recover_tmp_dir cfg.recover_sources cfg.img_extra_hosts
        cfg.recover_ttl_days cfg.recover_negative_ttl_days empty_queue

  -- From the middleware on. There is no server while the first eviction of the cache goes on.
  unfoldable pub build_parts :
      Option Aead → Db × Result Middleware → Result (Server F R B Ip × State F R B)
  unfolding opened_cache built_queue load new_limiter apply_all resolve_all
  build_parts key (db, tokens) = do
    mw ← tokens
    refuse meets.bad_proxy (internal (codes "relay: bad proxy"))
    opened ← opened_cache
    refuse (not opened.1) (internal (codes "cache: the first eviction has not ended"))
    refuse meets.load_fails (internal (codes "load sync tokens"))
    built ← built_queue
    files ← or_stop (codes "web static dir") (meets.files cfg.web_dir)
    ok (
      configured mw key files,
      with_admin (configured mw key files) (first_state db opened.0 built.1.1),
    )

  -- After the key is read.
  abbrev pub start_with : Result (Option Aead) → Db × Result (Server F R B Ip × State F R B)
  start_with (err e) = (disk.db, err e)
  start_with (ok key) =
      let made = new_middleware meets.auth cfg.static_tokens disk.db in
      (made.0, build_parts key made)

  -- The tables of the accounts as the start leaves them, and the server with its state.
  unfoldable pub start : Db × Result (Server F R B Ip × State F R B)
  unfolding load_key new_middleware build_parts
  start = start_with (load_key meets.crypto_base64 trim_space meets.new_aead cfg.data_enc_key)
