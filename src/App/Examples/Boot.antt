-- ===== src/App/Examples/Boot.antt =====
-- The start of the server from an environment, with one file in its cache.
use pixiv_relay.App.Examples.{files, server, oracle, row, state}
use pixiv_relay.App.State.{State, Server}
use pixiv_relay.App.Start.{Disk, Meets, start, cache_config, new_middleware}
use pixiv_relay.App.Boot.{Works, start-Succeeds}
use pixiv_relay.App.Ready.{IsReady}
use pixiv_relay.Admin.Texts.{trim_space}
use pixiv_relay.Cache
use pixiv_relay.Cache.Rounds.{IsQuiet}
use pixiv_relay.Cache.Store.{normalize_config}
use pixiv_relay.Crypto.Aead.{load_key}
use pixiv_relay.Config.{Host, load}
use pixiv_relay.Auth.Store.{Middleware}
use pixiv_relay.Cache.Store.{DiskLru}
use pixiv_relay.Common.Errors.{ok, err}
use pixiv_relay.Prelude.Int.{pos}
use pixiv_relay.Prelude.{
  ℕ, ◌≡◌, refl, true, false, [], ◌∷◌, ◌++◌, if◌then◌else◌, text_beq, ltb, none, some, Text, codes,
  arith, text_eq, nat_eq, pair_eq,
}

abbrev host : Host ℕ Text
host = record {
  getenv = λ name. if text_beq name (codes "ADMIN_TOKEN") then codes "adm" else [];
  join_path = λ dir name. dir ++ b'/' ∷ name;
  parse_float = λ t. none;
  is_positive = λ n. ltb 0 n;
  of_nat = λ n. n;
  parse_ip = λ t. none;
  parse_cidr = λ t. none;
}

abbrev meets : Meets ℕ
meets = record {
  crypto_base64 = record { encode = λ t. t; decode = some };
  new_aead = λ key. none;
  nonce = λ i. [];
  auth = oracle.auth;
  bad_proxy = false;
  is_ratio = λ n. true;
  over_60 = λ n. n;
  of_nat = λ n. n;
  cache_faults = record { mkdir = false; mkdir_tmp = false; sum = false };
  evict_faults = oracle.evict_faults;
  rounds = 3;
  load_fails = false;
  mkdir_fails = false;
  files = λ dir. some files;
}

abbrev disk : Disk
disk = record {
  db = state.db;
  entries = row ∷ [];
  domains = [];
  recover_rows = [];
  settings = [];
  cache_rows =
      record {
        key = codes "img/1";
        size = 5;
        atime = pos 1;
        created_at = pos 1;
        content_type = codes "image/png";
      }
      ∷ [];
  cache_files = [];
}

quiet : (j : ℕ) → IsQuiet (meets.evict_faults j)
quiet j = record { answers = refl; removes = λ k. refl; deletes = λ k. refl }

works : Works meets (load host)
unfolding load
works = record {
  proxy = refl;
  cache = record { mkdir = refl; mkdir_tmp = refl; sum = refl };
  load = refl;
  tmp_dir = refl;
  mkdir = refl;
}

key_loads :
    load_key meets.crypto_base64 trim_space meets.new_aead (load host).data_enc_key ≡ ok none
unfolding load_key trim_space load
key_loads = refl

abbrev shared_account : Middleware
shared_account = elim (new_middleware meets.auth (load host).static_tokens state.db).1 [
  | ok mw ↦ mw
  | err e ↦ server.tokens
]

account_made : (new_middleware meets.auth (load host).static_tokens state.db).1 ≡ ok shared_account
unfolding new_middleware load trim_space
account_made = refl

abbrev cache_settings : Cache.Store.Config ℕ
cache_settings =
    elim (normalize_config meets.is_ratio server.nine_tenths
      (cache_config server oracle meets (load host) disk)) [
        | ok cfg ↦ cfg
        | err e ↦ cache_config server oracle meets (load host) disk
      ]

cache_settings_valid :
    normalize_config meets.is_ratio server.nine_tenths
      (cache_config server oracle meets (load host) disk)
    ≡ ok cache_settings
unfolding normalize_config load
cache_settings_valid = refl

start-Succeeds_example :
    (made : Server ℕ ℕ ℕ Text × State ℕ ℕ ℕ) × ((start server oracle meets (load host) disk).1
      ≡ ok made)
    × IsReady disk made.1
start-Succeeds_example =
    start-Succeeds server oracle meets (load host) disk none shared_account cache_settings files
      key_loads account_made cache_settings_valid works quiet refl (tt, tt) (omega arith)
      (omega arith)
