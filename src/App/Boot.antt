-- ===== src/App/Boot.antt =====
-- That NewWithClient of internal/app/app.go succeeds.
use pixiv_relay.Admin.Texts.{trim_space}
use pixiv_relay.App.Ready.{IsReady, start-IsReady}
use pixiv_relay.App.Start.{
  Disk, Meets, cache_config, opened_cache, built_queue, build_parts, new_middleware, start,
}
use pixiv_relay.App.State.{State, Server, Oracle}
use pixiv_relay.Auth.Store.{Db, Middleware}
use pixiv_relay.Cache
use pixiv_relay.Cache.Opening.{IsWorking, open_cache-Finishes}
use pixiv_relay.Cache.Rounds.{IsQuiet}
use pixiv_relay.Cache.Store.{meta_key, bytes, normalize_config}
use pixiv_relay.Common.Errors.{Result, ok, err}
use pixiv_relay.Config.{Config}
use pixiv_relay.Crypto.Aead.{Aead, load_key}
use pixiv_relay.Prelude.Int.{two63}
use pixiv_relay.Prelude.Table.{HasDistinctKeys}
use pixiv_relay.Prelude.{
  ℕ, ◌<◌, ◌≡◌, refl, Option, some, length, is_empty, Bool, true, false, text_eq,
}
use pixiv_relay.Recover.Build.{new_service}
use pixiv_relay.Web.Spa.{Tools}

-- The calls that the start makes outside do not fail, and there is a directory for downloads.
pub record Works {F Ip : Type 0} (meets : Meets F) (cfg : Config F Ip) : Type 0 where
  pub proxy : meets.bad_proxy ≡ false
  pub cache : IsWorking meets.cache_faults
  pub load : meets.load_fails ≡ false
  pub tmp_dir : is_empty cfg.recover_tmp_dir ≡ false
  pub mkdir : meets.mkdir_fails ≡ false

abbrev is_ok : {A : Type 0} → Result A → Bool
is_ok (ok a) = true
is_ok (err e) = false

succeeded : {A : Type 0} → (r : Result A) → is_ok r ≡ true → (a : A) × (r ≡ ok a)
succeeded (ok a) h = (a, refl)
succeeded (err e) h = absurd (cc h)

module _ {F R B Ip : Type 0} (lib : Server F R B Ip) (oracle : Oracle) (meets : Meets F)
    (cfg : Config F Ip) (disk : Disk) where
  build_parts-Succeeds :
      (key : Option Aead) (db : Db) (mw : Middleware) (normalized : Cache.Store.Config F)
      (files : Tools)
      → normalize_config meets.is_ratio lib.nine_tenths (cache_config lib oracle meets cfg disk)
        ≡ ok normalized
      → Works meets cfg
      → ((j : ℕ) → IsQuiet (meets.evict_faults j))
      → meets.files cfg.web_dir ≡ some files
      → HasDistinctKeys meta_key disk.cache_rows
      → length disk.cache_rows < meets.rounds
      → (made : Server F R B Ip × State F R B) × (build_parts lib oracle meets cfg disk key
            (db, ok mw)
          ≡ ok made)
  unfolding build_parts opened_cache built_queue new_service
  build_parts-Succeeds key db mw normalized files conf w quiet web distinct enough =
      let (opened, opens, (ended, _)) =
        open_cache-Finishes meets.is_ratio lib.nine_tenths lib.scale meets.cache_faults
          meets.evict_faults quiet meets.rounds (cache_config lib oracle meets cfg disk) normalized
          disk.cache_rows disk.cache_files conf w.cache distinct enough in
      succeeded (build_parts lib oracle meets cfg disk key (db, ok mw))
        (rw (w.proxy, opens, ended, w.load, w.tmp_dir, w.mkdir, web) refl)

  -- The server starts, and leaves a state in order: the byte count of the cache is the sum over its
  -- rows, no search and no fetch is under way, and the rows of sync, of its domains and of recover are
  -- those that were on disk. The key of the data loads, the shared account is found or made where there are static
  -- tokens, the configuration of the cache is valid, there is a directory for downloads, no call that
  -- the start makes outside fails, the rows of the cache have distinct keys and a sum that fits an
  -- int64, and its first eviction gets more rounds than there are rows.
  pub start-Succeeds :
      (key : Option Aead) (mw : Middleware) (normalized : Cache.Store.Config F) (files : Tools)
      → load_key meets.crypto_base64 trim_space meets.new_aead cfg.data_enc_key ≡ ok key
      → (new_middleware meets.auth cfg.static_tokens disk.db).1 ≡ ok mw
      → normalize_config meets.is_ratio lib.nine_tenths (cache_config lib oracle meets cfg disk)
        ≡ ok normalized
      → Works meets cfg
      → ((j : ℕ) → IsQuiet (meets.evict_faults j))
      → meets.files cfg.web_dir ≡ some files
      → HasDistinctKeys meta_key disk.cache_rows
      → bytes disk.cache_rows < two63
      → length disk.cache_rows < meets.rounds
      → (made : Server F R B Ip × State F R B) × ((start lib oracle meets cfg disk).1 ≡ ok made)
        × IsReady disk made.1
  unfolding start
  start-Succeeds key mw normalized files loads admits conf w quiet web distinct fits enough =
      let db = (new_middleware meets.auth cfg.static_tokens disk.db).0 in
      let (made, builds) =
        build_parts-Succeeds key db mw normalized files conf w quiet web distinct enough in
      let starts : (start lib oracle meets cfg disk).1 ≡ ok made = rw (loads, admits) builds in
      (made, starts, start-IsReady lib oracle meets cfg disk made.0 made.1 starts distinct fits)
