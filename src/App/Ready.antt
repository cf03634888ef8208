-- ===== src/App/Ready.antt =====
-- The state that a start leaves.
use mathlib.Core.Path.{subst}
use pixiv_relay.App.Operator.{apply_all, resolve_all}
use pixiv_relay.App.Start.{
  Disk, Meets, cache_config, opened_cache, built_queue, empty_queue, or_stop, build_parts,
  configured, first_state, with_admin, new_middleware, start_with, start,
}
use pixiv_relay.App.State.{State, Server, Oracle}
use pixiv_relay.Admin.Settings.{Key, Setting, Origin}
use pixiv_relay.Auth.Store.{Db, Middleware}
use pixiv_relay.Cache.Accounts.{IsAccurate}
use pixiv_relay.Cache.Life.{opened-IsAccurate, here}
use pixiv_relay.Cache.Store.{DiskLru, meta_key, bytes, set_limits}
use pixiv_relay.Common.Errors.{Result, ok, err, >>=-eq-ok, refuse-eq-ok, ok_injective}
use pixiv_relay.Config.{Config}
use pixiv_relay.Crypto.Aead.{Aead, load_key}
use pixiv_relay.Admin.Texts.{trim_space}
use pixiv_relay.Prelude.Int.{ℤ, two63}
use pixiv_relay.Prelude.Table.{HasDistinctKeys}
use pixiv_relay.Prelude.{
  not, ◌<◌, ◌≡◌, refl, ap, sym, Bool, Option, List, [], Text, codes, is_empty, Bool-cases, inl, inr,
  text_eq,
}
use pixiv_relay.Recover.Build.{Wanted, new_service, set_ttl_days}
use pixiv_relay.Recover.Queue.{Queue, set_ttls}
use pixiv_relay.Recover.Workers.{IsTracked}

-- The counts and the work in progress are in order, and the rows of sync are those of the disk.
pub record IsReady {F R B : Type 0} (disk : Disk) (s : State F R B) : Type 0 where
  pub cache : IsAccurate s.cache
  pub queue : IsTracked s.queue
  pub idle : s.queue.inflight ≡ []
  pub flights : s.flights ≡ []
  pub entries : s.sync.entries ≡ disk.entries
  pub domains : s.sync.domains ≡ disk.domains
  pub recover_rows : s.queue.rows ≡ disk.recover_rows

-- A queue without work.
abbrev IsIdle : Queue → Type 0
IsIdle q = (q.inflight ≡ []) × (q.working ≡ []) × (q.done ≡ [])

IsIdle-IsTracked : (q : Queue) → IsIdle q → IsTracked q
IsIdle-IsTracked q (a, b, c) =
    rw (a, b, c)
      (record {
        working = tt;
        done = tt;
        apart = tt;
        working_held = tt;
        done_held = tt;
        working_named = tt;
        done_named = tt;
      })

new_service_ok :
    (mkdir_fails : Bool) (tmp : Text) (names hosts : List Text) (days negative : ℤ) (q : Queue)
    (built : List Wanted × (List Text × Queue))
    → new_service mkdir_fails tmp names hosts days negative q ≡ ok built
    → IsIdle built.1.1 × (built.1.1.rows ≡ q.rows)
unfolding new_service set_ttl_days set_ttls
new_service_ok mkdir_fails tmp names hosts days negative q built h =
    let (_, h1) = refuse-eq-ok (is_empty tmp) _ _ h in
    let (_, h2) = refuse-eq-ok mkdir_fails _ _ h1 in
    let same = ap (λ b. b.1.1) (ok_injective h2) in
    (
      (
        sym (ap (λ x. x.inflight) same),
        sym (ap (λ x. x.working) same),
        sym (ap (λ x. x.done) same),
      ),
      sym (ap (λ x. x.rows) same),
    )

module _ {F R B Ip : Type 0} (lib : Server F R B Ip) (oracle : Oracle) (meets : Meets F)
    (cfg : Config F Ip) (disk : Disk) where
  apply_all-IsReady :
      (server : Server F R B Ip) (m : Key → Setting F × Origin) (s : State F R B)
      → IsReady disk s
      → IsReady disk (apply_all server m s)
  unfolding apply_all set_limits set_ttl_days set_ttls
  apply_all-IsReady server m s r = record {
    cache = record { distinct = r.cache.distinct; counted = r.cache.counted; fits = r.cache.fits };
    queue = record {
      working = r.queue.working;
      done = r.queue.done;
      apart = r.queue.apart;
      working_held = r.queue.working_held;
      done_held = r.queue.done_held;
      working_named = r.queue.working_named;
      done_named = r.queue.done_named;
    };
    idle = r.idle;
    flights = r.flights;
    entries = r.entries;
    domains = r.domains;
    recover_rows = r.recover_rows;
  }

  with_admin-IsReady :
      (server : Server F R B Ip) (s : State F R B)
      → IsReady disk s
      → IsReady disk (with_admin lib oracle meets cfg disk server s)
  with_admin-IsReady server s r = elim (Bool-cases (is_empty cfg.admin_token)) [
    | inl off ↦ rw off r
    | inr on ↦ rw on (apply_all-IsReady server (resolve_all server oracle s) s r)
  ]

  opened_cache-IsAccurate :
      (cache : DiskLru F) (ended : Bool)
      → opened_cache lib oracle meets cfg disk ≡ ok (cache, ended)
      → HasDistinctKeys meta_key disk.cache_rows
      → bytes disk.cache_rows < two63
      → IsAccurate cache
  unfolding opened_cache
  opened_cache-IsAccurate cache ended opens distinct fits =
      opened-IsAccurate lib.scale meets.is_ratio lib.nine_tenths meets.cache_faults
        meets.evict_faults meets.rounds (cache_config lib oracle meets cfg disk) disk.cache_rows
        disk.cache_files cache cache ended opens distinct fits here tt

  built_queue_ok :
      (built : List Wanted × (List Text × Queue))
      → built_queue lib oracle meets cfg disk ≡ ok built
      → IsIdle built.1.1 × (built.1.1.rows ≡ disk.recover_rows)
  unfolding built_queue
  built_queue_ok built =
      new_service_ok meets.mkdir_fails cfg.recover_tmp_dir cfg.recover_sources cfg.img_extra_hosts
        cfg.recover_ttl_days cfg.recover_negative_ttl_days (empty_queue lib oracle meets cfg disk)
        built

  build_parts-IsReady :
      (key : Option Aead) (made : Db × Result Middleware) (server : Server F R B Ip)
      (s : State F R B)
      → build_parts lib oracle meets cfg disk key made ≡ ok (server, s)
      → HasDistinctKeys meta_key disk.cache_rows
      → bytes disk.cache_rows < two63
      → IsReady disk s
  unfolding build_parts
  build_parts-IsReady key (db, tokens) server s h distinct fits =
      let (mw, _, h1) = >>=-eq-ok tokens _ h in
      let (_, h2) = refuse-eq-ok meets.bad_proxy _ _ h1 in
      let ((cache, ended), opens, h3) = >>=-eq-ok (opened_cache lib oracle meets cfg disk) _ h2 in
      let (_, h35) = refuse-eq-ok (not ended) _ _ h3 in
      let (_, h4) = refuse-eq-ok meets.load_fails _ _ h35 in
      let (built, builds, h5) = >>=-eq-ok (built_queue lib oracle meets cfg disk) _ h4 in
      let (files, _, h6) =
        >>=-eq-ok (or_stop (codes "web static dir") (meets.files cfg.web_dir)) _ h5 in
      let (idle, rows) = built_queue_ok built builds in
      subst (IsReady disk) (ap (λ p. p.1) (ok_injective h6)) (
        with_admin-IsReady (configured lib oracle meets cfg disk mw key files)
          (first_state lib oracle meets cfg disk db cache built.1.1)
          (record {
            cache = opened_cache-IsAccurate cache ended opens distinct fits;
            queue = IsIdle-IsTracked built.1.1 idle;
            idle = idle.0;
            flights = refl;
            entries = refl;
            domains = refl;
            recover_rows = rows;
          }))

  start_with-IsReady :
      (key : Result (Option Aead)) (server : Server F R B Ip) (s : State F R B)
      → (start_with lib oracle meets cfg disk key).1 ≡ ok (server, s)
      → HasDistinctKeys meta_key disk.cache_rows
      → bytes disk.cache_rows < two63
      → IsReady disk s
  start_with-IsReady (err e) server s h distinct fits = absurd (cc h)
  start_with-IsReady (ok key) server s h distinct fits =
      build_parts-IsReady key (new_middleware meets.auth cfg.static_tokens disk.db) server s h
        distinct fits

  -- A start that succeeds leaves a state in order: the byte count of the cache is the sum over its
  -- rows, no search and no fetch is under way, and the rows of sync, of its domains and of recover are
  -- those that were on disk. The rows of the cache have distinct keys and a sum that fits an int64.
  pub start-IsReady :
      (server : Server F R B Ip) (s : State F R B)
      → (start lib oracle meets cfg disk).1 ≡ ok (server, s)
      → HasDistinctKeys meta_key disk.cache_rows
      → bytes disk.cache_rows < two63
      → IsReady disk s
  unfolding start
  start-IsReady =
      start_with-IsReady (load_key meets.crypto_base64 trim_space meets.new_aead cfg.data_enc_key)
