-- ===== src/Cache/Opening.antt =====
-- That Open of internal/cache/disklru.go comes to its end.
use mathlib.Core.Path.{subst}
use pixiv_relay.Cache.Ends.{Finishes, evict-Finishes}
use pixiv_relay.Cache.Evict.{EvictFaults, evict}
use pixiv_relay.Cache.Open.{OpenFaults, fresh, open_cache}
use pixiv_relay.Cache.Rounds.{IsQuiet}
use pixiv_relay.Cache.Store.{Config, Meta, meta_key, DiskLru, normalize_config, or_default}
use pixiv_relay.Common.Errors.{ok, refuse-eq-ok, ok_injective}
use pixiv_relay.Prelude.Int.{ℤ, pos, negsuc, pos_part, leb_ℤ}
use pixiv_relay.Prelude.Table.{HasDistinctKeys}
use pixiv_relay.Prelude.{
  ℕ, zero, suc, ◌<◌, ◌≡◌, refl, Bool, false, List, Text, length, arith, is_empty, text_eq,
}

-- No call of Open fails.
pub record IsWorking (faults : OpenFaults) : Type 0 where
  pub mkdir : faults.mkdir ≡ false
  pub mkdir_tmp : faults.mkdir_tmp ≡ false
  pub sum : faults.sum ≡ false

default_batch : (n : ℤ) → 0 < pos_part (or_default (leb_ℤ n (pos 0)) (pos 500) n)
default_batch (pos zero) = omega arith
default_batch (pos (suc n)) = grind arith
default_batch (negsuc n) = grind arith

module _ {F : Type 0} (is_ratio : F → Bool) (nine_tenths : F) where
  normalize_config_batch :
      (given cfg : Config F)
      → normalize_config is_ratio nine_tenths given ≡ ok cfg
      → 0 < pos_part cfg.eviction_batch
  unfolding normalize_config
  normalize_config_batch given cfg h =
      let (_, h1) = refuse-eq-ok (is_empty given.dir) _ _ h in
      let (_, h2) = refuse-eq-ok _ _ _ h1 in
      subst (λ c. 0 < pos_part c.eviction_batch) (ok_injective h2)
        (default_batch given.eviction_batch)

  -- Open returns, with an eviction that has come to its end.
  pub open_cache-Finishes :
      (scale : F → ℤ → ℤ) (faults : OpenFaults) (evict_faults : ℕ → EvictFaults)
      (quiet : (j : ℕ) → IsQuiet (evict_faults j)) (rounds : ℕ) (given cfg : Config F)
      (rows : List Meta) (files : List (Text × Text))
      → normalize_config is_ratio nine_tenths given ≡ ok cfg
      → IsWorking faults
      → HasDistinctKeys meta_key rows
      → length rows < rounds
      → (opened : DiskLru F × Bool) × (open_cache is_ratio nine_tenths scale faults evict_faults
            rounds given rows files
          ≡ ok opened)
        × Finishes scale evict_faults quiet opened
  unfolding open_cache
  open_cache-Finishes scale faults evict_faults quiet rounds given cfg rows files h w d enough = (
    evict scale evict_faults rounds 0 (fresh cfg rows files),
    rw (h, w.mkdir, w.mkdir_tmp, w.sum) refl,
    evict-Finishes scale evict_faults quiet rounds 0 (fresh cfg rows files) d
        (normalize_config_batch given cfg h) enough,
  )
