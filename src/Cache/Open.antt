-- ===== src/Cache/Open.antt =====
-- Open of internal/cache/disklru.go: the directories, the sum over the rows, and one eviction.
use pixiv_relay.Cache.Evict.{EvictFaults, evict}
use pixiv_relay.Cache.Store.{Config, Meta, DiskLru, bytes, normalize_config}
use pixiv_relay.Common.Errors.{Result, ok, internal, refuse, ◌>>=◌, ◌>>◌}
use pixiv_relay.Prelude.Int.{ℤ, pos}
use pixiv_relay.Prelude.{ℕ, Bool, List, Text, codes}

-- Which of the calls of Open fail.
pub record OpenFaults : Type 0 where
  pub mkdir : Bool
  pub mkdir_tmp : Bool
  pub sum : Bool

module _ {F : Type 0} where
  abbrev pub fresh : Config F → List Meta → List (Text × Text) → DiskLru F
  fresh cfg rows files = record {
    cfg = cfg;
    rows = rows;
    files = files;
    total = pos (bytes rows);
    max_bytes = cfg.max_bytes;
    high_watermark = cfg.high_watermark;
  }

  -- The cache, and whether its first eviction ended within the rounds.
  unfoldable pub open_cache :
      (F → Bool)
      → F
      → (F → ℤ → ℤ)
      → OpenFaults
      → (ℕ → EvictFaults)
      → ℕ
      → Config F
      → List Meta
      → List (Text × Text)
      → Result (DiskLru F × Bool)
  unfolding normalize_config evict
  open_cache is_ratio nine_tenths scale faults evict_faults rounds given rows files = do
    cfg ← normalize_config is_ratio nine_tenths given
    refuse faults.mkdir (internal (codes "cache: mkdir"))
    refuse faults.mkdir_tmp (internal (codes "cache: mkdir"))
    refuse faults.sum (internal (codes "cache: sum cache size"))
    ok (evict scale evict_faults rounds 0 (fresh cfg rows files))
