-- ===== src/Admin/Reports.antt =====
-- Overview, CacheStats and EvictCache of internal/admin/service.go.
use pixiv_relay.Admin.Accounts.{Tables}
use pixiv_relay.Cache.Evict.{EvictFaults, evict}
use pixiv_relay.Cache.Store.{DiskLru, config, stats}
use pixiv_relay.Common.Errors.{Result, ok, err, internal, refuse, ◌>>=◌, ◌>>◌}
use pixiv_relay.Prelude.Int.{ℤ, pos, sub64, ◌-ℤ◌}
use pixiv_relay.Prelude.{
  ℕ, Bool, true, false, List, [], ◌∷◌, ◌++◌, Option, none, some, Text, codes, length, keep,
  if◌then◌else◌, nat_beq,
}
use pixiv_relay.Recover.Queue.{Row, Status, ready, fetching, not_found}

abbrev pub has_status : Status → Row → Bool
has_status ready r = elim r.status [ ready ↦ true | _ ↦ false ]
has_status fetching r = elim r.status [ fetching ↦ true | _ ↦ false ]
has_status not_found r = elim r.status [ not_found ↦ true | _ ↦ false ]

-- A group of GROUP BY status, if it has a row.
unfoldable pub group_of : Status → List Row → List (Status × ℕ)
group_of status rows =
    let n = length (keep (has_status status) rows) in if nat_beq n 0 then [] else (status, n) ∷ []

unfoldable pub by_status : List Row → List (Status × ℕ)
unfolding group_of
by_status rows = group_of fetching rows ++ (group_of not_found rows ++ group_of ready rows)

pub record OverviewReport : Type 0 where
  pub accounts : ℕ
  pub devices : ℕ
  pub bytes : ℤ
  pub entries : ℕ
  pub recover_cache : List (Status × ℕ)

pub record StatsReport (F : Type 0) : Type 0 where
  pub bytes : ℤ
  pub entries : ℕ
  pub max_bytes : ℤ
  pub high_watermark : F
  pub layout : Text
  pub dir : Text

pub record EvictReport : Type 0 where
  pub freed_bytes : ℤ
  pub freed_entries : ℤ
  pub bytes : ℤ
  pub entries : ℕ

abbrev pub freed : ℤ × ℕ → Result (ℤ × ℕ) → Result EvictReport
freed before (err e) = err e
freed before (ok after) = ok (record {
  freed_bytes = sub64 before.0 after.0;
  freed_entries = pos before.1 -ℤ pos after.1;
  bytes = after.0;
  entries = after.1;
})

module _ {F : Type 0} where
  -- Overview without its settings; `fails` says which of four queries do.
  unfoldable pub overview : (ℕ → Bool) → Tables → DiskLru F → Result OverviewReport
  unfolding stats by_status
  overview fails t c = do
    refuse (fails 0) (internal (codes "count accounts"))
    refuse (fails 1) (internal (codes "count devices"))
    usage ← stats (fails 2) c
    refuse (fails 3) (internal (codes "count recover_cache"))
    ok (record {
      accounts = length t.accounts;
      devices = length t.devices;
      bytes = usage.0;
      entries = usage.1;
      recover_cache = by_status t.recover_rows;
    })

  unfoldable pub cache_stats : Bool → DiskLru F → Result (StatsReport F)
  unfolding stats config
  cache_stats fails c = do
    usage ← stats fails c
    ok (record {
      bytes = usage.0;
      entries = usage.1;
      max_bytes = (config c).max_bytes;
      high_watermark = (config c).high_watermark;
      layout = c.cfg.layout;
      dir = c.cfg.dir;
    })

  abbrev pub after_rounds :
      Bool → ℤ × ℕ → DiskLru F × Bool → DiskLru F × Option (Result EvictReport)
  after_rounds fails before (c, false) = (c, none)
  after_rounds fails before (c, true) = (c, some (freed before (stats fails c)))

  abbrev pub evict_from :
      (F → ℤ → ℤ)
      → (ℕ → EvictFaults)
      → ℕ
      → Bool
      → DiskLru F
      → Result (ℤ × ℕ)
      → DiskLru F × Option (Result EvictReport)
  evict_from scale faults rounds fails c (err e) = (c, some (err e))
  evict_from scale faults rounds fails c (ok before) =
      after_rounds fails before (evict scale faults rounds 0 c)

  -- EvictCache: none where the loop does not end within the rounds.
  unfoldable pub evict_cache :
      (F → ℤ → ℤ)
      → (ℕ → EvictFaults)
      → ℕ
      → (ℕ → Bool)
      → DiskLru F
      → DiskLru F × Option (Result EvictReport)
  unfolding stats evict
  evict_cache scale faults rounds fails c =
      evict_from scale faults rounds (fails 1) c (stats (fails 0) c)
