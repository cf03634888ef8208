-- ===== src/Cache/Evict.antt =====
-- evict of internal/cache/disklru.go: batches of the rows read longest ago, until the total is not
-- above the watermark. A file that cannot be removed keeps its row.
use pixiv_relay.Cache.Store.{DiskLru, Meta, file_path, path_for, drop_row}
use pixiv_relay.Prelude.Int.{ℤ, pos_part, ltb_ℤ}
use pixiv_relay.Prelude.Sorting.{order_by}
use pixiv_relay.Prelude.Table.{remove}
use pixiv_relay.Prelude.{
  ℕ, suc, zero, ◌+◌, Bool, true, false, List, [], ◌∷◌, Text, take, if◌then◌else◌, text_eq,
}

-- os.Remove: done, os.ErrNotExist, or any other error.
pub data Removal : Type 0 where
  removed missing busy : Removal

pub record EvictFaults : Type 0 where
  pub query : Bool
  pub remove_file : Text → Removal
  pub delete_row : Text → Bool

abbrev pub row_atime : Meta → ℤ
row_atime m = m.atime

module _ {F : Type 0} where
  unfoldable pub remove_entry : EvictFaults → DiskLru F → Meta → Removal → DiskLru F
  unfolding drop_row path_for
  remove_entry faults c m busy = c
  remove_entry faults c m _ =
      let freed = record c { files = remove file_path (path_for c.cfg m.key) c.files } in
      if faults.delete_row m.key then freed else drop_row m.key m.size freed

  unfoldable pub evict_entry : EvictFaults → DiskLru F → Meta → DiskLru F
  unfolding remove_entry
  evict_entry faults c m = remove_entry faults c m (faults.remove_file m.key)

  unfoldable pub evict_batch : EvictFaults → DiskLru F → List Meta → DiskLru F
  unfolding evict_entry
  evict_batch faults c [] = c
  evict_batch faults c (m ∷ ms) = evict_batch faults (evict_entry faults c m) ms

  -- SELECT key, size FROM cache_meta ORDER BY atime ASC LIMIT ?
  unfoldable pub next_batch : DiskLru F → List Meta
  next_batch c = take (pos_part c.cfg.eviction_batch) (order_by row_atime c.rows)

  -- `scale x n` is int64(x * float64(n)).
  abbrev pub watermark : (F → ℤ → ℤ) → DiskLru F → ℤ
  watermark scale c = scale c.high_watermark c.max_bytes

  abbrev pub is_over : (F → ℤ → ℤ) → DiskLru F → Bool
  is_over scale c = ltb_ℤ (watermark scale c) c.total

  -- The loop, with the faults of each round, and whether it came to its end within the fuel.
  unfoldable pub evict : (F → ℤ → ℤ) → (ℕ → EvictFaults) → ℕ → ℕ → DiskLru F → DiskLru F × Bool
  evict scale faults zero i c = (c, false)
  evict scale faults (suc f) i c = elim (is_over scale c) [
    | false ↦ (c, true)
    | true ↦ elim (faults i).query [
      | true ↦ (c, true)
      | false ↦ elim (next_batch c) [
        | [] ↦ (c, true)
        | m ∷ ms ↦ evict scale faults f (i + 1) (evict_batch (faults i) c (m ∷ ms))
      ]
    ]
  ]
