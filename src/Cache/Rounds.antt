-- ===== src/Cache/Rounds.antt =====
-- Eviction: what a round removes, when the loop ends, and when it does not.
use pixiv_relay.Cache.Accounts.{IsAccurate, drop_row-IsAccurate}
use pixiv_relay.Cache.Evict.{
  EvictFaults, Removal, removed, missing, busy, remove_entry, evict_entry, evict_batch,
}
use pixiv_relay.Cache.Store.{DiskLru, Meta, meta_key, file_path, path_for, drop_row}
use pixiv_relay.Prelude.Table.{find, remove, HasDistinctKeys, find-remove_ne}
use pixiv_relay.Prelude.{
  ◌≡◌, ◌≢◌, ◌∙◌, Bool, true, false, List, [], ◌∷◌, some, Text, if◌then◌else◌, All, text_eq,
}

-- A round in which no call fails.
pub record IsQuiet (faults : EvictFaults) : Type 0 where
  pub answers : faults.query ≡ false
  pub removes : (k : Text) → faults.remove_file k ≡ removed
  pub deletes : (k : Text) → faults.delete_row k ≡ false

-- The rows of a batch stand in the table, each under a key of its own.
abbrev pub IsBatchOf : List Meta → List Meta → Type 0
IsBatchOf ms rows = All (λ m. find meta_key m.key rows ≡ some m) ms × HasDistinctKeys meta_key ms

others_stay :
    (k : Text) (ms rows : List Meta)
    → All (λ s. meta_key s ≢ k) ms
    → All (λ m. find meta_key m.key rows ≡ some m) ms
    → All (λ m. find meta_key m.key (remove meta_key k rows) ≡ some m) ms
others_stay k [] rows h b = tt
others_stay k (m ∷ ms) rows h b =
    (find-remove_ne meta_key k m.key rows h.0 ∙ b.0, others_stay k ms rows h.1 b.1)

module _ {F : Type 0} where
  -- What one row of the batch does to the table, by the outcome of its two calls.
  pub evict_entry_cases {κ} :
      (P : DiskLru F → Type κ) (faults : EvictFaults) (c : DiskLru F) (m : Meta)
      → P c
      → P (record c { files = remove file_path (path_for c.cfg m.key) c.files })
      → P (
          drop_row m.key m.size
            (record c { files = remove file_path (path_for c.cfg m.key) c.files }))
      → P (evict_entry faults c m)
  unfolding evict_entry
  evict_entry_cases P faults c m kept freed gone = go (faults.remove_file m.key)
    where
      either :
          (b : Bool)
          → P (
              if b
              then record c { files = remove file_path (path_for c.cfg m.key) c.files }
              else drop_row m.key m.size
                  (record c { files = remove file_path (path_for c.cfg m.key) c.files }))
      either true = freed
      either false = gone

      go : (r : Removal) → P (remove_entry faults c m r)
      go busy = kept
      go removed = either (faults.delete_row m.key)
      go missing = either (faults.delete_row m.key)

  same_rows :
      (c : DiskLru F) (files : List (Text × Text))
      → IsAccurate c
      → IsAccurate (record c { files = files })
  same_rows c files v = record { distinct = v.distinct; counted = v.counted; fits = v.fits }

  evict_entry-IsAccurate :
      (faults : EvictFaults) (c : DiskLru F) (m : Meta)
      → find meta_key m.key c.rows ≡ some m
      → IsAccurate c
      → IsAccurate (evict_entry faults c m)
  evict_entry-IsAccurate faults c m h v =
      evict_entry_cases IsAccurate faults c m v (same_rows c _ v)
        (drop_row-IsAccurate _ m.key m h (same_rows c _ v))

  pub rest-IsBatchOf :
      (faults : EvictFaults) (c : DiskLru F) (m : Meta) (ms : List Meta)
      → IsBatchOf (m ∷ ms) c.rows
      → IsBatchOf ms (evict_entry faults c m).rows
  rest-IsBatchOf faults c m ms (found, apart) =
      evict_entry_cases (λ d. IsBatchOf ms d.rows) faults c m (found.1, apart.1) (found.1, apart.1)
        (unfold drop_row in (others_stay m.key ms c.rows apart.0 found.1, apart.1))

  -- A round keeps the byte count equal to the sum over the rows, whichever of its calls fail.
  pub evict_batch-IsAccurate :
      (faults : EvictFaults) (ms : List Meta) (c : DiskLru F)
      → IsBatchOf ms c.rows
      → IsAccurate c
      → IsAccurate (evict_batch faults c ms)
  unfolding evict_batch
  evict_batch-IsAccurate faults [] c b v = v
  evict_batch-IsAccurate faults (m ∷ ms) c b v =
      evict_batch-IsAccurate faults ms (evict_entry faults c m) (rest-IsBatchOf faults c m ms b)
        (evict_entry-IsAccurate faults c m b.0.0 v)

  -- Where no call fails, a round removes the rows of its batch and no other.
  pub evict_entry_quiet :
      (faults : EvictFaults) (c : DiskLru F) (m : Meta)
      → IsQuiet faults
      → (evict_entry faults c m).rows ≡ remove meta_key m.key c.rows
  unfolding evict_entry drop_row
  evict_entry_quiet faults c m q = rw (q.removes m.key, q.deletes m.key, remove_entry)
