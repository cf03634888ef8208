-- ===== src/Cache/Ends.antt =====
-- When the eviction loop ends, and when it does not.
use mathlib.Core.Path.{subst}
use pixiv_relay.Cache.Accounts.{bytes-remove}
use pixiv_relay.Cache.Evict.{
  EvictFaults, busy, row_atime, remove_entry, evict_entry, evict_batch, next_batch, is_over, evict,
}
use pixiv_relay.Cache.Lru.{next_batch-IsBatchOf}
use pixiv_relay.Cache.Rounds.{
  IsQuiet, IsBatchOf, evict_entry_quiet, rest-IsBatchOf, evict_entry_cases,
}
use pixiv_relay.Cache.Store.{DiskLru, Meta, meta_key, drop_row}
use pixiv_relay.Prelude.Int.{ℤ, pos_part}
use pixiv_relay.Prelude.Sorting.{order_by, length-order_by}
use pixiv_relay.Prelude.Table.{HasDistinctKeys, remove-HasDistinctKeys}
use pixiv_relay.Prelude.{
  ℕ, suc, zero, ◌+◌, ◌≡◌, ◌<◌, ◌≤◌, refl, ap, ◌∙◌, sym, Bool, true, false, List, [], ◌∷◌, arith,
  ◌⊎◌, inl, inr, All, Bool-cases, length, take, take_of_length-le, text_eq,
}

module _ {F : Type 0} (scale : F → ℤ → ℤ) (faults : ℕ → EvictFaults) where
  pub evict_stop :
      (f i : ℕ) (c : DiskLru F)
      → is_over scale c ≡ false
      → evict scale faults (suc f) i c ≡ (c, true)
  unfolding evict
  evict_stop f i c h = ground arith

  pub evict_empty :
      (f i : ℕ) (c : DiskLru F)
      → is_over scale c ≡ true
      → (faults i).query ≡ false
      → next_batch c ≡ []
      → evict scale faults (suc f) i c ≡ (c, true)
  unfolding evict
  evict_empty f i c h k b = ground arith

  pub evict_more :
      (f i : ℕ) (c : DiskLru F) (m : Meta) (ms : List Meta)
      → is_over scale c ≡ true
      → (faults i).query ≡ false
      → next_batch c ≡ m ∷ ms
      → evict scale faults (suc f) i c
        ≡ evict scale faults f (i + 1) (evict_batch (faults i) c (m ∷ ms))
  unfolding evict
  evict_more f i c m ms h k b = ground arith

  -- A batch whose files are all in use changes nothing.
  All-busy :
      (i : ℕ) (c : DiskLru F) (ms : List Meta)
      → All (λ m. (faults i).remove_file m.key ≡ busy) ms
      → evict_batch (faults i) c ms ≡ c
  unfolding evict_batch evict_entry
  All-busy i c [] h = refl
  All-busy i c (m ∷ ms) h = rw (h.0, remove_entry) (All-busy i c ms h.1)

  -- While the total is above the watermark, the query answers, and every file of the oldest batch is
  -- in use, the loop never comes to its end: however many rounds it is given, it removes nothing.
  pub evict_never_ends :
      (f i : ℕ) (c : DiskLru F) (m : Meta) (ms : List Meta)
      → next_batch c ≡ m ∷ ms
      → is_over scale c ≡ true
      → ((j : ℕ) → (faults j).query ≡ false)
      → ((j : ℕ) → All (λ r. (faults j).remove_file r.key ≡ busy) (m ∷ ms))
      → evict scale faults f i c ≡ (c, false)
  evict_never_ends zero i c m ms b o q h = unfold evict in refl
  evict_never_ends (suc f) i c m ms b o q h =
      evict_more f i c m ms o (q i) b
      ∙ (ap (evict scale faults f (i + 1)) (All-busy i c (m ∷ ms) (h i))
          ∙ evict_never_ends f (i + 1) c m ms b o q h)

take_eq_nil : (n : ℕ) (l : List Meta) → 0 < n → take n l ≡ [] → l ≡ []
take_eq_nil zero l h e = absurd (omega arith)
take_eq_nil (suc n) [] h e = refl
take_eq_nil (suc n) (m ∷ l) h e = absurd (cc)

take_nil : (n : ℕ) → take {A = Meta} n [] ≡ []
take_nil zero = refl
take_nil (suc n) = refl

nil_of_length : (l : List Meta) → length l ≡ 0 → l ≡ []
nil_of_length [] h = refl
nil_of_length (m ∷ l) h = absurd (omega arith)

module _ {F : Type 0} where
  length-evict_batch :
      (faults : EvictFaults) (ms : List Meta) (c : DiskLru F)
      → IsQuiet faults
      → HasDistinctKeys meta_key c.rows
      → IsBatchOf ms c.rows
      → length (evict_batch faults c ms).rows + length ms ≡ length c.rows
  unfolding evict_batch
  length-evict_batch faults [] c q d b = omega arith
  length-evict_batch faults (m ∷ ms) c q d b =
      let e = evict_entry_quiet faults c m q in
      let d' =
        subst (HasDistinctKeys meta_key) (sym e) (remove-HasDistinctKeys meta_key m.key c.rows d) in
      omega (
        arith,
        length-evict_batch faults ms (evict_entry faults c m) q d' (rest-IsBatchOf faults c m ms b),
        (bytes-remove m.key c.rows m d b.0.0).1,
        ap length e,
      )

  evict_batch_rows :
      (faults : EvictFaults) (ms : List Meta) (c : DiskLru F)
      → HasDistinctKeys meta_key c.rows
      → HasDistinctKeys meta_key (evict_batch faults c ms).rows
        × ((evict_batch faults c ms).cfg.eviction_batch ≡ c.cfg.eviction_batch)
  unfolding evict_batch
  evict_batch_rows faults [] c d = (d, refl)
  evict_batch_rows faults (m ∷ ms) c d =
      let step =
        evict_entry_cases
          (λ x. HasDistinctKeys meta_key x.rows × (x.cfg.eviction_batch ≡ c.cfg.eviction_batch))
          faults c m (d, refl) (d, refl)
          (unfold drop_row in (remove-HasDistinctKeys meta_key m.key c.rows d, refl)) in
      let (done, same) = evict_batch_rows faults ms (evict_entry faults c m) step.0 in
      (done, same ∙ step.1)

  next_batch_of_nil : (c : DiskLru F) → c.rows ≡ [] → next_batch c ≡ []
  unfolding next_batch order_by
  next_batch_of_nil c e = rw e (take_nil (pos_part c.cfg.eviction_batch))

  next_batch_whole :
      (c : DiskLru F)
      → length c.rows ≤ pos_part c.cfg.eviction_batch
      → length (next_batch c) ≡ length c.rows
  unfolding next_batch
  next_batch_whole c h =
      let same = length-order_by row_atime c.rows in
      ap length (
        take_of_length-le (pos_part c.cfg.eviction_batch) (order_by row_atime c.rows) (omega arith))
      ∙ same

  next_batch_empty :
      (c : DiskLru F) → 0 < pos_part c.cfg.eviction_batch → next_batch c ≡ [] → c.rows ≡ []
  unfolding next_batch
  next_batch_empty c h e = nil_of_length c.rows (
      omega (
        arith,
        length-order_by row_atime c.rows,
        ap length (take_eq_nil (pos_part c.cfg.eviction_batch) (order_by row_atime c.rows) h e),
      ))

module _ {F : Type 0} (scale : F → ℤ → ℤ) (faults : ℕ → EvictFaults)
    (quiet : (j : ℕ) → IsQuiet (faults j)) where
  abbrev pub Finishes : DiskLru F × Bool → Type 0
  Finishes r = (r.1 ≡ true) × ((is_over scale r.0 ≡ false) ⊎ (r.0.rows ≡ []))

  abbrev Recursion : ℕ → Type 0
  Recursion f =
      (i : ℕ) (c : DiskLru F)
      → HasDistinctKeys meta_key c.rows
      → 0 < pos_part c.cfg.eviction_batch
      → length c.rows < f
      → Finishes (evict scale faults f i c)

  finish_round :
      (f i : ℕ) (c : DiskLru F) (batch : List Meta)
      → Recursion f
      → HasDistinctKeys meta_key c.rows
      → 0 < pos_part c.cfg.eviction_batch
      → length c.rows < suc f
      → is_over scale c ≡ true
      → next_batch c ≡ batch
      → Finishes (evict scale faults (suc f) i c)
  finish_round f i c [] rec d n b over e =
      rw (evict_empty scale faults f i c over (quiet i).answers e)
        (refl, inr (next_batch_empty c n e))
  finish_round f i c (m ∷ ms) rec d n b over e =
      let members = subst (λ l. IsBatchOf l c.rows) e (next_batch-IsBatchOf c d) in
      let (d', same) = evict_batch_rows (faults i) (m ∷ ms) c d in
      rw (evict_more scale faults f i c m ms over (quiet i).answers e) (
        rec (i + 1) (evict_batch (faults i) c (m ∷ ms)) d' (rw same n)
          (omega (arith, length-evict_batch (faults i) (m ∷ ms) c (quiet i) d members)))

  -- Where no call fails and the batch size is positive, the loop ends within as many rounds as there
  -- are rows, plus one, and then the total is not above the watermark or the cache is empty.
  pub evict-Finishes :
      (f i : ℕ) (c : DiskLru F)
      → HasDistinctKeys meta_key c.rows
      → 0 < pos_part c.cfg.eviction_batch
      → length c.rows < f
      → Finishes (evict scale faults f i c)
  evict-Finishes zero i c d n b = absurd (omega arith)
  evict-Finishes (suc f) i c d n b = elim (Bool-cases (is_over scale c)) [
    | inr under ↦ rw (evict_stop scale faults f i c under) (refl, inl under)
    | inl over ↦ finish_round f i c (next_batch c) (evict-Finishes f) d n b over refl
  ]

  nothing_left : (f i : ℕ) (c : DiskLru F) → c.rows ≡ [] → (evict scale faults f i c).0.rows ≡ []
  unfolding next_batch
  nothing_left zero i c e = unfold evict in e
  nothing_left (suc f) i c e = elim (Bool-cases (is_over scale c)) [
    | inr under ↦ rw (evict_stop scale faults f i c under) e
    | inl over ↦
        rw (evict_empty scale faults f i c over (quiet i).answers (next_batch_of_nil c e)) e
  ]

  clear_round :
      (f i : ℕ) (c : DiskLru F) (batch : List Meta)
      → HasDistinctKeys meta_key c.rows
      → length (next_batch c) ≡ length c.rows
      → is_over scale c ≡ true
      → next_batch c ≡ batch
      → (evict scale faults (suc f) i c).0.rows ≡ []
  clear_round f i c [] d all over e =
      rw (evict_empty scale faults f i c over (quiet i).answers e)
        (nil_of_length c.rows (omega (arith, ap length e)))
  clear_round f i c (m ∷ ms) d all over e =
      let members = subst (λ l. IsBatchOf l c.rows) e (next_batch-IsBatchOf c d) in
      let left = length-evict_batch (faults i) (m ∷ ms) c (quiet i) d members in
      rw (evict_more scale faults f i c m ms over (quiet i).answers e) (
        nothing_left f (i + 1) (evict_batch (faults i) c (m ∷ ms))
          (nil_of_length _ (omega (arith, ap length e))))

  -- A cache of no more rows than one batch is emptied by the first round, however little its total
  -- is above the watermark.
  evict_clears_small :
      (f i : ℕ) (c : DiskLru F)
      → HasDistinctKeys meta_key c.rows
      → length c.rows ≤ pos_part c.cfg.eviction_batch
      → is_over scale c ≡ true
      → (evict scale faults (suc f) i c).0.rows ≡ []
  evict_clears_small f i c d small over =
      clear_round f i c (next_batch c) d (next_batch_whole c small) over refl
