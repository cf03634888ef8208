-- ===== src/Cache/Lru.antt =====
-- The rows that a round takes are the ones read longest ago.
use mathlib.Core.Path.{subst}
use pixiv_relay.Cache.Evict.{EvictFaults, row_atime, evict_entry, evict_batch, next_batch}
use pixiv_relay.Cache.Rounds.{IsQuiet, IsBatchOf, evict_entry_quiet}
use pixiv_relay.Cache.Store.{DiskLru, Meta, meta_key}
use pixiv_relay.Prelude.Int.{pos_part, leb_ℤ, ◌≤ℤ◌}
use pixiv_relay.Prelude.Sorting.{
  order_by, insert_by, All-order_by, order_by-IsOrdered, take-drop-IsOrdered,
}
use pixiv_relay.Prelude.Table.{
  find, remove, HasDistinctKeys, find-remove_ne, find-remove_self, key_of_find,
}
use pixiv_relay.Prelude.{
  ℕ, suc, zero, ◌≡◌, ◌≢◌, ◌∙◌, sym, List, [], ◌∷◌, none, some, arith, Text, All, All-Elem, Elem,
  Elem-take-drop, All-take, Bool-cases, inl, inr, ◌⊎◌, text_eq, text_beq, text_beq_iff, take, drop,
}

All-find_self :
    (ms rows : List Meta)
    → HasDistinctKeys meta_key rows
    → All (λ m. find meta_key m.key rows ≡ some m) rows
All-find_self ms [] d = tt
All-find_self ms (r ∷ rows) d = (self, weaken rows d.0 (All-find_self ms rows d.1))
  where
    self : find meta_key r.key (r ∷ rows) ≡ some r
    self = unfold find in ground (arith, text_beq_iff r.key r.key)

    weaken :
        (l : List Meta)
        → All (λ s. meta_key s ≢ meta_key r) l
        → All (λ m. find meta_key m.key rows ≡ some m) l
        → All (λ m. find meta_key m.key (r ∷ rows) ≡ some m) l
    weaken [] h k = tt
    weaken (m ∷ l) h k =
        (unfold find in ground (arith, text_beq_iff r.key m.key, h.0, k.0), weaken l h.1 k.1)

insert_by-HasDistinctKeys :
    (m : Meta) (rows : List Meta)
    → All (λ s. meta_key s ≢ meta_key m) rows
    → HasDistinctKeys meta_key rows
    → HasDistinctKeys meta_key (insert_by row_atime m rows)
unfolding insert_by
insert_by-HasDistinctKeys m [] h d = (tt, tt)
insert_by-HasDistinctKeys m (r ∷ rows) h d = elim (Bool-cases (leb_ℤ m.atime r.atime)) [
  | inl le ↦ rw le ((h.0, h.1), d)
  | inr gt ↦ rw gt (
    All_insert (λ s. meta_key s ≢ meta_key r) m rows (λ e. h.0 (sym e)) d.0,
    insert_by-HasDistinctKeys m rows h.1 d.1,
  )
]
  where
    All_insert :
        (P : Meta → Type 0) (x : Meta) (l : List Meta)
        → P x
        → All P l
        → All P (insert_by row_atime x l)
    All_insert P x [] p k = (p, tt)
    All_insert P x (y ∷ l) p k = elim (Bool-cases (leb_ℤ x.atime y.atime)) [
      | inl le ↦ rw le (p, k)
      | inr gt ↦ rw gt (k.0, All_insert P x l p k.1)
    ]

order_by-HasDistinctKeys :
    (rows : List Meta)
    → HasDistinctKeys meta_key rows
    → HasDistinctKeys meta_key (order_by row_atime rows)
unfolding order_by
order_by-HasDistinctKeys [] d = tt
order_by-HasDistinctKeys (r ∷ rows) d =
    insert_by-HasDistinctKeys r (order_by row_atime rows)
      (All-order_by row_atime (λ s. meta_key s ≢ meta_key r) rows d.0)
      (order_by-HasDistinctKeys rows d.1)

take-HasDistinctKeys :
    (n : ℕ) (rows : List Meta)
    → HasDistinctKeys meta_key rows
    → HasDistinctKeys meta_key (take n rows)
take-HasDistinctKeys zero rows d = tt
take-HasDistinctKeys (suc n) [] d = tt
take-HasDistinctKeys (suc n) (r ∷ rows) d =
    (All-take (λ s. meta_key s ≢ meta_key r) n rows d.0, take-HasDistinctKeys n rows d.1)

Elem-insert_by :
    (x m : Meta) (rows : List Meta) → (x ≡ m) ⊎ Elem x rows → Elem x (insert_by row_atime m rows)
unfolding insert_by
Elem-insert_by x m [] h = h
Elem-insert_by x m (r ∷ rows) h = elim (Bool-cases (leb_ℤ m.atime r.atime)) [
  | inl le ↦ rw le h
  | inr gt ↦ rw gt (swap (Elem-insert_by x m rows) h)
]
  where
    swap :
        ((x ≡ m) ⊎ Elem x rows → Elem x (insert_by row_atime m rows))
        → (x ≡ m) ⊎ ((x ≡ r) ⊎ Elem x rows)
        → (x ≡ r) ⊎ Elem x (insert_by row_atime m rows)
    swap rec (inl e) = inr (rec (inl e))
    swap rec (inr (inl e)) = inl e
    swap rec (inr (inr e)) = inr (rec (inr e))

Elem-order_by : (x : Meta) (rows : List Meta) → Elem x rows → Elem x (order_by row_atime rows)
unfolding order_by
Elem-order_by x [] h = h
Elem-order_by x (r ∷ rows) (inl e) = Elem-insert_by x r (order_by row_atime rows) (inl e)
Elem-order_by x (r ∷ rows) (inr h) =
    Elem-insert_by x r (order_by row_atime rows) (inr (Elem-order_by x rows h))

Elem-of_find :
    (k : Text) (rows : List Meta) (x : Meta) → find meta_key k rows ≡ some x → Elem x rows
unfolding find
Elem-of_find k [] x h = absurd (cc)
Elem-of_find k (r ∷ rows) x h = elim (Bool-cases (text_beq r.key k)) [
  | inl e ↦ inl (ground arith)
  | inr e ↦ inr (Elem-of_find k rows x (ground arith))
]

not_in_batch :
    (k : Text) (x : Meta) (ms : List Meta)
    → x.key ≡ k
    → All (λ m. meta_key m ≢ k) ms
    → Elem x ms
    → ⊥
not_in_batch k x ms at others m = All-Elem (λ m. meta_key m ≢ k) x ms others m at

older :
    (x : Meta) (ms rest : List Meta)
    → All (λ m. All (λ y. m.atime ≤ℤ y.atime) rest) ms
    → Elem x rest
    → All (λ m. m.atime ≤ℤ x.atime) ms
older x [] rest h e = tt
older x (m ∷ ms) rest h e = (All-Elem (λ y. m.atime ≤ℤ y.atime) x rest h.0 e, older x ms rest h.1 e)

module _ {F : Type 0} where
  pub next_batch-IsBatchOf :
      (c : DiskLru F) → HasDistinctKeys meta_key c.rows → IsBatchOf (next_batch c) c.rows
  unfolding next_batch
  next_batch-IsBatchOf c d =
      let n = pos_part c.cfg.eviction_batch in
      (
        All-take (λ m. find meta_key m.key c.rows ≡ some m) n (order_by row_atime c.rows)
            (All-order_by row_atime (λ m. find meta_key m.key c.rows ≡ some m) c.rows
              (All-find_self [] c.rows d)),
        take-HasDistinctKeys n (order_by row_atime c.rows) (order_by-HasDistinctKeys c.rows d),
      )

  kept_by_batch :
      (faults : EvictFaults) (ms : List Meta) (c : DiskLru F) (k : Text) (x : Meta)
      → IsQuiet faults
      → find meta_key k (evict_batch faults c ms).rows ≡ some x
      → (find meta_key k c.rows ≡ some x) × All (λ m. meta_key m ≢ k) ms
  unfolding evict_batch
  kept_by_batch faults [] c k x q h = (h, tt)
  kept_by_batch faults (m ∷ ms) c k x q h =
      let (there, others) = kept_by_batch faults ms (evict_entry faults c m) k x q h in
      let there' : find meta_key k (remove meta_key m.key c.rows) ≡ some x =
        subst (λ rows. find meta_key k rows ≡ some x) (evict_entry_quiet faults c m q) there in
      let apart : meta_key m ≢ k = λ e. absurd (
        ground (
          arith,
          subst (λ j. find meta_key j (remove meta_key m.key c.rows) ≡ none) e
              (find-remove_self meta_key m.key c.rows),
          there',
        )) in
      (sym (find-remove_ne meta_key m.key k c.rows (λ e. apart (sym e))) ∙ there', (apart, others))

  -- Eviction is by least recent use: after a round in which no call fails, every row that is still
  -- there was there before, under a key that the batch does not name, and was read no earlier than
  -- any row of the batch.
  pub kept-is-recent :
      (faults : EvictFaults) (c : DiskLru F) (k : Text) (x : Meta)
      → IsQuiet faults
      → find meta_key k (evict_batch faults c (next_batch c)).rows ≡ some x
      → (find meta_key k c.rows ≡ some x)
        × All (λ m. meta_key m ≢ k) (next_batch c)
        × All (λ m. m.atime ≤ℤ x.atime) (next_batch c)
  unfolding next_batch
  kept-is-recent faults c k x q h =
      let (there, others) = kept_by_batch faults (next_batch c) c k x q h in
      let n = pos_part c.cfg.eviction_batch in
      let rows = order_by row_atime c.rows in
      let split =
        Elem-take-drop n x rows (Elem-order_by x c.rows (Elem-of_find k c.rows x there)) in
      (
        there,
        others,
        elim split [
          | inl e ↦
              absurd
                (not_in_batch k x (take n rows) (key_of_find meta_key k c.rows x there) others e)
          | inr e ↦
              older x (take n rows) (drop n rows)
                (take-drop-IsOrdered row_atime n rows (order_by-IsOrdered row_atime c.rows)) e
        ],
      )
