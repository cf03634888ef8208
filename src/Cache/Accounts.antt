-- ===== src/Cache/Accounts.antt =====
-- The byte count that the cache keeps in memory is the sum over its rows.
use mathlib.Core.Path.{subst}
use pixiv_relay.Cache.Store.{
  bytes, DiskLru, Meta, meta_key, GetFaults, CommitFaults, Writer, touch_row, drop_row, get_file,
  get_row, get, size_of, move_file, record_row, commit, renames,
}
use pixiv_relay.Prelude.Int.{ℤ, pos, sub64, sub64-pos, add64-sub64, two63}
use pixiv_relay.Prelude.Table.{
  find, remove, upsert, HasDistinctKeys, remove-HasDistinctKeys, upsert-HasDistinctKeys,
}
use pixiv_relay.Prelude.{
  ℕ, suc, ◌+◌, ◌≡◌, ◌≢◌, ◌<◌, ◌≤◌, refl, ap, ◌∙◌, sym, false, not, ◌||◌, List, [], ◌∷◌, Option,
  none, some, arith, Text, All, keep, Bool-cases, inl, inr, text_eq, text_beq, text_beq_iff, length,
}

abbrev pub row_size : Meta → ℕ
row_size m = m.size

pub record IsAccurate {F : Type 0} (c : DiskLru F) : Type 0 where
  pub distinct : HasDistinctKeys meta_key c.rows
  pub counted : c.total ≡ pos (bytes c.rows)
  pub fits : bytes c.rows < two63

pub remove_absent_lem :
    (k : Text) (rows : List Meta) → All (λ s. meta_key s ≢ k) rows → remove meta_key k rows ≡ rows
unfolding remove
remove_absent_lem k [] h = refl
remove_absent_lem k (m ∷ rows) h =
    ground (arith, text_beq_iff m.key k, remove_absent_lem k rows h.1, h.0)

pub bytes-remove :
    (k : Text) (rows : List Meta) (m : Meta)
    → HasDistinctKeys meta_key rows
    → find meta_key k rows ≡ some m
    → (bytes (remove meta_key k rows) + m.size ≡ bytes rows)
      × (suc (length (remove meta_key k rows)) ≡ length rows)
unfolding find remove
bytes-remove k [] m d h = absurd (cc)
bytes-remove k (x ∷ rows) m d h = elim (Bool-cases (text_beq x.key k)) [
  | inl same ↦
      let at : x.key ≡ k = (text_beq_iff x.key k).0 same in
      let gone : keep (λ r. not (text_beq (meta_key r) k)) rows ≡ rows =
        unfold remove in
        remove_absent_lem k rows (subst (λ j. All (λ s. meta_key s ≢ j) rows) at d.0) in
      ground (arith, gone)
  | inr other ↦ ground (arith, bytes-remove k rows m d.1)
]

pub bytes-remove_le : (k : Text) (rows : List Meta) → bytes (remove meta_key k rows) ≤ bytes rows
unfolding remove
bytes-remove_le k [] = omega arith
bytes-remove_le k (m ∷ rows) = ground (arith, bytes-remove_le k rows)

All-absent :
    (k : Text) (rows : List Meta) → find meta_key k rows ≡ none → All (λ s. meta_key s ≢ k) rows
unfolding find
All-absent k [] h = tt
All-absent k (m ∷ rows) h = ground (arith, text_beq_iff m.key k, All-absent k rows)

bytes-touch_row :
    (k : Text) (now : ℤ) (rows : List Meta) → bytes (touch_row k now rows) ≡ bytes rows
unfolding touch_row
bytes-touch_row k now [] = refl
bytes-touch_row k now (m ∷ rows) = ground (arith, bytes-touch_row k now rows)

All-touch_row :
    (k j : Text) (now : ℤ) (rows : List Meta)
    → All (λ s. meta_key s ≢ j) rows
    → All (λ s. meta_key s ≢ j) (touch_row k now rows)
unfolding touch_row
All-touch_row k j now [] h = tt
All-touch_row k j now (m ∷ rows) h = ground (arith, h.0, All-touch_row k j now rows h.1)

touch_row-HasDistinctKeys :
    (k : Text) (now : ℤ) (rows : List Meta)
    → HasDistinctKeys meta_key rows
    → HasDistinctKeys meta_key (touch_row k now rows)
unfolding touch_row
touch_row-HasDistinctKeys k now [] h = tt
touch_row-HasDistinctKeys k now (m ∷ rows) h = elim (Bool-cases (text_beq m.key k)) [
  | inl e ↦ rw e (All-touch_row k m.key now rows h.0, touch_row-HasDistinctKeys k now rows h.1)
  | inr e ↦ rw e (All-touch_row k m.key now rows h.0, touch_row-HasDistinctKeys k now rows h.1)
]

abbrev written_row : ℤ → Writer → Meta
written_row now w = record {
  key = w.key;
  size = w.n;
  atime = now;
  created_at = now;
  content_type = w.content_type;
}

size_of_lem :
    (k : Text) (rows : List Meta) (o : Option Meta)
    → HasDistinctKeys meta_key rows
    → find meta_key k rows ≡ o
    → bytes (remove meta_key k rows) + size_of o ≡ bytes rows
size_of_lem k rows none d h =
    omega (arith, ap bytes (remove_absent_lem k rows (All-absent k rows h)))
size_of_lem k rows (some m) d h = (bytes-remove k rows m d h).0

module _ {F : Type 0} where
  pub drop_row-IsAccurate :
      (c : DiskLru F) (k : Text) (m : Meta)
      → find meta_key k c.rows ≡ some m
      → IsAccurate c
      → IsAccurate (drop_row k m.size c)
  unfolding drop_row
  drop_row-IsAccurate c k m h v =
      let (sum, _) = bytes-remove k c.rows m v.distinct h in
      record {
        distinct = remove-HasDistinctKeys meta_key k c.rows v.distinct;
        counted =
            ap (λ z. sub64 z (pos m.size)) v.counted
            ∙ (sub64-pos (bytes c.rows) m.size (omega arith) v.fits ∙ ap pos (omega arith));
        fits = omega (arith, v.fits);
      }

  touch-IsAccurate :
      (c : DiskLru F) (k : Text) (now : ℤ)
      → IsAccurate c
      → IsAccurate (record c { rows = touch_row k now c.rows })
  touch-IsAccurate c k now v = record {
    distinct = touch_row-HasDistinctKeys k now c.rows v.distinct;
    counted = v.counted ∙ ap pos (sym (bytes-touch_row k now c.rows));
    fits = omega (arith, bytes-touch_row k now c.rows, v.fits);
  }

  get_file-IsAccurate :
      (faults : GetFaults) (now : ℤ) (c : DiskLru F) (k : Text) (m : Meta)
      (f : Option (Text × Text))
      → find meta_key k c.rows ≡ some m
      → IsAccurate c
      → IsAccurate (get_file faults now c k m f).0
  unfolding get_file
  get_file-IsAccurate faults now c k m none h v = elim (Bool-cases faults.delete_row) [
    | inl e ↦ rw e v
    | inr e ↦ rw e (drop_row-IsAccurate c k m h v)
  ]
  get_file-IsAccurate faults now c k m (some f) h v = elim (Bool-cases faults.touch) [
    | inl e ↦ rw e v
    | inr e ↦ rw e (touch-IsAccurate c k now v)
  ]

  get_row-IsAccurate :
      (faults : GetFaults) (now : ℤ) (c : DiskLru F) (k : Text) (o : Option Meta)
      → find meta_key k c.rows ≡ o
      → IsAccurate c
      → IsAccurate (get_row faults now c k o).0
  unfolding get_row
  get_row-IsAccurate faults now c k none h v = v
  get_row-IsAccurate faults now c k (some m) h v = elim (Bool-cases faults.open_file) [
    | inl e ↦ rw e v
    | inr e ↦ rw e (get_file-IsAccurate faults now c k m _ h v)
  ]

  -- Get keeps the byte count equal to the sum over the rows, whichever of its calls fail.
  pub get-IsAccurate :
      (faults : GetFaults) (now : ℤ) (c : DiskLru F) (k : Text)
      → IsAccurate c
      → IsAccurate (get faults now c k).0
  unfolding get
  get-IsAccurate faults now c k v = elim (Bool-cases faults.query) [
    | inl e ↦ rw e v
    | inr e ↦ rw e (get_row-IsAccurate faults now c k (find meta_key k c.rows) refl v)
  ]

  -- A commit that stores a file keeps the byte count equal to the sum over the rows, where the query
  -- for the old size answers and the new sum fits an int64.
  pub record_row-IsAccurate :
      (faults : CommitFaults) (now : ℤ) (c : DiskLru F) (w : Writer)
      → faults.old_size ≡ false
      → bytes c.rows + w.n < two63
      → IsAccurate c
      → IsAccurate (record_row faults now c w)
  unfolding record_row upsert
  record_row-IsAccurate faults now c w answers room v =
      let old = size_of (find meta_key w.key c.rows) in
      let sum = size_of_lem w.key c.rows (find meta_key w.key c.rows) v.distinct refl in
      record {
        distinct = upsert-HasDistinctKeys meta_key (written_row now w) c.rows v.distinct;
        counted =
            rw (answers, v.counted)
              (add64-sub64 (bytes c.rows) w.n old (omega arith) room ∙ ap pos (omega arith));
        fits = omega arith;
      }

  -- Commit keeps the byte count equal to the sum over the rows on every outcome, whichever other
  -- call fails.
  pub commit-IsAccurate :
      (faults : CommitFaults) (now : ℤ) (c : DiskLru F) (w : Writer)
      → faults.old_size ≡ false
      → bytes c.rows + w.n < two63
      → IsAccurate c
      → IsAccurate (commit faults now c w).0
  unfolding commit move_file
  commit-IsAccurate faults now c w answers room v =
      elim (Bool-cases (w.overflow || (w.failed || faults.close))) [
        | inl e ↦ rw e v
        | inr e ↦ rw e (elim (Bool-cases faults.mkdir) [
          | inl f ↦ rw f v
          | inr f ↦ rw f (elim (Bool-cases (renames faults.rename 0 5)) [
            | inr g ↦ rw g v
            | inl g ↦ rw g (elim (Bool-cases faults.upsert_row) [
              | inl h ↦ rw h (record { distinct = v.distinct; counted = v.counted; fits = v.fits })
              | inr h ↦ rw h (
                  record_row-IsAccurate faults now (move_file c w) w answers room
                    (record { distinct = v.distinct; counted = v.counted; fits = v.fits }))
            ])
          ])
        ])
      ]
