-- ===== src/Cache/Races.antt =====
-- internal/cache/disklru.go: Get holds no lock between its statements, so two calls can interleave.
use mathlib.Core.Path.{subst}
use pixiv_relay.Cache.Accounts.{IsAccurate, bytes-remove, drop_row-IsAccurate, remove_absent_lem}
use pixiv_relay.Cache.Store.{
  DiskLru, Meta, meta_key, bytes, file_path, GetFaults, path_for, drop_row, get_file, get_row, get,
}
use pixiv_relay.Common.Errors.{ok}
use pixiv_relay.Prelude.Int.{ℤ, pos, sub64}
use pixiv_relay.Prelude.Table.{find, remove, remove_absent}
use pixiv_relay.Prelude.{◌+◌, ◌≡◌, ap, refl, ◌∙◌, sym, false, none, some, Text, text_eq}

module _ {F : Type 0} where
  -- A call that found the row `m` and no file, and whose DELETE does not fail.
  finds_no_file :
      (faults : GetFaults) (now : ℤ) (c : DiskLru F) (key : Text) (m : Meta)
      → find file_path (path_for c.cfg key) c.files ≡ none
      → faults.open_file ≡ false
      → faults.delete_row ≡ false
      → get_row faults now c key (some m) ≡ (drop_row key m.size c, ok none)
  unfolding get_row get_file
  finds_no_file faults now c key m lost opens deletes = rw (opens, lost, deletes) refl

  -- Two calls of Get for one key read its row, whose file is missing. The first goes on to its end,
  -- then the second does, with the row that it has read: the row is gone, and its size was taken off
  -- the byte count twice, so that the count falls short of the sum over the rows by that size, in
  -- int64. (The count was right before, and no call of theirs fails.)
  pub get-get_race :
      (faults late : GetFaults) (now later : ℤ) (c : DiskLru F) (key : Text) (m : Meta)
      → IsAccurate c
      → find meta_key key c.rows ≡ some m
      → find file_path (path_for c.cfg key) c.files ≡ none
      → faults.query ≡ false
      → faults.open_file ≡ false
      → faults.delete_row ≡ false
      → late.open_file ≡ false
      → late.delete_row ≡ false
      → let after = (get_row late later (get faults now c key).0 key (some m)).0 in
        (bytes after.rows + m.size ≡ bytes c.rows)
        × (after.total ≡ sub64 (pos (bytes after.rows)) (pos m.size))
  unfolding get drop_row
  get-get_race faults late now later c key m v found lost asks opens deletes opens_late
        deletes_late =
      let rest = remove meta_key key c.rows in
      let first : get faults now c key ≡ (drop_row key m.size c, ok none) =
        rw (asks, found) (finds_no_file faults now c key m lost opens deletes) in
      let second =
        finds_no_file late later (drop_row key m.size c) key m lost opens_late deletes_late in
      let once : remove meta_key key rest ≡ rest =
        unfold remove in remove_absent_lem key rest (remove_absent meta_key key c.rows) in
      let counted = (drop_row-IsAccurate c key m found v).counted in
      let both = ap (λ x. (get_row late later x.0 key (some m)).0) first ∙ ap (λ x. x.0) second in
      subst
        (λ (d : DiskLru F).
          (bytes d.rows + m.size ≡ bytes c.rows)
          × (d.total ≡ sub64 (pos (bytes d.rows)) (pos m.size)))
        (sym both)
        (
          ap (λ r. bytes r + m.size) once ∙ (bytes-remove key c.rows m v.distinct found).0,
          ap (λ t. sub64 t (pos m.size)) counted
              ∙ ap (λ r. sub64 (pos (bytes r)) (pos m.size)) (sym once),
        )
