-- ===== src/Cache/Files.antt =====
-- What each operation of the cache does to the file of a key.
use mathlib.Core.Path.{subst}
use pixiv_relay.Cache.Evict.{EvictFaults, evict_batch, evict_entry}
use pixiv_relay.Cache.Paths.{IsLong, path_for_injective, stored_at}
use pixiv_relay.Cache.Rounds.{evict_entry_cases}
use pixiv_relay.Cache.Store.{
  Meta, meta_key, file_path, DiskLru, GetFaults, CommitFaults, Writer, path_for, get_file, get_row,
  get, drop_row, renames, move_file, record_row, commit,
}
use pixiv_relay.Common.Errors.{Result, Error, ok, err, ok_injective, internal}
use pixiv_relay.Prelude.Int.{ℤ}
use pixiv_relay.Prelude.Table.{
  find, upsert, remove, find-remove_self, find-remove_ne, find-upsert_self, find-upsert_ne,
}
use pixiv_relay.Prelude.{
  ◌≡◌, ◌≢◌, refl, ap, sym, Bool, true, false, not, ◌&&◌, ◌||◌, List, [], ◌∷◌, Option, none, some,
  Text, Bool-cases, inl, inr, text_eq, text_beq, text_beq_iff, arith, if◌then◌else◌, codes,
}

-- A file, if it is there, has the content that is remembered.
abbrev pub Agrees : Option (Text × Text) → Option Text → Type 0
Agrees none m = Unit
Agrees (some f) m = m ≡ some f.1

abbrev pub content_of : Option (Text × Text) → Option Text
content_of none = none
content_of (some f) = some f.1

pub Agrees-content_of : (o : Option (Text × Text)) → Agrees o (content_of o)
Agrees-content_of none = tt
Agrees-content_of (some f) = refl

-- A Commit that puts its file in place.
abbrev lands : CommitFaults → Writer → Bool
lands faults w =
    not (w.overflow || (w.failed || faults.close))
    && (not faults.mkdir && renames faults.rename 0 5)

-- What is remembered after a Commit.
abbrev pub noted : Text → CommitFaults → Writer → Option Text → Option Text
noted key faults w m = if text_beq w.key key && lands faults w then some w.temp else m

-- A step that may fail, and whose outcome is not an error, did not fail.
ok_otherwise :
    {S A : Type 0} (fails : Bool) (s : S) (e : Error) (m : S × Result A) {a : A}
    → (if fails then (s, err e) else m).1 ≡ ok a
    → m.1 ≡ ok a
ok_otherwise true s e m h = absurd (cc h)
ok_otherwise false s e m h = h

module _ {F : Type 0} where
  get_file_keeps :
      (key : Text) (faults : GetFaults) (now : ℤ) (c : DiskLru F) (k : Text) (m : Meta)
      (f : Option (Text × Text))
      → stored_at key (get_file faults now c k m f).0 ≡ stored_at key c
  unfolding get_file drop_row
  get_file_keeps key faults now c k m none = elim (Bool-cases faults.delete_row) [
    | inl e ↦ rw e refl
    | inr e ↦ rw e refl
  ]
  get_file_keeps key faults now c k m (some f) = elim (Bool-cases faults.touch) [
    | inl e ↦ rw e refl
    | inr e ↦ rw e refl
  ]

  get_row_keeps :
      (key : Text) (faults : GetFaults) (now : ℤ) (c : DiskLru F) (k : Text) (o : Option Meta)
      → stored_at key (get_row faults now c k o).0 ≡ stored_at key c
  unfolding get_row
  get_row_keeps key faults now c k none = refl
  get_row_keeps key faults now c k (some m) = elim (Bool-cases faults.open_file) [
    | inl e ↦ rw e refl
    | inr e ↦ rw e (get_file_keeps key faults now c k m _)
  ]

  pub get_keeps :
      (key : Text) (faults : GetFaults) (now : ℤ) (c : DiskLru F) (k : Text)
      → stored_at key (get faults now c k).0 ≡ stored_at key c
  unfolding get
  get_keeps key faults now c k = elim (Bool-cases faults.query) [
    | inl e ↦ rw e refl
    | inr e ↦ rw e (get_row_keeps key faults now c k _)
  ]

  move_file-Agrees :
      (key : Text) (c : DiskLru F) (w : Writer) (m : Option Text)
      → IsLong key
      → IsLong w.key
      → Agrees (stored_at key c) m
      → Agrees (stored_at key (move_file c w)) (if text_beq w.key key then some w.temp else m)
  unfolding move_file
  move_file-Agrees key c w m hk hw v = elim (Bool-cases (text_beq w.key key)) [
    | inl same ↦
        let moved = upsert file_path (path_for c.cfg w.key, w.temp) c.files in
        let found : find file_path (path_for c.cfg key) moved
            ≡ some (path_for c.cfg w.key, w.temp) =
          subst (λ k. find file_path (path_for c.cfg k) moved ≡ some (path_for c.cfg w.key, w.temp))
            ((text_beq_iff w.key key).0 same)
            (find-upsert_self file_path (path_for c.cfg w.key, w.temp) c.files) in
        rw same (subst (λ o. Agrees o (some w.temp)) (sym found) refl)
    | inr other ↦
        let apart : path_for c.cfg key ≢ path_for c.cfg w.key = λ e. absurd (
          ground
            (arith, other, text_beq_iff w.key key, path_for_injective c.cfg key w.key hk hw e)) in
        rw other (
          subst (λ o. Agrees o m)
            (sym (
              find-upsert_ne file_path (path_for c.cfg w.key, w.temp) (path_for c.cfg key) c.files
                apart))
            v)
  ]

  commit_stays :
      (faults : CommitFaults) (now : ℤ) (c : DiskLru F) (w : Writer)
      → lands faults w ≡ false
      → (commit faults now c w).0 ≡ c
  unfolding commit
  commit_stays faults now c w h = ground (arith, h)

  commit-lands :
      (key : Text) (faults : CommitFaults) (now : ℤ) (c : DiskLru F) (w : Writer)
      → lands faults w ≡ true
      → stored_at key (commit faults now c w).0 ≡ stored_at key (move_file c w)
  unfolding commit record_row
  commit-lands key faults now c w h = ground (arith, h)

  pub commit-Agrees :
      (key : Text) (faults : CommitFaults) (now : ℤ) (c : DiskLru F) (w : Writer) (m : Option Text)
      → IsLong key
      → IsLong w.key
      → Agrees (stored_at key c) m
      → Agrees (stored_at key (commit faults now c w).0) (noted key faults w m)
  commit-Agrees key faults now c w m hk hw v = elim (Bool-cases (lands faults w)) [
    | inl moved ↦
        let same : noted key faults w m ≡ (if text_beq w.key key then some w.temp else m) =
          ground (arith, moved) in
        subst (Agrees (stored_at key (commit faults now c w).0)) (sym same) (
          subst (λ o. Agrees o (if text_beq w.key key then some w.temp else m))
            (sym (commit-lands key faults now c w moved)) (move_file-Agrees key c w m hk hw v))
    | inr stays ↦
        let same : noted key faults w m ≡ m = ground (arith, stays) in
        subst (Agrees (stored_at key (commit faults now c w).0)) (sym same)
          (subst (λ d. Agrees (stored_at key d) m) (sym (commit_stays faults now c w stays)) v)
  ]

  remove-Agrees :
      (key : Text) (c : DiskLru F) (gone : Text) (m : Option Text)
      → Agrees (stored_at key c) m
      → Agrees (find file_path (path_for c.cfg key) (remove file_path gone c.files)) m
  remove-Agrees key c gone m v = elim (Bool-cases (text_beq (path_for c.cfg key) gone)) [
    | inl same ↦
        let at = (text_beq_iff (path_for c.cfg key) gone).0 same in
        let found : find file_path (path_for c.cfg key) (remove file_path gone c.files) ≡ none =
          subst (λ p. find file_path p (remove file_path gone c.files) ≡ none) (sym at)
            (find-remove_self file_path gone c.files) in
        subst (λ o. Agrees o m) (sym found) tt
    | inr other ↦
        subst (λ o. Agrees o m)
          (sym (
            find-remove_ne file_path gone (path_for c.cfg key) c.files
              (λ e. absurd (ground (arith, other, e, text_beq_iff (path_for c.cfg key) gone)))))
          v
  ]

  pub evict_batch-Agrees :
      (key : Text) (faults : EvictFaults) (ms : List Meta) (c : DiskLru F) (m : Option Text)
      → Agrees (stored_at key c) m
      → Agrees (stored_at key (evict_batch faults c ms)) m
  unfolding evict_batch
  evict_batch-Agrees key faults [] c m v = v
  evict_batch-Agrees key faults (r ∷ ms) c m v =
      evict_batch-Agrees key faults ms (evict_entry faults c r) m (
        evict_entry_cases (λ d. Agrees (stored_at key d) m) faults c r v
          (remove-Agrees key c (path_for c.cfg r.key) m v)
          (unfold drop_row in (remove-Agrees key c (path_for c.cfg r.key) m v)))

  -- A hit is the content of the key's file.
  get_file_hit :
      (faults : GetFaults) (now : ℤ) (c : DiskLru F) (k content : Text) (row m : Meta)
      (f : Option (Text × Text))
      → (get_file faults now c k row f).1 ≡ ok (some (content, m))
      → content_of f ≡ some content
  unfolding get_file
  get_file_hit faults now c k content row m none h = absurd (cc (ok_injective h))
  get_file_hit faults now c k content row m (some f) h =
      ap (λ o. elim o [ none ↦ none | some p ↦ some p.0 ]) (ok_injective h)

  get_row_hit :
      (faults : GetFaults) (now : ℤ) (c : DiskLru F) (k content : Text) (m : Meta) (o : Option Meta)
      → (get_row faults now c k o).1 ≡ ok (some (content, m))
      → content_of (stored_at k c) ≡ some content
  unfolding get_row
  get_row_hit faults now c k content m none h = absurd (cc (ok_injective h))
  get_row_hit faults now c k content m (some row) h =
      get_file_hit faults now c k content row m (stored_at k c)
        (ok_otherwise faults.open_file c (internal (codes "cache: open file")) _ h)

  pub hit_stored :
      (faults : GetFaults) (now : ℤ) (c : DiskLru F) (k content : Text) (m : Meta)
      → (get faults now c k).1 ≡ ok (some (content, m))
      → content_of (stored_at k c) ≡ some content
  unfolding get
  hit_stored faults now c k content m h =
      get_row_hit faults now c k content m (find meta_key k c.rows)
        (ok_otherwise faults.query c (internal (codes "cache: get meta")) _ h)
