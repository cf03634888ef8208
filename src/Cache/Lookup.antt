-- ===== src/Cache/Lookup.antt =====
-- What was put can be got: the bytes, their number and the content type.
use mathlib.Core.Path.{subst}
use pixiv_relay.Cache.Store.{
  DiskLru, Config, Meta, meta_key, file_path, path_for, GetFaults, CommitFaults, Writer, new_writer,
  write, copy, move_file, record_row, commit, put, get, get_row, get_file,
}
use pixiv_relay.Common.Errors.{ok}
use pixiv_relay.Prelude.Int.{ℤ, pos, ltb_ℤ}
use pixiv_relay.Prelude.Table.{find-upsert_self}
use pixiv_relay.Prelude.{
  ℕ, ◌+◌, ◌≡◌, refl, ap, ◌∙◌, sym, Bool, true, false, ◌||◌, List, [], ◌∷◌, ◌++◌, Option, none, some,
  arith, Text, Bool-cases, inl, inr, length, length-append, text_eq,
}
use mathlib.Core.List.{append_assoc, append-nil}

-- The bytes that the reader gave.
abbrev pub received : List (Text × Option ℕ) → Text
received [] = []
received ((p, short) ∷ chunks) = p ++ received chunks

abbrev pub is_degraded : Writer → Bool
is_degraded w = w.overflow || w.failed

-- What a writer holds that started as `w` and was given these chunks without degrading.
abbrev Holds : Writer → List (Text × Option ℕ) → Writer → Type 0
Holds w chunks r =
    (r.temp ≡ w.temp ++ received chunks)
    × (r.n ≡ w.n + length (received chunks))
    × (r.key ≡ w.key)
    × (r.content_type ≡ w.content_type)

abbrev pub quiet_get : GetFaults
quiet_get = record { query = false; open_file = false; delete_row = false; touch = false }

abbrev pub found_row : ℤ → Writer → Meta
found_row now w = record {
  key = w.key;
  size = w.n;
  atime = now;
  created_at = now;
  content_type = w.content_type;
}

opened :
    (key ct : Text) (chunks : List (Text × Option ℕ)) (w : Writer)
    → Holds (new_writer key ct) chunks w
    → (w.temp ≡ received chunks)
      × (w.n ≡ length (received chunks))
      × (w.key ≡ key)
      × (w.content_type ≡ ct)
unfolding new_writer
opened key ct chunks w (t, n, k, kind) = (t, omega arith, k, kind)

module _ {F : Type 0} where
  copy_degraded :
      (cfg : Config F) (w : Writer) (chunks : List (Text × Option ℕ))
      → is_degraded w ≡ true
      → copy cfg w chunks ≡ w
  unfolding copy
  copy_degraded cfg w [] h = refl
  copy_degraded cfg w ((p, short) ∷ chunks) h = rw h (copy_degraded cfg w chunks h)

  abbrev after_chunk : Config F → Writer → Text → Writer
  after_chunk cfg w p = record w {
    temp = w.temp ++ p;
    n = w.n + length p;
    overflow = ltb_ℤ cfg.max_file_bytes (pos (w.n + length p));
  }

  write_clean :
      (cfg : Config F) (w : Writer) (p : Text)
      → is_degraded w ≡ false
      → write cfg w p none ≡ after_chunk cfg w p
  unfolding write
  write_clean cfg w p h = rw h

  write_short :
      (cfg : Config F) (w : Writer) (p : Text) (k : ℕ) → is_degraded (write cfg w p (some k)) ≡ true
  unfolding write
  write_short cfg w p k = ground arith

  write_dirty :
      (cfg : Config F) (w : Writer) (p : Text) (short : Option ℕ)
      → is_degraded w ≡ true
      → write cfg w p short ≡ w
  unfolding write
  write_dirty cfg w p short h = rw h

  copy-Holds :
      (cfg : Config F) (w : Writer) (chunks : List (Text × Option ℕ))
      → is_degraded (copy cfg w chunks) ≡ false
      → Holds w chunks (copy cfg w chunks)
  unfolding copy
  copy-Holds cfg w [] h = (sym (append-nil _), omega arith, refl, refl)
  copy-Holds cfg w ((p, none) ∷ chunks) h = elim (Bool-cases (is_degraded w)) [
    | inl dirty ↦
        let same =
          ap (λ x. copy cfg x chunks) (write_dirty cfg w p none dirty)
          ∙ copy_degraded cfg w chunks dirty in
        absurd (cc (sym (ap is_degraded same) ∙ h, dirty))
    | inr clean ↦
        let e = write_clean cfg w p clean in
        let (t, n, k, ct) = copy-Holds cfg (write cfg w p none) chunks h in
        (
          t
              ∙ (ap (λ (x : Writer). x.temp ++ received chunks) e
                  ∙ append_assoc w.temp p (received chunks)),
          n
              ∙ (ap (λ (x : Writer). x.n + length (received chunks)) e
                  ∙ omega (arith, length-append p (received chunks))),
          k ∙ ap (λ (x : Writer). x.key) e,
          ct ∙ ap (λ (x : Writer). x.content_type) e,
        )
  ]
  copy-Holds cfg w ((p, some k) ∷ chunks) h =
      let short = write_short cfg w p k in
      absurd (
        cc (
          sym (ap is_degraded (copy_degraded cfg (write cfg w p (some k)) chunks short)) ∙ h,
          short,
        ))

  commit_stored :
      (faults : CommitFaults) (now : ℤ) (c c' : DiskLru F) (w : Writer)
      → commit faults now c w ≡ (c', ok true)
      → (is_degraded w ≡ false) × (c' ≡ record_row faults now (move_file c w) w)
  unfolding commit
  commit_stored faults now c c' w h = ground arith

  get_recorded :
      (faults : CommitFaults) (now later : ℤ) (c : DiskLru F) (w : Writer)
      → (get quiet_get later (record_row faults now (move_file c w) w) w.key).1
        ≡ ok (some (w.temp, found_row now w))
  unfolding get get_row get_file record_row move_file
  get_recorded faults now later c w =
      rw (find-upsert_self meta_key (found_row now w) c.rows, get_row)
        (rw (find-upsert_self file_path (path_for c.cfg w.key, w.temp) c.files, get_file))

  -- After a Put that reports the file as stored, a Get of the same key whose calls do not fail hits:
  -- it returns every byte that the reader gave, their number as the size, and the content type.
  pub get-put :
      (no_temp : Bool) (faults : CommitFaults) (now later : ℤ) (c c' : DiskLru F) (key ct : Text)
      (chunks : List (Text × Option ℕ))
      → put no_temp faults now c key ct chunks ≡ (c', ok true)
      → (m : Meta) × ((get quiet_get later c' key).1 ≡ ok (some (received chunks, m)))
        × (m.size ≡ length (received chunks))
        × (m.content_type ≡ ct)
  get-put true faults now later c c' key ct chunks h = absurd (unfold put in ground arith)
  get-put false faults now later c c' key ct chunks h =
      let w = copy c.cfg (new_writer key ct) chunks in
      let (clean, shape) = commit_stored faults now c c' w (unfold put in h) in
      let held = copy-Holds c.cfg (new_writer key ct) chunks clean in
      let (temp, size, same_key, kind) =
        opened key ct chunks (copy c.cfg (new_writer key ct) chunks) held in
      (
        found_row now w,
        rw shape (
            subst
              (λ k.
                (get quiet_get later (record_row faults now (move_file c w) w) k).1
                ≡ ok (some (received chunks, found_row now w)))
              same_key
              (get_recorded faults now later c w ∙ ap (λ x. ok (some (x, found_row now w))) temp)),
        size,
        kind,
      )
