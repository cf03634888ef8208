-- ===== src/Prelude/Table.antt =====
-- Tables as lists of rows with a key, as SQLite keeps them under a PRIMARY KEY.
use mathlib.Core.Path.{subst}
use pixiv_relay.Prelude.{
  ◌≡◌, refl, ◌≢◌, Bool, inl, inr, Bool-cases, not, List, [], ◌∷◌, ◌++◌, Option, none, some, arith,
  Eq, if◌then◌else◌, keep, All, All-keep,
}

module _ {ℓ κ} {R : Type ℓ} {K : Type κ} ⦃e : Eq K⦄ (key : R → K) where
  -- The row with the key.
  unfoldable pub find : K → List R → Option R
  find k [] = none
  find k (r ∷ rs) = if e.beq (key r) k then some r else find k rs

  -- DELETE … WHERE key = k
  unfoldable pub remove : K → List R → List R
  remove k rs = keep (λ r. not (e.beq (key r) k)) rs

  -- INSERT OR REPLACE
  unfoldable pub upsert : R → List R → List R
  unfolding remove
  upsert r rs = r ∷ remove (key r) rs

  -- No two rows share a key.
  abbrev pub HasDistinctKeys : List R → Type κ
  HasDistinctKeys [] = Unit
  HasDistinctKeys (r ∷ rs) = All (λ s. key s ≢ key r) rs × HasDistinctKeys rs

  pub find-remove_self : (k : K) (rs : List R) → find k (remove k rs) ≡ none
  unfolding find remove
  find-remove_self k [] = refl
  find-remove_self k (r ∷ rs) = ground (arith, find-remove_self k rs)

  pub find-remove_ne : (k j : K) (rs : List R) → j ≢ k → find j (remove k rs) ≡ find j rs
  unfolding find remove
  find-remove_ne k j [] h = refl
  find-remove_ne k j (r ∷ rs) h =
      ground (arith, find-remove_ne k j rs h, e.beq_iff (key r) k, e.beq_iff (key r) j)

  pub find-upsert_self : (r : R) (rs : List R) → find (key r) (upsert r rs) ≡ some r
  unfolding find upsert
  find-upsert_self r rs = ground (arith, e.beq_iff (key r) (key r))

  pub find-upsert_ne : (r : R) (j : K) (rs : List R) → j ≢ key r → find j (upsert r rs) ≡ find j rs
  unfolding find upsert
  find-upsert_ne r j rs h = ground (arith, e.beq_iff (key r) j, find-remove_ne (key r) j rs h)

  pub key_of_find : (k : K) (rs : List R) (r : R) → find k rs ≡ some r → key r ≡ k
  unfolding find
  key_of_find k [] r h = ground arith
  key_of_find k (x ∷ rs) r h = ground (arith, e.beq_iff (key x) k, key_of_find k rs r)

  pub remove-HasDistinctKeys :
      (k : K) (rs : List R) → HasDistinctKeys rs → HasDistinctKeys (remove k rs)
  unfolding remove
  remove-HasDistinctKeys k [] h = tt
  remove-HasDistinctKeys k (r ∷ rs) h = ground (
    arith,
    remove-HasDistinctKeys k rs h.1,
    All-keep (λ s. key s ≢ key r) (λ s. not (e.beq (key s) k)) rs h.0,
  )

  pub remove_absent : (k : K) (rs : List R) → All (λ s. key s ≢ k) (remove k rs)
  unfolding remove
  remove_absent k [] = tt
  remove_absent k (r ∷ rs) = ground (arith, remove_absent k rs, e.beq_iff (key r) k)

  pub upsert-HasDistinctKeys :
      (r : R) (rs : List R) → HasDistinctKeys rs → HasDistinctKeys (upsert r rs)
  unfolding upsert
  upsert-HasDistinctKeys r rs h = (remove_absent (key r) rs, remove-HasDistinctKeys (key r) rs h)

  pub find_absent : (k : K) (rs : List R) → All (λ s. key s ≢ k) rs → find k rs ≡ none
  unfolding find
  find_absent k [] h = refl
  find_absent k (r ∷ rs) h = ground (arith, e.beq_iff (key r) k, find_absent k rs h.1, h.0)

  pub keep-HasDistinctKeys :
      (p : R → Bool) (rs : List R) → HasDistinctKeys rs → HasDistinctKeys (keep p rs)
  keep-HasDistinctKeys p [] h = tt
  keep-HasDistinctKeys p (r ∷ rs) h =
      ground (arith, keep-HasDistinctKeys p rs h.1, All-keep (λ s. key s ≢ key r) p rs h.0)

  -- The row, if the test keeps it.
  abbrev pub keep_if : (R → Bool) → Option R → Option R
  keep_if p none = none
  keep_if p (some r) = if p r then some r else none

  pub find-append_ne : (k : K) (r : R) (rs : List R) → k ≢ key r → find k (rs ++ r ∷ []) ≡ find k rs
  unfolding find
  find-append_ne k r [] h = ground (arith, e.beq_iff (key r) k)
  find-append_ne k r (x ∷ rs) h = ground (arith, find-append_ne k r rs h)

  pub find-keep :
      (p : R → Bool) (k : K) (rs : List R)
      → HasDistinctKeys rs
      → find k (keep p rs) ≡ keep_if p (find k rs)
  unfolding find
  find-keep p k [] h = refl
  find-keep p k (r ∷ rs) h = elim (Bool-cases (e.beq (key r) k)) [
    | inl same ↦
        let at : key r ≡ k = (e.beq_iff (key r) k).0 same in
        let gone : find k (keep p rs) ≡ none =
          find_absent k (keep p rs)
            (All-keep (λ s. key s ≢ k) p rs (subst (λ j. All (λ s. key s ≢ j) rs) at h.0)) in
        ground (arith, gone)
    | inr other ↦ ground (arith, find-keep p k rs h.1)
  ]
