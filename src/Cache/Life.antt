-- ===== src/Cache/Life.antt =====
-- The life of the cache: it is opened, and then its operations come in any order, one after the other.
-- (Cache.Races has two that overlap.)
use mathlib.Core.Path.{subst}
use pixiv_relay.Cache.Accounts.{IsAccurate, get-IsAccurate, commit-IsAccurate}
use pixiv_relay.Cache.Ends.{evict_stop, evict_empty, evict_more}
use pixiv_relay.Cache.Evict.{EvictFaults, evict_batch, next_batch, is_over, evict}
use pixiv_relay.Cache.Lru.{next_batch-IsBatchOf}
use pixiv_relay.Cache.Open.{OpenFaults, fresh, open_cache}
use pixiv_relay.Cache.Rounds.{evict_batch-IsAccurate}
use pixiv_relay.Cache.Store.{
  Config, Meta, meta_key, DiskLru, bytes, GetFaults, CommitFaults, Writer, normalize_config, get,
  commit, set_limits,
}
use pixiv_relay.Common.Errors.{ok, ok_injective, >>=-eq-ok, refuse-eq-ok}
use pixiv_relay.Prelude.Int.{ℤ, two63}
use pixiv_relay.Prelude.Table.{HasDistinctKeys}
use pixiv_relay.Prelude.{
  ℕ, zero, suc, ◌+◌, ◌<◌, ◌≡◌, refl, ap, sym, Bool, true, false, List, [], ◌∷◌, Text, Bool-cases,
  inl, inr, text_eq, arith,
}

module _ {F : Type 0} (scale : F → ℤ → ℤ) where
  -- One operation of the cache.
  pub data Step : DiskLru F → DiskLru F → Type 0 where
    look :
        (faults : GetFaults) (now : ℤ) (key : Text) (c : DiskLru F)
        → Step c (get faults now c key).0
    store :
        (faults : CommitFaults) (now : ℤ) (w : Writer) (c : DiskLru F)
        → Step c (commit faults now c w).0
    shrink :
        (faults : ℕ → EvictFaults) (rounds i : ℕ) (c : DiskLru F)
        → Step c (evict scale faults rounds i c).0
    limit :
        (max_bytes : ℤ) (high_watermark : F) (c : DiskLru F)
        → Step c (set_limits max_bytes high_watermark c)

  pub data Reaches (start : DiskLru F) : DiskLru F → Type 0 where
    here : Reaches start start
    step : {c d : DiskLru F} → Reaches start c → Step c d → Reaches start d

  -- In a Commit, the query for the old size answers and the new sum fits an int64.
  abbrev pub IsCounted : {c d : DiskLru F} → Step c d → Type 0
  IsCounted (look faults now key c) = Unit
  IsCounted (store faults now w c) = (faults.old_size ≡ false) × (bytes c.rows + w.n < two63)
  IsCounted (shrink faults rounds i c) = Unit
  IsCounted (limit max_bytes high_watermark c) = Unit

  abbrev pub AllCounted : {c d : DiskLru F} → Reaches c d → Type 0
  AllCounted here = Unit
  AllCounted (step before s) = AllCounted before × IsCounted s

  evict_fails :
      (faults : ℕ → EvictFaults) (rounds i : ℕ) (c : DiskLru F)
      → is_over scale c ≡ true
      → (faults i).query ≡ true
      → evict scale faults (suc rounds) i c ≡ (c, true)
  unfolding evict
  evict_fails faults rounds i c over bad = ground arith

  -- What each round keeps, the loop keeps.
  batch_keeps {κ} :
      (P : DiskLru F → Type κ) (faults : ℕ → EvictFaults) (rounds i : ℕ) (c : DiskLru F)
      (batch : List Meta)
      → ((d : DiskLru F) → P d → P (evict scale faults rounds (i + 1) d).0)
      → P (evict_batch (faults i) c batch)
      → P c
      → is_over scale c ≡ true
      → (faults i).query ≡ false
      → next_batch c ≡ batch
      → P (evict scale faults (suc rounds) i c).0
  batch_keeps P faults rounds i c [] rest next now over good e =
      subst (λ x. P x.0) (sym (evict_empty scale faults rounds i c over good e)) now
  batch_keeps P faults rounds i c (m ∷ ms) rest next now over good e =
      subst (λ x. P x.0) (sym (evict_more scale faults rounds i c m ms over good e)) (rest _ next)

  pub evict_keeps {κ} :
      (P : DiskLru F → Type κ) (faults : ℕ → EvictFaults) (rounds i : ℕ) (c : DiskLru F)
      → ((j : ℕ) (d : DiskLru F) → P d → P (evict_batch (faults j) d (next_batch d)))
      → P c
      → P (evict scale faults rounds i c).0
  evict_keeps P faults zero i c round v = unfold evict in v
  evict_keeps P faults (suc rounds) i c round v = elim (Bool-cases (is_over scale c)) [
    | inr under ↦ subst (λ x. P x.0) (sym (evict_stop scale faults rounds i c under)) v
    | inl over ↦ elim (Bool-cases (faults i).query) [
      | inl bad ↦ subst (λ x. P x.0) (sym (evict_fails faults rounds i c over bad)) v
      | inr good ↦
          batch_keeps P faults rounds i c (next_batch c)
            (λ d w. evict_keeps P faults rounds (i + 1) d round w) (round i c v) v over good refl
    ]
  ]

  evict-IsAccurate :
      (faults : ℕ → EvictFaults) (rounds i : ℕ) (c : DiskLru F)
      → IsAccurate c
      → IsAccurate (evict scale faults rounds i c).0
  evict-IsAccurate faults rounds i c = evict_keeps IsAccurate faults rounds i c (λ j d v.
      evict_batch-IsAccurate (faults j) (next_batch d) d (next_batch-IsBatchOf d v.distinct) v)

  Step-IsAccurate : {c d : DiskLru F} (s : Step c d) → IsCounted s → IsAccurate c → IsAccurate d
  unfolding set_limits
  Step-IsAccurate (look faults now key c) h v = get-IsAccurate faults now c key v
  Step-IsAccurate (store faults now w c) h v = commit-IsAccurate faults now c w h.0 h.1 v
  Step-IsAccurate (shrink faults rounds i c) h v = evict-IsAccurate faults rounds i c v
  Step-IsAccurate (limit max_bytes high_watermark c) h v = record {
    distinct = v.distinct;
    counted = v.counted;
    fits = v.fits;
  }

  Reaches-IsAccurate :
      {c d : DiskLru F} (r : Reaches c d) → AllCounted r → IsAccurate c → IsAccurate d
  Reaches-IsAccurate here h v = v
  Reaches-IsAccurate (step before s) h v = Step-IsAccurate s h.1 (Reaches-IsAccurate before h.0 v)

  -- From Open on, in whatever order the cache is read, written, evicted and given new limits, one call
  -- after the other has ended, and whichever other calls fail, its byte count is the sum over its
  -- rows, which fits an int64, and no two rows have one key. The rows that Open finds have distinct
  -- keys and a sum that fits, and in each Commit the query for the old size answers and the new sum
  -- fits.
  pub opened-IsAccurate :
      (is_ratio : F → Bool) (nine_tenths : F) (faults : OpenFaults) (evict_faults : ℕ → EvictFaults)
      (rounds : ℕ) (given : Config F) (rows : List Meta) (files : List (Text × Text))
      (c d : DiskLru F) (ended : Bool)
      → open_cache is_ratio nine_tenths scale faults evict_faults rounds given rows files
        ≡ ok (c, ended)
      → HasDistinctKeys meta_key rows
      → bytes rows < two63
      → (reaches : Reaches c d) → AllCounted reaches
      → IsAccurate d
  unfolding open_cache
  opened-IsAccurate is_ratio nine_tenths faults evict_faults rounds given rows files c d ended h
        distinct fits reaches counted =
      let (cfg, _, h1) = >>=-eq-ok (normalize_config is_ratio nine_tenths given) _ h in
      let (_, h2) = refuse-eq-ok faults.mkdir _ _ h1 in
      let (_, h3) = refuse-eq-ok faults.mkdir_tmp _ _ h2 in
      let (_, h4) = refuse-eq-ok faults.sum _ _ h3 in
      let same = ap (λ p. p.0) (ok_injective h4) in
      Reaches-IsAccurate reaches counted (
        subst IsAccurate same (
          evict-IsAccurate evict_faults rounds 0 (fresh cfg rows files)
            (record { distinct = distinct; counted = refl; fits = fits })))
