-- ===== src/Cache/Memory.antt =====
-- The cache against a memory that may forget: what a hit returns is what was last stored.
use pixiv_relay.Cache.Files.{
  Agrees, content_of, Agrees-content_of, noted, get_keeps, commit-Agrees, evict_batch-Agrees,
  hit_stored,
}
use mathlib.Core.Path.{subst}
use pixiv_relay.Cache.Evict.{next_batch}
use pixiv_relay.Cache.Life.{Step, look, store, shrink, limit, Reaches, here, step, evict_keeps}
use pixiv_relay.Cache.Paths.{IsLong, stored_at}
use pixiv_relay.Cache.Store.{Meta, DiskLru, GetFaults, get, set_limits}
use pixiv_relay.Common.Errors.{ok}
use pixiv_relay.Prelude.Int.{ℤ}
use pixiv_relay.Prelude.{◌≡◌, ◌∙◌, sym, Option, none, some, Text, text_eq}

module _ {F : Type 0} (scale : F → ℤ → ℤ) (key : Text) where
  -- The memory of the key: what the last Commit that put a file in place for it put there, or what the
  -- cache had at the start.
  abbrev pub note : {c d : DiskLru F} → Step scale c d → Option Text → Option Text
  note (look faults now k c) m = m
  note (store faults now w c) m = noted key faults w m
  note (shrink faults rounds i c) m = m
  note (limit max_bytes high_watermark c) m = m

  abbrev pub recall : {c d : DiskLru F} → Reaches scale c d → Option Text
  recall {c} here = content_of (stored_at key c)
  recall (step before s) = note s (recall before)

  -- The keys of the Commits are long enough.
  abbrev pub IsLongStep : {c d : DiskLru F} → Step scale c d → Type 0
  IsLongStep (look faults now k c) = Unit
  IsLongStep (store faults now w c) = IsLong w.key
  IsLongStep (shrink faults rounds i c) = Unit
  IsLongStep (limit max_bytes high_watermark c) = Unit

  abbrev pub AllLong : {c d : DiskLru F} → Reaches scale c d → Type 0
  AllLong here = Unit
  AllLong (step before s) = AllLong before × IsLongStep s

  note-Agrees :
      {c d : DiskLru F} (s : Step scale c d) (m : Option Text)
      → IsLong key
      → IsLongStep s
      → Agrees (stored_at key c) m
      → Agrees (stored_at key d) (note s m)
  unfolding set_limits
  note-Agrees (look faults now k c) m hk h v =
      subst (λ o. Agrees o m) (sym (get_keeps key faults now c k)) v
  note-Agrees (store faults now w c) m hk h v = commit-Agrees key faults now c w m hk h v
  note-Agrees (shrink faults rounds i c) m hk h v =
      evict_keeps scale (λ d. Agrees (stored_at key d) m) faults rounds i c
        (λ j d w. evict_batch-Agrees key (faults j) (next_batch d) d m w) v
  note-Agrees (limit max_bytes high_watermark c) m hk h v = v

  recall-Agrees :
      {c d : DiskLru F} (r : Reaches scale c d)
      → IsLong key
      → AllLong r
      → Agrees (stored_at key d) (recall r)
  recall-Agrees {c} here hk h = Agrees-content_of (stored_at key c)
  recall-Agrees (step before s) hk h =
      note-Agrees s (recall before) hk h.1 (recall-Agrees before hk h.0)

  -- The cache is a memory of one content per key that may forget: however reads, writes, evictions and
  -- new limits followed one another, and whichever calls failed, a hit returns what the last Commit
  -- that put a file in place for the key put there, or what the cache had for it at the start. Keys
  -- have four characters at least.
  pub get-recall :
      {c d : DiskLru F} (r : Reaches scale c d) (faults : GetFaults) (now : ℤ) (content : Text)
      (m : Meta)
      → IsLong key
      → AllLong r
      → (get faults now d key).1 ≡ ok (some (content, m))
      → recall r ≡ some content
  get-recall {d = d} r faults now content m hk h hit =
      remembered (stored_at key d) (recall-Agrees r hk h)
        (hit_stored faults now d key content m hit)
    where
      remembered :
          (o : Option (Text × Text))
          → Agrees o (recall r)
          → content_of o ≡ some content
          → recall r ≡ some content
      remembered none v e = absurd (cc e)
      remembered (some f) v e = v ∙ e
