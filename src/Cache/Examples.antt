-- ===== src/Cache/Examples.antt =====
-- The theorems on internal/cache, applied to one small cache of two files.
use pixiv_relay.Cache.Accounts.{IsAccurate}
use pixiv_relay.Cache.Life.{look, store, here, step, opened-IsAccurate}
use pixiv_relay.Cache.Memory.{recall, get-recall}
use pixiv_relay.Cache.Open.{OpenFaults, open_cache}
use pixiv_relay.Cache.Ends.{evict_never_ends, evict-Finishes, Finishes}
use pixiv_relay.Cache.Evict.{EvictFaults, removed, busy, evict_batch, next_batch, evict}
use pixiv_relay.Cache.Lookup.{get-put, quiet_get, received}
use pixiv_relay.Cache.Lru.{kept-is-recent}
use pixiv_relay.Cache.Races.{get-get_race}
use pixiv_relay.Cache.Rounds.{IsQuiet}
use pixiv_relay.Cache.Store.{
  DiskLru, Config, Meta, meta_key, path_for, get, get_row, bytes, put, commit, GetFaults,
  CommitFaults, Writer,
}
use pixiv_relay.Common.Errors.{ok}
use pixiv_relay.Prelude.Int.{ℤ, pos, sub64, pos_part, ◌≤ℤ◌}
use pixiv_relay.Prelude.Table.{find, HasDistinctKeys}
use pixiv_relay.Prelude.{
  ℕ, suc, ◌+◌, ◌*◌, ◌/◌, ◌<◌, ◌≡◌, ◌≢◌, refl, Bool, true, false, List, [], ◌∷◌, Option, none, some,
  arith, Text, codes, text_eq, text_beq_iff, length, All, ap,
}

-- A float64 stands as a number of tenths.
abbrev scale : ℕ → ℤ → ℤ
scale h n = pos (pos_part n * h / 10)

abbrev key_a : Text
key_a = codes "aaaa"

abbrev key_b : Text
key_b = codes "bbbb"

abbrev meta : Text → ℕ → ℤ → Meta
meta k size atime = record {
  key = k;
  size = size;
  atime = atime;
  created_at = pos 1;
  content_type = codes "image/png";
}

abbrev settings : ℤ → Config ℕ
settings batch = record {
  dir = codes "c";
  tmp_dir = codes "t";
  max_bytes = pos 10;
  max_file_bytes = pos 8;
  layout = codes "sharded";
  high_watermark = 9;
  eviction_batch = batch;
}

abbrev cache : ℤ → DiskLru ℕ
cache batch = record {
  cfg = settings batch;
  rows = meta key_a 6 (pos 20) ∷ meta key_b 5 (pos 10) ∷ [];
  files =
      (path_for (settings batch) key_a, codes "123456")
      ∷ (path_for (settings batch) key_b, codes "12345")
      ∷ [];
  total = pos 11;
  max_bytes = pos 10;
  high_watermark = 9;
}

a-ne-b : key_b ≢ key_a
a-ne-b e = let same : false ≡ true = (text_beq_iff key_b key_a).1 e in absurd (cc same)

distinct : (batch : ℤ) → HasDistinctKeys meta_key (cache batch).rows
distinct batch = ((a-ne-b, tt), (tt, tt))

abbrev quiet : EvictFaults
quiet = record { query = false; remove_file = λ k. removed; delete_row = λ k. false }

abbrev blocked : EvictFaults
blocked = record { query = false; remove_file = λ k. busy; delete_row = λ k. false }

quiet-IsQuiet : IsQuiet quiet
quiet-IsQuiet = record { answers = refl; removes = λ k. refl; deletes = λ k. refl }

abbrev get_fails : GetFaults
get_fails = record { query = false; open_file = false; delete_row = true; touch = true }

abbrev no_faults : CommitFaults
no_faults = record {
  close = false;
  mkdir = false;
  rename = λ i. false;
  old_size = false;
  upsert_row = false;
}

abbrev writer : Writer
writer = record {
  key = key_a;
  content_type = codes "image/png";
  temp = codes "1234";
  n = 4;
  overflow = false;
  failed = false;
}

abbrev opened : DiskLru ℕ
opened = record (cache (pos 1)) {
  rows = meta key_a 6 (pos 20) ∷ [];
  files = (path_for (settings (pos 1)) key_a, codes "123456") ∷ [];
  total = pos 6;
}

abbrev open_works : OpenFaults
open_works = record { mkdir = false; mkdir_tmp = false; sum = false }

opens :
    open_cache
      (λ h. true)
      9
      scale
      open_works
      (λ i. quiet)
      5
      (settings (pos 1))
      (cache (pos 1)).rows
      (cache (pos 1)).files
    ≡ ok (opened, true)
unfolding open_cache next_batch pixiv_relay.Prelude.Sorting.order_by evict_batch
    pixiv_relay.Prelude.Int.sub64 pixiv_relay.Prelude.Table.remove
opens = refl

opened-IsAccurate_example :
    IsAccurate (get get_fails (pos 31) (commit no_faults (pos 30) opened writer).0 key_a).0
opened-IsAccurate_example =
    opened-IsAccurate scale (λ h. true) 9 open_works (λ i. quiet) 5 (settings (pos 1))
      (cache (pos 1)).rows (cache (pos 1)).files opened
      (get get_fails (pos 31) (commit no_faults (pos 30) opened writer).0 key_a).0 true opens
      (distinct (pos 1)) (omega arith)
      (step (step here (store no_faults (pos 30) writer opened))
        (look get_fails (pos 31) key_a (commit no_faults (pos 30) opened writer).0))
      ((tt, (refl, omega arith)), tt)

abbrev get_works : GetFaults
get_works = record { query = false; open_file = false; delete_row = false; touch = false }

-- The row of key_a without its file.
abbrev drifted : DiskLru ℕ
drifted = record opened { files = [] }

drifted-IsAccurate : IsAccurate drifted
drifted-IsAccurate = record { distinct = (tt, tt); counted = refl; fits = omega arith }

get-get_race_example :
    let after =
      (get_row get_works
        (pos 32)
        (get get_works (pos 31) drifted key_a).0
        key_a
        (some (meta key_a 6 (pos 20)))).0 in
    (bytes after.rows + 6 ≡ 6) × (after.total ≡ sub64 (pos (bytes after.rows)) (pos 6))
unfolding find
get-get_race_example =
    get-get_race get_works get_works (pos 31) (pos 32) drifted key_a (meta key_a 6 (pos 20))
      drifted-IsAccurate refl refl refl refl refl refl refl

oldest : next_batch (cache (pos 1)) ≡ meta key_b 5 (pos 10) ∷ []
unfolding next_batch pixiv_relay.Prelude.Sorting.order_by
oldest = refl

kept :
    find meta_key key_a (evict_batch quiet (cache (pos 1)) (next_batch (cache (pos 1)))).rows
    ≡ some (meta key_a 6 (pos 20))
unfolding evict_batch next_batch find pixiv_relay.Prelude.Sorting.order_by
    pixiv_relay.Prelude.Table.remove
kept = refl

kept-is-recent_example :
    (find meta_key key_a (cache (pos 1)).rows ≡ some (meta key_a 6 (pos 20)))
    × All (λ m. meta_key m ≢ key_a) (next_batch (cache (pos 1)))
    × All (λ m. m.atime ≤ℤ pos 20) (next_batch (cache (pos 1)))
kept-is-recent_example =
    kept-is-recent quiet (cache (pos 1)) key_a (meta key_a 6 (pos 20)) quiet-IsQuiet kept

evict-Finishes_example :
    Finishes scale (λ j. quiet) (λ j. quiet-IsQuiet) (evict scale (λ j. quiet) 3 0 (cache (pos 1)))
evict-Finishes_example =
    evict-Finishes scale (λ j. quiet) (λ j. quiet-IsQuiet) 3 0 (cache (pos 1)) (distinct (pos 1))
      (omega arith) (omega arith)

evict_never_ends_example : evict scale (λ j. blocked) 7 0 (cache (pos 1)) ≡ (cache (pos 1), false)
evict_never_ends_example =
    evict_never_ends scale (λ j. blocked) 7 0 (cache (pos 1)) (meta key_b 5 (pos 10)) [] oldest refl
      (λ j. refl) (λ j. (refl, tt))

abbrev chunks : List (Text × Option ℕ)
chunks = (codes "12", none) ∷ (codes "345", none) ∷ []

put_stores :
    put false no_faults (pos 30) (cache (pos 1)) key_a (codes "image/png") chunks
    ≡ ((put false no_faults (pos 30) (cache (pos 1)) key_a (codes "image/png") chunks).0, ok true)
unfolding put pixiv_relay.Cache.Store.renames
put_stores = refl

get-put_example :
    (m : Meta) × ((get quiet_get
        (pos 40)
        (put false no_faults (pos 30) (cache (pos 1)) key_a (codes "image/png") chunks).0
        key_a).1
      ≡ ok (some (received chunks, m)))
    × (m.size ≡ length (received chunks))
    × (m.content_type ≡ codes "image/png")
get-put_example =
    get-put false no_faults (pos 30) (pos 40) (cache (pos 1))
      (put false no_faults (pos 30) (cache (pos 1)) key_a (codes "image/png") chunks).0 key_a
      (codes "image/png") chunks put_stores

abbrev rewritten : DiskLru ℕ
rewritten = (commit no_faults (pos 30) opened writer).0

rewritten_hit :
    (get quiet_get (pos 31) rewritten key_a).1
    ≡ ok (some (codes "1234", record (meta key_a 4 (pos 30)) { created_at = pos 30 }))
unfolding get find commit pixiv_relay.Cache.Store.renames pixiv_relay.Prelude.Table.upsert
rewritten_hit = refl

get-recall_example :
    recall scale key_a (step here (store no_faults (pos 30) writer opened)) ≡ some (codes "1234")
get-recall_example =
    get-recall scale key_a (step here (store no_faults (pos 30) writer opened)) quiet_get (pos 31)
      (codes "1234") (record (meta key_a 4 (pos 30)) { created_at = pos 30 }) (omega arith)
      (tt, omega arith) rewritten_hit
