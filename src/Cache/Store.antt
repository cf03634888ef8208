-- ===== src/Cache/Store.antt =====
-- Configuration, Get, and the streaming writer of internal/cache/disklru.go. Get and Commit hold no
-- lock: each is one step here, as it runs where no other call overlaps it.
use pixiv_relay.Common.Errors.{Result, ok, err, internal, refuse, ◌>>◌}
use pixiv_relay.Prelude.Int.{ℤ, pos, add64, sub64, ltb_ℤ, leb_ℤ}
use pixiv_relay.Prelude.Table.{find, upsert, remove}
use pixiv_relay.Prelude.{
  ℕ, suc, zero, ◌+◌, ◌*◌, ◌^◌, Bool, true, false, ◌||◌, List, [], ◌∷◌, ◌++◌, Option, none, some,
  Text, codes, length, take, drop, text_beq, is_empty, if◌then◌else◌, text_eq,
}

-- `F` is float64: the code only compares such a number and scales by it.
pub record Config (F : Type 0) : Type 0 where
  pub dir : Text
  pub tmp_dir : Text
  pub max_bytes : ℤ
  pub max_file_bytes : ℤ
  pub layout : Text
  pub high_watermark : F
  pub eviction_batch : ℤ

pub record Meta : Type 0 where
  pub key : Text
  pub size : ℕ
  pub atime : ℤ
  pub created_at : ℤ
  pub content_type : Text

abbrev pub meta_key : Meta → Text
meta_key m = m.key

abbrev pub file_path : Text × Text → Text
file_path f = f.0

pub record DiskLru (F : Type 0) : Type 0 where
  pub cfg : Config F
  pub rows : List Meta
  pub files : List (Text × Text)
  pub total : ℤ
  pub max_bytes : ℤ
  pub high_watermark : F

-- SUM(size).
abbrev pub bytes : List Meta → ℕ
bytes [] = 0
bytes (m ∷ rows) = m.size + bytes rows

abbrev pub or_default : Bool → ℤ → ℤ → ℤ
or_default missing d z = if missing then d else z

-- filepath.Join of parts that hold no separator and no dots.
abbrev pub join : Text → Text → Text
join a b = a ++ b'/' ∷ b

-- Which calls of Get fail.
pub record GetFaults : Type 0 where
  pub query : Bool
  pub open_file : Bool
  pub delete_row : Bool
  pub touch : Bool

-- UPDATE cache_meta SET atime = ? WHERE key = ?
unfoldable pub touch_row : Text → ℤ → List Meta → List Meta
touch_row key now [] = []
touch_row key now (m ∷ rows) =
    (if text_beq m.key key then record m { atime = now } else m) ∷ touch_row key now rows

-- A hit is the file's content and the row as it was read.
abbrev pub Hit : Type 0
Hit = Result (Option (Text × Meta))

pub record Writer : Type 0 where
  pub key : Text
  pub content_type : Text
  pub temp : Text
  pub n : ℕ
  pub overflow : Bool
  pub failed : Bool

unfoldable pub new_writer : Text → Text → Writer
new_writer key content_type = record {
  key = key;
  content_type = content_type;
  temp = [];
  n = 0;
  overflow = false;
  failed = false;
}

-- Which calls of Commit fail; `rename i` is the i-th of five attempts.
pub record CommitFaults : Type 0 where
  pub close : Bool
  pub mkdir : Bool
  pub rename : ℕ → Bool
  pub old_size : Bool
  pub upsert_row : Bool

unfoldable pub renames : (ℕ → Bool) → ℕ → ℕ → Bool
renames fails i zero = false
renames fails i (suc left) = let rest = renames fails (i + 1) left in if fails i then rest else true

abbrev pub size_of : Option Meta → ℕ
size_of none = 0
size_of (some m) = m.size

module _ {F : Type 0} where
  unfoldable pub path_for : Config F → Text → Text
  path_for cfg key =
      if text_beq cfg.layout (codes "flat")
      then join cfg.dir key
      else join (join (join cfg.dir (take 2 key)) (take 2 (drop 2 key))) key

  -- The checks and defaults of Open.
  unfoldable pub normalize_config : (F → Bool) → F → Config F → Result (Config F)
  normalize_config is_ratio nine_tenths cfg = do
    refuse (is_empty cfg.dir) (internal (codes "cache: Dir is required"))
    let layout = if is_empty cfg.layout then codes "sharded" else cfg.layout
    refuse
        (if text_beq layout (codes "sharded")
          then false
          else if text_beq layout (codes "flat")
          then false
          else true)
        (internal (codes "cache: invalid layout"))
    ok (record {
      dir = cfg.dir;
      tmp_dir = if is_empty cfg.tmp_dir then join cfg.dir (codes "tmp") else cfg.tmp_dir;
      max_bytes = or_default (leb_ℤ cfg.max_bytes (pos 0)) (pos (20 * 2 ^ 30)) cfg.max_bytes;
      max_file_bytes =
          or_default (leb_ℤ cfg.max_file_bytes (pos 0)) (pos (50 * 2 ^ 20)) cfg.max_file_bytes;
      layout = layout;
      high_watermark = if is_ratio cfg.high_watermark then cfg.high_watermark else nine_tenths;
      eviction_batch = or_default (leb_ℤ cfg.eviction_batch (pos 0)) (pos 500) cfg.eviction_batch;
    })

  unfoldable pub drop_row : Text → ℕ → DiskLru F → DiskLru F
  drop_row key size c = record c {
    rows = remove meta_key key c.rows;
    total = sub64 c.total (pos size);
  }

  unfoldable pub get_file :
      GetFaults → ℤ → DiskLru F → Text → Meta → Option (Text × Text) → DiskLru F × Hit
  unfolding drop_row touch_row
  get_file faults now c key m none =
      ((if faults.delete_row then c else drop_row key m.size c), ok none)
  get_file faults now c key m (some f) = (
    (if faults.touch then c else record c { rows = touch_row key now c.rows }),
    ok (some (f.1, m)),
  )

  unfoldable pub get_row : GetFaults → ℤ → DiskLru F → Text → Option Meta → DiskLru F × Hit
  unfolding get_file path_for
  get_row faults now c key none = (c, ok none)
  get_row faults now c key (some m) =
      if faults.open_file
      then (c, err (internal (codes "cache: open file")))
      else get_file faults now c key m (find file_path (path_for c.cfg key) c.files)

  unfoldable pub get : GetFaults → ℤ → DiskLru F → Text → DiskLru F × Hit
  unfolding get_row
  get faults now c key =
      if faults.query
      then (c, err (internal (codes "cache: get meta")))
      else get_row faults now c key (find meta_key key c.rows)

  -- `short` is how much the disk took of the chunk, if it refused the rest.
  unfoldable pub write : Config F → Writer → Text → Option ℕ → Writer
  write cfg w p short = if w.overflow || w.failed then w else elim short [
    | some k ↦ record w { temp = w.temp ++ take k p; n = w.n + length (take k p); failed = true }
    | none ↦
        let n = w.n + length p in
        record w { temp = w.temp ++ p; n = n; overflow = ltb_ℤ cfg.max_file_bytes (pos n) }
  ]

  unfoldable pub move_file : DiskLru F → Writer → DiskLru F
  unfolding path_for
  move_file c w = record c { files = upsert file_path (path_for c.cfg w.key, w.temp) c.files }

  unfoldable pub record_row : CommitFaults → ℤ → DiskLru F → Writer → DiskLru F
  record_row faults now c w =
      let old = if faults.old_size then 0 else size_of (find meta_key w.key c.rows) in
      record c {
        rows =
            upsert meta_key
              (record {
                key = w.key;
                size = w.n;
                atime = now;
                created_at = now;
                content_type = w.content_type;
              })
              c.rows;
        total = add64 c.total (sub64 (pos w.n) (pos old));
      }

  unfoldable pub commit : CommitFaults → ℤ → DiskLru F → Writer → DiskLru F × Result Bool
  unfolding move_file record_row
  commit faults now c w =
      if w.overflow || (w.failed || faults.close)
      then (c, ok false)
      else if faults.mkdir
      then (c, err (internal (codes "cache: mkdir shard")))
      else if renames faults.rename 0 5
      then if faults.upsert_row
        then (move_file c w, err (internal (codes "cache: upsert meta")))
        else (record_row faults now (move_file c w) w, ok true)
      else (c, err (internal (codes "cache: rename")))

  -- io.Copy into the writer: the chunks, each with what the disk made of it.
  unfoldable pub copy : Config F → Writer → List (Text × Option ℕ) → Writer
  unfolding write
  copy cfg w [] = w
  copy cfg w ((p, short) ∷ chunks) = copy cfg (write cfg w p short) chunks

  -- Put: a temporary file, the copy, and the commit.
  unfoldable pub put :
      Bool
      → CommitFaults
      → ℤ
      → DiskLru F
      → Text
      → Text
      → List (Text × Option ℕ)
      → DiskLru F × Result Bool
  unfolding new_writer copy commit
  put no_temp faults now c key content_type chunks =
      if no_temp
      then (c, err (internal (codes "cache: create temp")))
      else commit faults now c (copy c.cfg (new_writer key content_type) chunks)

  -- The two stores of SetLimits. The eviction that it and Commit may start is a goroutine, a step of
  -- its own (Cache.Life.Step.shrink).
  unfoldable pub set_limits : ℤ → F → DiskLru F → DiskLru F
  set_limits max_bytes high_watermark c = record c {
    max_bytes = max_bytes;
    high_watermark = high_watermark;
  }

  -- Config with the limits in force.
  unfoldable pub config : DiskLru F → Config F
  config c = record c.cfg { max_bytes = c.max_bytes; high_watermark = c.high_watermark }

  -- Stats: the counted bytes, and the number of rows.
  unfoldable pub stats : Bool → DiskLru F → Result (ℤ × ℕ)
  stats query_fails c =
      if query_fails
      then err (internal (codes "cache: count meta"))
      else ok (c.total, length c.rows)
