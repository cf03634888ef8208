-- ===== src/Img/Examples.antt =====
-- The theorems on internal/img, applied to an empty cache and a download that broke off.
use pixiv_relay.Cache.Store.{Config, DiskLru, CommitFaults, put}
use pixiv_relay.Img.Service.{Reply}
use pixiv_relay.Prelude.Int.{pos}
use pixiv_relay.Prelude.{ℕ, false, [], ◌∷◌, none, some, codes}

abbrev cache : DiskLru ℕ
cache = record {
  cfg = record {
    dir = codes "c";
    tmp_dir = codes "t";
    max_bytes = pos 100;
    max_file_bytes = pos 50;
    layout = codes "flat";
    high_watermark = 9;
    eviction_batch = pos 5;
  };
  rows = [];
  files = [];
  total = pos 0;
  max_bytes = pos 100;
  high_watermark = 9;
}

abbrev no_faults : CommitFaults
no_faults = record {
  close = false;
  mkdir = false;
  rename = λ i. false;
  old_size = false;
  upsert_row = false;
}

-- Of an image of 9 bytes, 3 came, of which the client took 2 before it went away.
abbrev broken_off : Reply
broken_off = record {
  status = 200;
  content_type = codes "image/png";
  length_header = codes "9";
  cache_control = [];
  content_length = pos 9;
  chunks = (codes "abc", none) ∷ [];
  gone_at = some (0, 2);
}

abbrev after : DiskLru ℕ
after = (put false no_faults (pos 1) cache (codes "k") (codes "image/png") broken_off.chunks).0
