-- ===== src/Recover/Queue.antt =====
-- internal/recover: the rows of migration 0004, the queue of queue.go and lookup of service.go.
use pixiv_relay.Common.Errors.{Result, ok, err, internal, refuse, ◌>>=◌, ◌>>◌}
use pixiv_relay.Crypto.{Cipher}
use pixiv_relay.Prelude.Decimal.{show_ℕ}
use pixiv_relay.Prelude.Int.{ℤ, pos, add64, ltb_ℤ, leb_ℤ}
use pixiv_relay.Prelude.Table.{find, upsert}
use pixiv_relay.Prelude.{
  ℕ, ◌*◌, Bool, true, false, ◌&&◌, ◌||◌, not, List, [], ◌∷◌, ◌++◌, Option, none, some, Text, codes,
  text_beq, any, keep, if◌then◌else◌, text_eq, nat_eq, pair_eq,
}
use pixiv_relay.Recover.Sources.{Page, Snapshot, Fetched, found, failed}
use pixiv_relay.Sync.Json.{Value, null, num, str, arr, obj, Items, nil, cons, Fields, end, field}
use pixiv_relay.Sync.Store.{Entry, entry_key, bookmark_snapshot}

pub data Status : Type 0 where
  ready fetching not_found : Status

pub record Row : Type 0 where
  pub account : ℕ
  pub pid : Text
  pub pages : Text
  pub source : Text
  pub meta : Text
  pub status : Status
  pub expire : ℤ

-- PRIMARY KEY (account_id, pid)
abbrev pub row_key : Row → ℕ × Text
row_key r = (r.account, r.pid)

pub record Job : Type 0 where
  pub account : ℕ
  pub pid : Text
  pub key : Text

-- `working` are the goroutines that have not yet written, `done` those that have, but have not yet
-- left `inflight`.
pub record Queue : Type 0 where
  pub rows : List Row
  pub inflight : List Text
  pub working : List Job
  pub done : List Job
  pub ttl : ℤ
  pub negative_ttl : ℤ

-- 15 minutes in milliseconds.
abbrev pub fetching_guard : ℤ
fetching_guard = pos (15 * 60 * 1000)

abbrev pub day_ms : ℤ
day_ms = pos (24 * 3600 * 1000)

unfoldable pub job_key : ℕ → Text → Text
job_key account pid = show_ℕ account ++ b'/' ∷ pid

abbrev pub marked : ℕ → Text → ℤ → Option Row → Row
marked account pid expire none = record {
  account = account;
  pid = pid;
  pages = codes "[]";
  source = [];
  meta = codes "{}";
  status = fetching;
  expire = expire;
}
marked account pid expire (some old) = record old { status = fetching; expire = expire }

-- INSERT … ON CONFLICT DO UPDATE SET status, expire: the pages of an older row stay.
unfoldable pub mark_fetching : ℕ → Text → ℤ → List Row → List Row
mark_fetching account pid expire rows =
    upsert row_key (marked account pid expire (find row_key (account, pid) rows)) rows

-- Enqueue; `fails` says whether the statement does, which is only logged.
unfoldable pub enqueue : Bool → ℤ → ℕ → Text → Queue → Queue
unfolding job_key mark_fetching
enqueue fails now account pid q =
    let key = job_key account pid in
    if any (λ k. text_beq k key) q.inflight then q else record q {
      inflight = key ∷ q.inflight;
      working = record { account = account; pid = pid; key = key } ∷ q.working;
      rows = if fails then q.rows else mark_fetching account pid (add64 now fetching_guard) q.rows;
    }

unfoldable pub set_ttls : ℤ → ℤ → Queue → Queue
set_ttls ttl negative q = record q { ttl = ttl; negative_ttl = negative }

-- A source, with the world's state threaded through its calls.
pub record Source (C : Type 0) : Type 0 where
  pub name : Text
  pub fetch : C → Text → Option (Snapshot Value) → C × Fetched (List Page)

-- The loop of work over the sources: the pages of the first that has them, and its name.
unfoldable pub try_sources :
    {C : Type 0}
    → List (Source C)
    → C
    → Text
    → Option (Snapshot Value)
    → C × Option (List Page × Text)
try_sources [] c pid snap = (c, none)
try_sources (s ∷ sources) c pid snap =
    let (c', r) = s.fetch c pid snap in
    elim r [ failed f ↦ try_sources sources c' pid snap | found pages ↦ (c', some (pages, s.name)) ]

abbrev pub strings : Items → List Text
strings nil = []
strings (cons (str s) es) = s ∷ strings es
strings (cons _ es) = strings es

abbrev pub urls_of : Value → List Text
urls_of (arr es) = strings es
urls_of _ = []

-- `to_int` is the conversion of a JSON number to int.
abbrev pub json_int : (Text → ℤ) → Value → ℤ
json_int to_int (num n) = to_int n
json_int to_int _ = pos 0

abbrev pub empty_snapshot : Snapshot Value
empty_snapshot = record { image_urls = []; width = pos 0; height = pos 0; meta = [] }

-- The loop of loadSnapshot over the fields.
unfoldable pub read_fields : (Text → ℤ) → Fields → Snapshot Value
read_fields to_int end = empty_snapshot
read_fields to_int (field k v fs) =
    let rest = read_fields to_int fs in
    if text_beq k (codes "imageUrls")
    then record rest { image_urls = urls_of v }
    else if text_beq k (codes "width")
    then record rest { width = json_int to_int v }
    else if text_beq k (codes "height")
    then record rest { height = json_int to_int v }
    else record rest { meta = (k, v) ∷ rest.meta }

abbrev pub snapshot_of : (Text → ℤ) → Option Value → Option (Snapshot Value)
snapshot_of to_int (some (obj fs)) = some (read_fields to_int fs)
snapshot_of to_int (some null) = some empty_snapshot
snapshot_of to_int _ = none

-- What the code asks of encryption and JSON.
pub record Codec : Type 0 where
  pub cipher : Cipher
  pub unmarshal : Text → Option Value
  pub to_int : Text → ℤ
  pub show_pages : List Page → Text
  pub read_pages : Text → Option (List Page)
  pub show_meta : List (Text × Value) → Text
  pub read_meta : Text → List (Text × Value)

abbrev pub without : Text → List Job → List Job
without key = keep (λ j. not (text_beq j.key key))

-- The deferred removal of the key.
unfoldable pub release : Job → Queue → Queue
release j q = record q {
  inflight = keep (λ k. not (text_beq k j.key)) q.inflight;
  done = without j.key q.done;
}

abbrev pub is_live : ℤ → Row → Bool
is_live now r = elim r.status [ fetching ↦ false | _ ↦ ltb_ℤ now r.expire ]

abbrev pub if_live : ℤ → Option Row → Option Row
if_live now none = none
if_live now (some r) = if is_live now r then some r else none

abbrev pub is_ready : Row → Bool
is_ready r = elim r.status [ ready ↦ true | _ ↦ false ]

-- ORDER BY CASE status WHEN 'ready' THEN 0 ELSE 1 END, expire DESC
abbrev pub comes_first : Row → Row → Bool
comes_first r s =
    if is_ready r
    then not (is_ready s) || leb_ℤ s.expire r.expire
    else not (is_ready s) && leb_ℤ s.expire r.expire

unfoldable pub best_row : List Row → Option Row
best_row [] = none
best_row (r ∷ rows) = elim (best_row rows) [
  | none ↦ some r
  | some s ↦ if comes_first r s then some r else some s
]

unfoldable pub find_row : Bool → ℤ → ℕ → Text → List Row → Option Row
unfolding best_row
find_row shared now account pid rows =
    if shared
    then best_row (keep (λ r. text_beq r.pid pid && is_live now r) rows)
    else if_live now (find row_key (account, pid) rows)

pub record CacheRow : Type 0 where
  pub status : Status
  pub pages : List Page
  pub source : Text
  pub meta : List (Text × Value)

abbrev pub or_internal {ℓ} : {A : Type ℓ} → Text → Option A → Result A
or_internal msg none = err (internal msg)
or_internal msg (some a) = ok a

module _ (codec : Codec) where
  abbrev pub open_snapshot : Option Entry → Option (Snapshot Value)
  open_snapshot none = none
  open_snapshot (some e) = if e.deleted then none else elim (codec.cipher.decrypt e.data_text) [
    | none ↦ none
    | some plain ↦ snapshot_of codec.to_int (codec.unmarshal plain)
  ]

  unfoldable pub load_snapshot : Bool → List Entry → ℕ → Text → Option (Snapshot Value)
  load_snapshot fails entries account pid =
      if fails
      then none
      else open_snapshot (find entry_key (account, (bookmark_snapshot, pid)) entries)

  abbrev pub snapshot_meta : Option (Snapshot Value) → List (Text × Value)
  snapshot_meta none = []
  snapshot_meta (some snap) = snap.meta

  -- The row that writeResult or writeStatus writes at the end of work.
  unfoldable pub result_row :
      Queue → ℤ → Job → Option (Snapshot Value) → Option (List Page × Text) → Row
  result_row q now j snap none = record {
    account = j.account;
    pid = j.pid;
    pages = codes "[]";
    source = [];
    meta = codes "{}";
    status = not_found;
    expire = add64 now q.negative_ttl;
  }
  result_row q now j snap (some (pages, source)) = record {
    account = j.account;
    pid = j.pid;
    pages = codec.cipher.encrypt 0 (codec.show_pages pages);
    source = source;
    meta = codec.cipher.encrypt 1 (codec.show_meta (snapshot_meta snap));
    status = ready;
    expire = add64 now q.ttl;
  }

  -- The end of work: the result is written, unless the statement fails, which is only logged.
  unfoldable pub write_result :
      Bool → ℤ → Job → Option (Snapshot Value) → Option (List Page × Text) → Queue → Queue
  unfolding result_row
  write_result fails now j snap result q = record q {
    rows = if fails then q.rows else upsert row_key (result_row q now j snap result) q.rows;
    working = without j.key q.working;
    done = j ∷ q.done;
  }

  unfoldable pub open_row : Option Row → Result (Option CacheRow)
  open_row none = ok none
  open_row (some r) = do
    pages_text ← or_internal (codes "recover: decrypt pages") (codec.cipher.decrypt r.pages)
    meta_text ← or_internal (codes "recover: decrypt meta") (codec.cipher.decrypt r.meta)
    pages ← or_internal (codes "recover: parse pages") (codec.read_pages pages_text)
    ok (
        some (record {
          status = r.status;
          pages = pages;
          source = r.source;
          meta = codec.read_meta meta_text;
        }))

  unfoldable pub lookup : Bool → Bool → ℤ → ℕ → Text → List Row → Result (Option CacheRow)
  lookup fails shared now account pid rows = do
    refuse fails (internal (codes "recover: lookup"))
    open_row (find_row shared now account pid rows)
