-- ===== src/App/Examples.antt =====
-- The theorems on the server, applied to one with a row of account 2, a static token of account 1 and
-- a token for the operator.
mod Boot
use pixiv_relay.App.Apart.{Apart, serve-Apart}
use pixiv_relay.App.Envelope.{named_origin, serve_headers}
use pixiv_relay.App.Expected.{expected_id, NamesOrigin}
use pixiv_relay.App.Gate.{SameData, serve-SameData}
use pixiv_relay.App.Mux.{serve}
use pixiv_relay.App.Operator.{is_operator}
use pixiv_relay.App.State.{State, Server, Oracle, Decoders}
use pixiv_relay.App.Start.{Disk, Meets, start, cache_config, new_middleware}
use pixiv_relay.App.Boot.{Works, start-Succeeds}
use pixiv_relay.App.Ready.{IsReady}
use pixiv_relay.Admin.Texts.{trim_space}
use pixiv_relay.Cache
use pixiv_relay.Cache.Rounds.{IsQuiet}
use pixiv_relay.Cache.Store.{normalize_config}
use pixiv_relay.Crypto.Aead.{load_key}
use pixiv_relay.Config.{Host, load}
use pixiv_relay.App.Steps.{authorization}
use pixiv_relay.Auth.Store.{Identity, wrap, Middleware}
use pixiv_relay.Cache.Evict.{removed}
use pixiv_relay.Cache.Store.{DiskLru}
use pixiv_relay.Common.Errors.{ok, err, unauthorized}
use pixiv_relay.Common.Http.{Request, Header, get_header, id_of, request_id_header}
use pixiv_relay.Common.Limits.{Buckets, Limiter, Net}
use pixiv_relay.Crypto.{no_cipher}
use pixiv_relay.Prelude.Int.{pos}
use pixiv_relay.Prelude.Table.{HasDistinctKeys}
use pixiv_relay.Prelude.{
  ℕ, suc, ◌≡◌, ◌≢◌, refl, Bool, true, false, List, [], ◌∷◌, ◌++◌, if◌then◌else◌, text_beq, ltb,
  Option, none, some, Text, codes, arith, text_eq, nat_eq, pair_eq,
}
use pixiv_relay.Recover.Queue.{Codec}
use pixiv_relay.Relay
use pixiv_relay.Sync
use pixiv_relay.Sync.Json.{obj, end}
use pixiv_relay.Sync.Store.{Entry, entry_key, PushRequest}
use pixiv_relay.Web.Cors.{allow_origin}
use pixiv_relay.Web.Spa.{Tools}

-- Floats, rates and buckets are numbers here, and an address is a text.
abbrev buckets : Buckets ℕ ℕ ℕ
buckets = record {
  per_second = λ n. n;
  fresh = λ rate burst. burst;
  allow = λ n now. (n, true);
  set = λ rate burst n. n;
  seconds = λ rate. pos 1;
}

abbrev net : Net Text
net = record { split_host = some; parse_ip = some; is_loopback = λ ip. false; trim_space = λ t. t }

abbrev codec : Codec
codec = record {
  cipher = no_cipher;
  unmarshal = λ t. some (obj end);
  to_int = λ t. pos 0;
  show_pages = λ pages. [];
  read_pages = λ t. some [];
  show_meta = λ m. [];
  read_meta = λ t. [];
}

abbrev pushed : PushRequest
pushed = record {
  domain = codes "mute";
  base_token = [];
  items = record { key = codes "a"; raw = codes "{}"; updated_at = pos 50; deleted = false } ∷ [];
}

abbrev decoders : Decoders
decoders = record {
  register = λ t fails. none;
  refresh = λ t fails. none;
  relay = λ t fails. none;
  push = λ t fails. some pushed;
  patch = λ t fails. none;
}

abbrev files : Tools
files = record {
  open_file = λ name. none;
  clean = λ path. path;
  ext = λ path. [];
  type_by_extension = λ ext. [];
}

abbrev server : Server ℕ ℕ ℕ Text
server = record {
  buckets = buckets;
  net = net;
  trusted = [];
  tokens = record { static_tokens = codes "tok" ∷ []; static_account_id = 1 };
  admin_token = codes "adm";
  origins = codes "https://app" ∷ [];
  relay_hosts = [];
  img_hosts = [];
  shared = false;
  cipher = no_cipher;
  codec = codec;
  base64 = record { encode = λ t. t; decode = some };
  decoders = decoders;
  unmarshal = λ t. some (obj end);
  parse_url = λ t. none;
  cache_key = λ t. t;
  files = files;
  parse_float = λ t. none;
  is_outside = λ n. false;
  nine_tenths = 9;
  float_of_int = λ n. 0;
  show_float = λ n. [];
  scale = λ n z. z;
  env = λ key. none;
  canonical = λ path. path;
}

abbrev oracle : Oracle
oracle = record {
  now = pos 100;
  ms = pos 3;
  uptime_s = pos 9;
  fresh_id = codes "100_ab";
  host = codes "relay";
  tls = false;
  auth = record {
    now = pos 100;
    draw = λ i. some (codes "x");
    hash = λ t. t;
    fails = λ statement. false;
  };
  push = record { now = pos 100; hex = codes "0a1b2c"; cipher = no_cipher; fails = λ st. false };
  query_runs = true;
  hex = codes "0a1b2c";
  relay = record {
    parse_url = λ t. none;
    decode = some;
    encode = λ t. t;
    builds = λ method url. true;
    upstream = λ up. Relay.Service.unreachable;
  };
  get_faults = record { query = false; open_file = false; delete_row = false; touch = false };
  no_temp = false;
  commit_faults = record {
    close = false;
    mkdir = false;
    rename = λ i. false;
    old_size = false;
    upsert_row = false;
  };
  image = none;
  lookup_fails = false;
  mark_fails = false;
  statement_fails = λ i. false;
  read_fails = λ key. false;
  evict_faults = λ i. record { query = false; remove_file = λ k. removed; delete_row = λ k. false };
  rounds = 3;
}

abbrev limiter : Limiter ℕ ℕ
limiter = record { buckets = []; rate = 1; burst = 5; ttl = pos 600000 }

abbrev cache : DiskLru ℕ
cache = record {
  cfg = record {
    dir = codes "c";
    tmp_dir = codes "t";
    max_bytes = pos 100;
    max_file_bytes = pos 50;
    layout = codes "flat";
    high_watermark = 9;
    eviction_batch = pos 5;
  };
  rows = [];
  files = [];
  total = pos 0;
  max_bytes = pos 100;
  high_watermark = 9;
}

abbrev row : Entry
row = record {
  account = 2;
  domain = codes "mute";
  key = codes "a";
  data_text = codes "{}";
  updated_at = pos 10;
  deleted = false;
  seq = pos 5;
}

abbrev state : State ℕ ℕ ℕ
state = record {
  db = record { accounts = []; devices = [] };
  sync = record { entries = row ∷ []; domains = []; tokens = [] };
  queue = record {
    rows = [];
    inflight = [];
    working = [];
    done = [];
    ttl = pos 100;
    negative_ttl = pos 10;
  };
  cache = cache;
  flights = [];
  settings = [];
  invites = [];
  register_limiter = limiter;
  admin_limiter = limiter;
  write_limiter = limiter;
  img_limiter = limiter;
  log = [];
}

abbrev request : Text → Text → List Header → Request
request method path headers = record {
  method = method;
  path = path;
  query = [];
  headers = headers;
  body = codes "{}";
  remote = codes "203.0.113.9";
  request_id = [];
  account = none;
}

abbrev nameless : Request
nameless = request (codes "POST") (codes "/sync/v1/push") []

no_token :
    wrap server.tokens oracle.auth state.db (authorization nameless)
    ≡ err (unauthorized (codes "missing bearer token"))
unfolding wrap pixiv_relay.Prelude.cut get_header pixiv_relay.Prelude.Table.find
no_token = refl

no_operator : is_operator server.admin_token (authorization nameless) ≡ false
unfolding is_operator pixiv_relay.Prelude.cut get_header pixiv_relay.Prelude.Table.find
no_operator = refl

serve-SameData_example : SameData state (serve server oracle nameless [] state).0
serve-SameData_example = serve-SameData server oracle nameless [] state no_token no_operator

abbrev client_push : Request
client_push =
    request (codes "POST") (codes "/sync/v1/push")
      ((codes "Authorization", codes "Bearer tok") ∷ [])

abbrev client : Identity
client = record { account_id = 1; device_id = 0 }

known : wrap server.tokens oracle.auth state.db (authorization client_push) ≡ ok client
unfolding wrap pixiv_relay.Prelude.cut get_header pixiv_relay.Prelude.Table.find
    pixiv_relay.Prelude.equal_fold
known = refl

foreign : is_operator server.admin_token (authorization client_push) ≡ false
unfolding is_operator pixiv_relay.Prelude.cut get_header pixiv_relay.Prelude.Table.find
    pixiv_relay.Prelude.equal_fold
foreign = refl

answered : (serve server oracle client_push [] state).1.status ≡ 200
unfolding serve pixiv_relay.Prelude.Table.find pixiv_relay.App.Member.push_route
    pixiv_relay.App.Member.authenticated pixiv_relay.Prelude.cut pixiv_relay.Prelude.equal_fold
    pixiv_relay.App.Member.write_limited pixiv_relay.App.Member.push_handler
    pixiv_relay.Sync.Store.valid_domain pixiv_relay.Sync.Json.contains_sensitive_field
    pixiv_relay.App.Payloads.push_payload
answered = refl

abbrev other : ℕ
other = 2

other-ne-client : other ≢ client.account_id
other-ne-client e = absurd (omega arith)

serve-Apart_example :
    Apart server oracle other
      (codes "mute")
      (codes "a")
      state
      (serve server oracle client_push [] state).0
serve-Apart_example =
    serve-Apart server oracle other (codes "mute") (codes "a") client_push [] state client known
      foreign (tt, tt) other-ne-client

abbrev cross : Request
cross = request (codes "GET") (codes "/healthz") ((codes "Origin", codes "https://app") ∷ [])

names_origin : named_origin server oracle cross ≡ codes "https://app"
unfolding named_origin pixiv_relay.Web.Cors.is_cross_origin pixiv_relay.Prelude.Table.find
    pixiv_relay.Prelude.has_prefix
names_origin = refl

serve_headers_example :
    (get_header request_id_header (serve server oracle cross [] state).1.headers
      ≡ expected_id oracle.fresh_id cross)
    × NamesOrigin server.origins cross
        (get_header allow_origin (serve server oracle cross [] state).1.headers)
serve_headers_example = serve_headers server oracle cross state
