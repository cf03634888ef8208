-- ===== src/App/State.antt =====
-- What the server of internal/app/app.go holds while it runs, and what a request meets outside of it.
use pixiv_relay.Admin.Accounts.{Tables}
use pixiv_relay.Admin.Settings.{SettingRow, EnvSnapshot, Key}
use pixiv_relay.Auth
use pixiv_relay.Cache.Evict.{EvictFaults}
use pixiv_relay.Cache.Store.{DiskLru, GetFaults, CommitFaults}
use pixiv_relay.Common.Limits.{Buckets, Limiter, Net}
use pixiv_relay.Common.Paging.{Base64}
use pixiv_relay.Common.Redact.{Attrs, redact_attrs}
use pixiv_relay.Crypto.{Cipher}
use pixiv_relay.Img
use pixiv_relay.Prelude.Int.{ℤ}
use pixiv_relay.Prelude.{ℕ, Bool, List, ◌∷◌, Option, Text}
use pixiv_relay.Recover.Queue.{Queue, Codec}
use pixiv_relay.Relay
use pixiv_relay.Sync.Json.{Value}
use pixiv_relay.Sync
use pixiv_relay.Web

-- `F` is float64; `R` and `B` are the rate and the bucket of golang.org/x/time/rate.
pub record State (F R B : Type 0) : Type 0 where
  pub db : Auth.Store.Db
  pub sync : Sync.Store.Service
  pub queue : Queue
  pub cache : DiskLru F
  pub flights : List Text
  pub settings : List SettingRow
  pub invites : List Text
  pub register_limiter : Limiter R B
  pub admin_limiter : Limiter R B
  pub write_limiter : Limiter R B
  pub img_limiter : Limiter R B
  pub log : List Attrs

-- The bodies that handlers decode.
pub record RegisterRequest : Type 0 where
  pub device_name : Text
  pub invite_code : Text
  pub account_key : Text

-- The JSON decoder, into each of the types; it gets the bytes and whether reading fails behind them.
pub record Decoders : Type 0 where
  pub register : Text → Bool → Option RegisterRequest
  pub refresh : Text → Bool → Option Text
  pub relay : Text → Bool → Option Relay.Service.Request
  pub push : Text → Bool → Option Sync.Store.PushRequest
  pub patch : Text → Bool → Option (List (Text × Value))

-- What stays as it was built: the configuration, and the code of others.
pub record Server (F R B Ip : Type 0) : Type 0 where
  pub buckets : Buckets F R B
  pub net : Net Ip
  pub trusted : List (Ip → Bool)
  pub tokens : Auth.Store.Middleware
  pub admin_token : Text
  pub origins : List Text
  pub relay_hosts : List Text
  pub img_hosts : List Text
  pub shared : Bool
  pub cipher : Cipher
  pub codec : Codec
  pub base64 : Base64
  pub decoders : Decoders
  pub unmarshal : Text → Option Value
  pub parse_url : Text → Option Img.Service.Url
  pub cache_key : Text → Text
  pub files : Web.Spa.Tools
  pub parse_float : Text → Option F
  -- `v <= 0 || v >= 1`, false of a NaN
  pub is_outside : F → Bool
  pub nine_tenths : F
  pub float_of_int : ℤ → F
  pub show_float : F → Text
  pub scale : F → ℤ → ℤ
  pub env : EnvSnapshot F
  pub canonical : Text → Text

-- What one request meets: the clock, random texts, and which calls fail.
pub record Oracle : Type 0 where
  pub now : ℤ
  pub ms : ℤ
  pub uptime_s : ℤ
  pub fresh_id : Text
  pub host : Text
  pub tls : Bool
  pub auth : Auth.Store.Env
  pub push : Sync.Push.Env
  pub query_runs : Bool
  pub hex : Text
  pub relay : Relay.Service.Tools
  pub get_faults : GetFaults
  pub no_temp : Bool
  pub commit_faults : CommitFaults
  pub image : Option Img.Service.Reply
  pub lookup_fails : Bool
  pub mark_fails : Bool
  pub statement_fails : ℕ → Bool
  pub read_fails : Key → Bool
  pub evict_faults : ℕ → EvictFaults
  pub rounds : ℕ

module _ {F R B : Type 0} where
  -- The tables that the administration reads and writes, wherever the model keeps them.
  abbrev pub tables_of : State F R B → Tables
  tables_of s = record {
    accounts = s.db.accounts;
    devices = s.db.devices;
    entries = s.sync.entries;
    domains = s.sync.domains;
    recover_rows = s.queue.rows;
  }

  abbrev pub with_tables : Tables → State F R B → State F R B
  with_tables t s = record s {
    db = record { accounts = t.accounts; devices = t.devices };
    sync = record s.sync { entries = t.entries; domains = t.domains };
    queue = record s.queue { rows = t.recover_rows };
  }

  -- The handler of the log blanks what is sensitive.
  abbrev pub write_log : Attrs → State F R B → State F R B
  write_log line s = record s { log = redact_attrs line ∷ s.log }
