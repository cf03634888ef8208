-- ===== src/App/Desk.antt =====
-- internal/admin/routes.go, less the settings: the reports, the cache, the accounts and the devices.
use pixiv_relay.Admin.Accounts.{
  AccountItem, Tables, Statement, begin, devices, entries, domains, recover_rows, accounts, commit,
  delete_account, delete_device, list_accounts, list_devices,
}
use pixiv_relay.Admin.Reports.{
  overview, cache_stats, evict_cache, OverviewReport, StatsReport, EvictReport,
}
use pixiv_relay.App.Payloads.{account_payload, devices_payload, settings_payload, natural, integer}
use pixiv_relay.App.State.{State, Server, Oracle, tables_of, with_tables}
use pixiv_relay.Auth.Store.{Device}
use pixiv_relay.Common.Errors.{Result, ok, err, bad_request, ◌>>=◌}
use pixiv_relay.Common.Http.{
  Request, Response, Header, waits, Handler, get_header, object, respond_error, respond,
}
use pixiv_relay.Common.Paging.{parse_limit}
use pixiv_relay.Prelude.Decimal.{parse_int}
use pixiv_relay.Prelude.Int.{ℤ, pos_part}
use pixiv_relay.Prelude.{ℕ, true, List, [], ◌∷◌, Option, none, some, Text, codes}
use pixiv_relay.Recover.Queue.{Status, ready, fetching, not_found}
use pixiv_relay.Sync.Json.{Value, bool, num, str, obj}
use pixiv_relay.App.Operator.{resolve_all}

-- pathID.
unfoldable pub path_id : Text → Result ℤ
path_id text = elim (parse_int text) [
  | none ↦ err (bad_request (codes "id must be an integer"))
  | some id ↦ ok id
]

-- No row has the id 0, and none a negative one.
abbrev pub row_id : ℤ → ℕ
row_id id = pos_part id

-- Which statement of DeleteAccount is the i-th.
abbrev pub statement_no : Statement → ℕ
statement_no begin = 0
statement_no devices = 1
statement_no entries = 2
statement_no domains = 3
statement_no recover_rows = 4
statement_no accounts = 5
statement_no commit = 6

abbrev pub deleted_payload : Unit {0} → Value
deleted_payload done = obj (object ((codes "deleted", bool true) ∷ []))

abbrev status_name : Status → Text
status_name ready = codes "ready"
status_name fetching = codes "fetching"
status_name not_found = codes "not_found"

abbrev counts : List (Status × ℕ) → List (Text × Value)
counts [] = []
counts ((s, n) ∷ rest) = (status_name s, natural n) ∷ counts rest

abbrev pub evict_payload : EvictReport → Value
evict_payload p = obj (
    object (
      (codes "freedBytes", integer p.freed_bytes)
      ∷ ((codes "freedEntries", integer p.freed_entries)
          ∷ ((codes "bytes", integer p.bytes) ∷ ((codes "entries", natural p.entries) ∷ [])))))

module _ {F : Type 0} where
  abbrev pub stats_payload : (F → Text) → StatsReport F → Value
  stats_payload show p = obj (
      object (
        (codes "bytes", integer p.bytes)
        ∷ ((codes "entries", natural p.entries)
            ∷ ((codes "maxBytes", integer p.max_bytes)
                ∷ ((codes "highWatermark", num (show p.high_watermark))
                    ∷ ((codes "layout", str p.layout) ∷ ((codes "dir", str p.dir) ∷ [])))))))

module _ {F R B Ip : Type 0} (server : Server F R B Ip) (oracle : Oracle) where
  abbrev pub overview_payload : State F R B → OverviewReport → Value
  overview_payload s p = obj (
      object (
        (codes "serverVersion", str (codes "1.2.0"))
        ∷ ((codes "uptimeSec", integer oracle.uptime_s)
            ∷ ((codes "accounts", natural p.accounts)
                ∷ ((codes "devices", natural p.devices)
                    ∷ ((
                      codes "cache",
                      obj (
                          object (
                            (codes "bytes", integer p.bytes)
                            ∷ ((codes "entries", natural p.entries) ∷ []))),
                    )
                        ∷ ((codes "recoverCache", obj (object (counts p.recover_cache)))
                            ∷ ((
                              codes "settings",
                              settings_payload server.show_float (resolve_all server oracle s),
                            )
                                ∷ []))))))))

  unfoldable pub overview_handler : Handler (State F R B)
  unfolding overview respond resolve_all
  overview_handler r headers s = (
    s,
    respond r (overview_payload s) (overview oracle.statement_fails (tables_of s) s.cache) headers,
  )

  unfoldable pub cache_stats_handler : Handler (State F R B)
  unfolding cache_stats respond
  cache_stats_handler r headers s = (
    s,
    respond r (stats_payload server.show_float) (cache_stats (oracle.statement_fails 0) s.cache)
        headers,
  )

  abbrev pub evict_answer : Request → List Header → Option (Result EvictReport) → Response
  evict_answer r headers none = record { status = 0; headers = headers; body = waits }
  evict_answer r headers (some result) = respond r evict_payload result headers

  unfoldable pub cache_evict_handler : Handler (State F R B)
  unfolding evict_cache respond
  cache_evict_handler r headers s =
      let (cache, report) =
        evict_cache server.scale oracle.evict_faults oracle.rounds oracle.statement_fails s.cache in
      (record s { cache = cache }, evict_answer r headers report)

  abbrev pub accounts_result : Request → State F R B → Result (List AccountItem × Text)
  accounts_result r s =
      list_accounts server.base64 (oracle.statement_fails 0) (get_header (codes "cursor") r.query)
        (pos_part (parse_limit (get_header (codes "limit") r.query))) (tables_of s)

  unfoldable pub list_accounts_handler : Handler (State F R B)
  unfolding get_header list_accounts parse_limit respond
  list_accounts_handler r headers s = (s, respond r account_payload (accounts_result r s) headers)

  abbrev pub devices_result : Text → State F R B → Result (List Device)
  devices_result text s = do
    id ← path_id text
    list_devices (oracle.statement_fails 0) (row_id id) (tables_of s)

  unfoldable pub list_devices_handler : Text → Handler (State F R B)
  unfolding path_id list_devices respond
  list_devices_handler text r headers s =
      (s, respond r devices_payload (devices_result text s) headers)

  abbrev pub delete_with :
      (ℕ → Tables → Tables × Result (Unit {0}))
      → Request
      → List Header
      → State F R B
      → Result ℤ
      → State F R B × Response
  delete_with delete r headers s (err e) = (s, respond_error r e headers)
  delete_with delete r headers s (ok id) =
      let (tables, result) = delete (row_id id) (tables_of s) in
      (with_tables tables s, respond r deleted_payload result headers)

  unfoldable pub delete_device_handler : Text → Handler (State F R B)
  unfolding path_id delete_device respond
  delete_device_handler text r headers s =
      delete_with (delete_device (oracle.statement_fails 0)) r headers s (path_id text)

  unfoldable pub delete_account_handler : Text → Handler (State F R B)
  unfolding path_id delete_account respond
  delete_account_handler text r headers s =
      delete_with (delete_account (λ statement. oracle.statement_fails (statement_no statement))) r
        headers s (path_id text)
