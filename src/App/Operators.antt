-- ===== src/App/Operators.antt =====
-- The headers that the handlers of relay, sync, recover and the administration leave alone.
use pixiv_relay.App.Headers.{
  IsForeign, Keeps, IsKeeper, write_json-Keeps, respond_error-Keeps, respond-Keeps,
}
use pixiv_relay.App.Keepers.{recover_answer-Keeps}
use pixiv_relay.App.Member.{relay_result, pull_result, relay_handler, pull_handler, recover_handler}
use pixiv_relay.App.Desk.{
  path_id, row_id, statement_no, deleted_payload, overview_payload, stats_payload, accounts_result,
  devices_result, evict_payload, overview_handler, cache_stats_handler, evict_answer,
  cache_evict_handler, list_accounts_handler, list_devices_handler, delete_with,
  delete_device_handler, delete_account_handler,
}
use pixiv_relay.App.Operator.{
  settings_answer, get_settings_handler, patched, patch_with, patch_settings_handler,
}
use pixiv_relay.App.State.{State, Server, Oracle, tables_of}
use pixiv_relay.App.Payloads.{relay_payload, pull_payload, account_payload, devices_payload}
use pixiv_relay.Admin.Accounts.{Tables, delete_device, delete_account}
use pixiv_relay.Admin.Reports.{EvictReport, overview, cache_stats}
use pixiv_relay.Common.Errors.{Result, ok, err}
use pixiv_relay.Common.Http.{Request, Header}
use pixiv_relay.Prelude.Int.{ℤ}
use pixiv_relay.Prelude.{ℕ, refl, Option, none, some, List, Text}

module _ (name : Text) (f : IsForeign name) where
  module _ {F R B Ip : Type 0} (server : Server F R B Ip) (oracle : Oracle) where
    evict_answer-Keeps :
        (r : Request) (headers : List Header) (report : Option (Result EvictReport))
        → Keeps name f headers (evict_answer server oracle r headers report)
    evict_answer-Keeps r headers none = refl
    evict_answer-Keeps r headers (some result) = respond-Keeps name f r evict_payload result headers

    delete_with-Keeps :
        (delete : ℕ → Tables → Tables × Result (Unit {0})) (r : Request) (headers : List Header)
        (s : State F R B) (id : Result ℤ)
        → Keeps name f headers (delete_with server oracle delete r headers s id).1
    delete_with-Keeps delete r headers s (err e) = respond_error-Keeps name f r e headers
    delete_with-Keeps delete r headers s (ok id) =
        respond-Keeps name f r deleted_payload (delete (row_id id) (tables_of s)).1 headers

    settings_answer-Keeps :
        (r : Request) (headers : List Header) (s : State F R B)
        → Keeps name f headers (settings_answer server oracle r headers s)
    settings_answer-Keeps r headers s = write_json-Keeps name f r 200 _ headers

    patched-Keeps :
        (r : Request) (headers : List Header) (s : State F R B) (result : Result (Unit {0}))
        → Keeps name f headers (patched server oracle r headers s result).1
    patched-Keeps r headers s (err e) = respond_error-Keeps name f r e headers
    patched-Keeps r headers s (ok done) = settings_answer-Keeps r headers _

    patch_with-Keeps :
        (r : Request) (headers : List Header) (s : State F R B) (kv : Result (List (Text × Text)))
        → Keeps name f headers (patch_with server oracle r headers s kv).1
    patch_with-Keeps r headers s (err e) = respond_error-Keeps name f r e headers
    patch_with-Keeps r headers s (ok kv) = patched-Keeps r headers _ _

    pub relay-IsKeeper : IsKeeper name f (relay_handler server oracle)
    unfolding relay_handler
    relay-IsKeeper r headers s =
        respond-Keeps name f r relay_payload (relay_result server oracle r) headers

    pub pull-IsKeeper : IsKeeper name f (pull_handler server oracle)
    unfolding pull_handler
    pull-IsKeeper r headers s =
        respond-Keeps name f r (pull_payload server.unmarshal) (pull_result server oracle r s)
          headers

    pub recover-IsKeeper : (pid : Text) → IsKeeper name f (recover_handler server oracle pid)
    unfolding recover_handler
    recover-IsKeeper pid r headers s = recover_answer-Keeps name f server oracle r headers _

    pub overview-IsKeeper : IsKeeper name f (overview_handler server oracle)
    unfolding overview_handler
    overview-IsKeeper r headers s =
        respond-Keeps name f r (overview_payload server oracle s)
          (overview oracle.statement_fails (tables_of s) s.cache) headers

    pub get_settings-IsKeeper : IsKeeper name f (get_settings_handler server oracle)
    unfolding get_settings_handler
    get_settings-IsKeeper r headers s = settings_answer-Keeps r headers s

    pub patch_settings-IsKeeper : IsKeeper name f (patch_settings_handler server oracle)
    unfolding patch_settings_handler
    patch_settings-IsKeeper r headers s = patch_with-Keeps r headers s _

    pub cache_stats-IsKeeper : IsKeeper name f (cache_stats_handler server oracle)
    unfolding cache_stats_handler
    cache_stats-IsKeeper r headers s =
        respond-Keeps name f r (stats_payload server.show_float)
          (cache_stats (oracle.statement_fails 0) s.cache) headers

    pub cache_evict-IsKeeper : IsKeeper name f (cache_evict_handler server oracle)
    unfolding cache_evict_handler
    cache_evict-IsKeeper r headers s = evict_answer-Keeps r headers _

    pub list_accounts-IsKeeper : IsKeeper name f (list_accounts_handler server oracle)
    unfolding list_accounts_handler
    list_accounts-IsKeeper r headers s =
        respond-Keeps name f r account_payload (accounts_result server oracle r s) headers

    pub list_devices-IsKeeper :
        (id : Text) → IsKeeper name f (list_devices_handler server oracle id)
    unfolding list_devices_handler
    list_devices-IsKeeper id r headers s =
        respond-Keeps name f r devices_payload (devices_result server oracle id s) headers

    pub delete_device-IsKeeper :
        (id : Text) → IsKeeper name f (delete_device_handler server oracle id)
    unfolding delete_device_handler
    delete_device-IsKeeper id r headers s =
        delete_with-Keeps (delete_device (oracle.statement_fails 0)) r headers s (path_id id)

    pub delete_account-IsKeeper :
        (id : Text) → IsKeeper name f (delete_account_handler server oracle id)
    unfolding delete_account_handler
    delete_account-IsKeeper id r headers s =
        delete_with-Keeps
          (delete_account (λ statement. oracle.statement_fails (statement_no statement))) r headers
          s (path_id id)
