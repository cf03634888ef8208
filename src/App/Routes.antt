-- ===== src/App/Routes.antt =====
-- The headers that the routes of internal/app/app.go leave alone.
use pixiv_relay.App.Headers.{
  IsForeign, get_header-set_header_ne, Keeps, IsKeeper, write_json-Keeps, limited-IsKeeper,
  authenticated-IsKeeper,
}
use pixiv_relay.App.Files.{spa-IsKeeper}
use pixiv_relay.App.Operators.{
  relay-IsKeeper, pull-IsKeeper, recover-IsKeeper, overview-IsKeeper, get_settings-IsKeeper,
  patch_settings-IsKeeper, cache_stats-IsKeeper, cache_evict-IsKeeper, list_accounts-IsKeeper,
  list_devices-IsKeeper, delete_device-IsKeeper, delete_account-IsKeeper,
}
use pixiv_relay.App.Keepers.{
  fetch-IsKeeper, push-IsKeeper, register-IsKeeper, refresh_with-Keeps, operator_only-IsKeeper,
}
use pixiv_relay.App.Member.{
  write_limited, img_limited, relay_handler, push_handler, pull_handler, fetch_handler,
  recover_handler, relay_route, push_route, pull_route, img_route, recover_route, account_key,
}
use pixiv_relay.App.Mux.{
  Route, health, register, refresh, relay_request, img_fetch, sync_push, sync_pull, recover_illust,
  admin_overview, admin_get_settings, admin_patch_settings, admin_cache_stats, admin_cache_evict,
  admin_accounts, admin_devices, admin_delete_device, admin_delete_account, static, handle,
  dispatch, mux,
}
use pixiv_relay.App.Desk.{
  overview_handler, cache_stats_handler, cache_evict_handler, list_accounts_handler,
  list_devices_handler, delete_device_handler, delete_account_handler,
}
use pixiv_relay.App.Operator.{get_settings_handler, patch_settings_handler}
use pixiv_relay.App.Public.{healthz, address, register_handler, register_route, refresh_route}
use pixiv_relay.App.State.{State, Server, Oracle}
use pixiv_relay.Common.Http.{Request, Header, Handler, object}
use pixiv_relay.Sync.Json.{obj, str}
use pixiv_relay.Prelude.{
  refl, Option, none, some, List, [], ◌∷◌, Text, codes, text_beq, Bool-cases, inl, inr,
}

module _ (name : Text) (f : IsForeign name) where
  module _ {F R B Ip : Type 0} (server : Server F R B Ip) (oracle : Oracle) where
    write_limited-IsKeeper :
        (next : Handler (State F R B))
        → IsKeeper name f next
        → IsKeeper name f (write_limited server oracle next)
    unfolding write_limited
    write_limited-IsKeeper next k =
        limited-IsKeeper name f server.buckets (λ s. s.write_limiter)
          (λ l s. record s { write_limiter = l }) oracle.now account_key next k

    handle-IsKeeper :
        (route : Route) (part : Text) → IsKeeper name f (handle server oracle route part)
    unfolding handle relay_route push_route pull_route img_route recover_route img_limited
        register_route refresh_route healthz
    handle-IsKeeper health part r headers s =
        write_json-Keeps name f r 200 (obj (object ((codes "status", str (codes "ok")) ∷ [])))
          headers
    handle-IsKeeper register part r headers s =
        limited-IsKeeper name f server.buckets (λ s. s.register_limiter)
          (λ l s. record s { register_limiter = l }) oracle.now (address server)
          (register_handler server oracle) (register-IsKeeper name f server oracle) r headers s
    handle-IsKeeper refresh part r headers s = refresh_with-Keeps name f server oracle r headers s _
    handle-IsKeeper relay_request part r headers s =
        authenticated-IsKeeper name f server oracle
          (write_limited server oracle (relay_handler server oracle))
          (write_limited-IsKeeper (relay_handler server oracle)
            (relay-IsKeeper name f server oracle))
          r headers s
    handle-IsKeeper img_fetch part r headers s =
        authenticated-IsKeeper name f server oracle
          (img_limited server oracle (fetch_handler server oracle))
          (limited-IsKeeper name f server.buckets (λ s. s.img_limiter)
            (λ l s. record s { img_limiter = l }) oracle.now account_key
            (fetch_handler server oracle) (fetch-IsKeeper name f server oracle))
          r headers s
    handle-IsKeeper sync_push part r headers s =
        authenticated-IsKeeper name f server oracle
          (write_limited server oracle (push_handler server oracle))
          (write_limited-IsKeeper (push_handler server oracle) (push-IsKeeper name f server oracle))
          r headers s
    handle-IsKeeper sync_pull part r headers s =
        authenticated-IsKeeper name f server oracle (pull_handler server oracle)
          (pull-IsKeeper name f server oracle) r headers s
    handle-IsKeeper recover_illust pid r headers s =
        authenticated-IsKeeper name f server oracle
          (write_limited server oracle (recover_handler server oracle pid))
          (write_limited-IsKeeper (recover_handler server oracle pid)
            (recover-IsKeeper name f server oracle pid))
          r headers s
    handle-IsKeeper admin_overview part r headers s =
        operator_only-IsKeeper name f server oracle (overview_handler server oracle)
          (overview-IsKeeper name f server oracle) r headers s
    handle-IsKeeper admin_get_settings part r headers s =
        operator_only-IsKeeper name f server oracle (get_settings_handler server oracle)
          (get_settings-IsKeeper name f server oracle) r headers s
    handle-IsKeeper admin_patch_settings part r headers s =
        operator_only-IsKeeper name f server oracle (patch_settings_handler server oracle)
          (patch_settings-IsKeeper name f server oracle) r headers s
    handle-IsKeeper admin_cache_stats part r headers s =
        operator_only-IsKeeper name f server oracle (cache_stats_handler server oracle)
          (cache_stats-IsKeeper name f server oracle) r headers s
    handle-IsKeeper admin_cache_evict part r headers s =
        operator_only-IsKeeper name f server oracle (cache_evict_handler server oracle)
          (cache_evict-IsKeeper name f server oracle) r headers s
    handle-IsKeeper admin_accounts part r headers s =
        operator_only-IsKeeper name f server oracle (list_accounts_handler server oracle)
          (list_accounts-IsKeeper name f server oracle) r headers s
    handle-IsKeeper admin_devices id r headers s =
        operator_only-IsKeeper name f server oracle (list_devices_handler server oracle id)
          (list_devices-IsKeeper name f server oracle id) r headers s
    handle-IsKeeper admin_delete_device id r headers s =
        operator_only-IsKeeper name f server oracle (delete_device_handler server oracle id)
          (delete_device-IsKeeper name f server oracle id) r headers s
    handle-IsKeeper admin_delete_account id r headers s =
        operator_only-IsKeeper name f server oracle (delete_account_handler server oracle id)
          (delete_account-IsKeeper name f server oracle id) r headers s
    handle-IsKeeper static part r headers s = spa-IsKeeper name f server.files r headers s

    dispatch-Keeps :
        (o : Option (Route × Text)) (r : Request) (headers : List Header) (s : State F R B)
        → Keeps name f headers (dispatch server oracle o r headers s).1
    dispatch-Keeps none r headers s = refl
    dispatch-Keeps (some (route, part)) r headers s = handle-IsKeeper route part r headers s

    pub mux-IsKeeper : IsKeeper name f (mux server oracle)
    unfolding mux
    mux-IsKeeper r headers s = elim (Bool-cases (text_beq (server.canonical r.path) r.path)) [
      | inl same ↦ rw same (dispatch-Keeps _ r headers s)
      | inr other ↦ rw other (
          get_header-set_header_ne name (codes "Location") (server.canonical r.path) headers
            f.location)
    ]
