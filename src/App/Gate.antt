-- ===== src/App/Gate.antt =====
-- What a request without a token can change.
use pixiv_relay.App.Member.{
  authenticated, write_limited, img_limited, relay_handler, fetch_handler, push_handler,
  pull_handler, recover_handler, relay_route, push_route, pull_route, img_route, recover_route,
}
use pixiv_relay.App.Mux.{
  Route, health, register, refresh, relay_request, img_fetch, sync_push, sync_pull, recover_illust,
  admin_overview, admin_get_settings, admin_patch_settings, admin_cache_stats, admin_cache_evict,
  admin_accounts, admin_devices, admin_delete_device, admin_delete_account, static, handle, serve,
}
use pixiv_relay.App.Desk.{
  overview_handler, cache_stats_handler, cache_evict_handler, list_accounts_handler,
  list_devices_handler, delete_device_handler, delete_account_handler,
}
use pixiv_relay.App.Operator.{
  get_settings_handler, patch_settings_handler, is_operator, operator_only,
}
use pixiv_relay.App.Public.{healthz, register_with, register_handler, refresh_with, refresh_route}
use pixiv_relay.App.State.{State, Server, Oracle, RegisterRequest}
use pixiv_relay.Auth.Store.{wrap}
use pixiv_relay.Common.Errors.{Result, ok, err, Error}
use pixiv_relay.Common.Http.{Request, Header, Handler, tagged}
use pixiv_relay.Prelude.{◌≡◌, refl, false, List, Text}
use pixiv_relay.Web.Spa.{spa}
use pixiv_relay.App.Steps.{authorization, operator_only_lem, register_route_lem, serve_lem}

module _ {F R B : Type 0} where
  -- All but the accounts, their devices, the limits and the log.
  abbrev pub SameData : State F R B → State F R B → Type 0
  SameData s t =
      (t.sync ≡ s.sync)
      × (t.queue ≡ s.queue)
      × (t.cache ≡ s.cache)
      × (t.flights ≡ s.flights)
      × (t.settings ≡ s.settings)
      × (t.invites ≡ s.invites)

module _ {F R B Ip : Type 0} (server : Server F R B Ip) (oracle : Oracle) where
  register_with_data :
      (r : Request) (headers : List Header) (s : State F R B) (req : Result RegisterRequest)
      → SameData s (register_with server oracle r headers s req).0
  register_with_data r headers s (ok req) = (refl, refl, refl, refl, refl, refl)
  register_with_data r headers s (err e) = (refl, refl, refl, refl, refl, refl)

  refresh_with_data :
      (r : Request) (headers : List Header) (s : State F R B) (token : Result Text)
      → SameData s (refresh_with server oracle r headers s token).0
  refresh_with_data r headers s (ok token) = (refl, refl, refl, refl, refl, refl)
  refresh_with_data r headers s (err e) = (refl, refl, refl, refl, refl, refl)

  authenticated_data :
      (next : Handler (State F R B)) (r : Request) (headers : List Header) (s : State F R B)
      {e : Error}
      → wrap server.tokens oracle.auth s.db (authorization r) ≡ err e
      → SameData s (authenticated server oracle next r headers s).0
  unfolding authenticated
  authenticated_data next r headers s denied = rw denied (refl, refl, refl, refl, refl, refl)

  operator_data :
      (next : Handler (State F R B)) (r : Request) (headers : List Header) (s : State F R B)
      → is_operator server.admin_token (authorization r) ≡ false
      → SameData s (operator_only server oracle next r headers s).0
  operator_data next r headers s foreign =
      operator_only_lem (SameData s) server oracle next r headers s foreign
        (λ l. (refl, refl, refl, refl, refl, refl))

  handle_data :
      (route : Route) (part : Text) (r : Request) (headers : List Header) (s : State F R B)
      {e : Error}
      → wrap server.tokens oracle.auth s.db (authorization r) ≡ err e
      → is_operator server.admin_token (authorization r) ≡ false
      → SameData s (handle server oracle route part r headers s).0
  unfolding handle healthz spa register_handler refresh_route relay_route push_route pull_route
      img_route recover_route
  handle_data health part r headers s denied foreign = (refl, refl, refl, refl, refl, refl)
  handle_data static part r headers s denied foreign = (refl, refl, refl, refl, refl, refl)
  handle_data register part r headers s denied foreign =
      register_route_lem (SameData s) server oracle r headers s
        (λ l. (refl, refl, refl, refl, refl, refl))
        (λ l. register_with_data r headers (record s { register_limiter = l }) _)
  handle_data refresh part r headers s denied foreign = refresh_with_data r headers s _
  handle_data relay_request part r headers s denied foreign =
      authenticated_data (write_limited server oracle (relay_handler server oracle)) r headers s
        denied
  handle_data img_fetch part r headers s denied foreign =
      authenticated_data (img_limited server oracle (fetch_handler server oracle)) r headers s
        denied
  handle_data sync_push part r headers s denied foreign =
      authenticated_data (write_limited server oracle (push_handler server oracle)) r headers s
        denied
  handle_data sync_pull part r headers s denied foreign =
      authenticated_data (pull_handler server oracle) r headers s denied
  handle_data recover_illust part r headers s denied foreign =
      authenticated_data (write_limited server oracle (recover_handler server oracle part)) r
        headers s denied
  handle_data admin_overview part r headers s denied foreign =
      operator_data (overview_handler server oracle) r headers s foreign
  handle_data admin_get_settings part r headers s denied foreign =
      operator_data (get_settings_handler server oracle) r headers s foreign
  handle_data admin_patch_settings part r headers s denied foreign =
      operator_data (patch_settings_handler server oracle) r headers s foreign
  handle_data admin_cache_stats part r headers s denied foreign =
      operator_data (cache_stats_handler server oracle) r headers s foreign
  handle_data admin_cache_evict part r headers s denied foreign =
      operator_data (cache_evict_handler server oracle) r headers s foreign
  handle_data admin_accounts part r headers s denied foreign =
      operator_data (list_accounts_handler server oracle) r headers s foreign
  handle_data admin_devices part r headers s denied foreign =
      operator_data (list_devices_handler server oracle part) r headers s foreign
  handle_data admin_delete_device part r headers s denied foreign =
      operator_data (delete_device_handler server oracle part) r headers s foreign
  handle_data admin_delete_account part r headers s denied foreign =
      operator_data (delete_account_handler server oracle part) r headers s foreign

  -- A request that bears neither a client's token nor the operator's leaves the synced rows and
  -- their cursors, the recovery queue, the image cache, the settings and the invitation codes as they
  -- were, whatever it asks for.
  pub serve-SameData :
      (r : Request) (headers : List Header) (s : State F R B) {e : Error}
      → wrap server.tokens oracle.auth s.db (authorization r) ≡ err e
      → is_operator server.admin_token (authorization r) ≡ false
      → SameData s (serve server oracle r headers s).0
  serve-SameData r headers s denied foreign =
      serve_lem (SameData s) server oracle r headers s (refl, refl, refl, refl, refl, refl)
        (λ line t same. same)
        (λ route part given.
          handle_data route part (tagged oracle.fresh_id r) given s denied foreign)
