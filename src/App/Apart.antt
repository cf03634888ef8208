-- ===== src/App/Apart.antt =====
-- What a client's request can change of what other accounts have synced.
use pixiv_relay.App.Member.{
  account_of, push_with, fetch_with, authenticated, write_limited, img_limited, relay_handler,
  fetch_handler, push_handler, pull_handler, recover_handler, relay_route, push_route, pull_route,
  img_route, recover_route,
}
use pixiv_relay.App.Mux.{
  Route, health, register, refresh, relay_request, img_fetch, sync_push, sync_pull, recover_illust,
  admin_overview, admin_get_settings, admin_patch_settings, admin_cache_stats, admin_cache_evict,
  admin_accounts, admin_devices, admin_delete_device, admin_delete_account, static, handle, serve,
}
use pixiv_relay.App.Desk.{
  overview_handler, cache_stats_handler, cache_evict_handler, list_accounts_handler,
  list_devices_handler, delete_device_handler, delete_account_handler,
}
use pixiv_relay.App.Operator.{
  get_settings_handler, patch_settings_handler, is_operator, operator_only,
}
use pixiv_relay.App.Public.{healthz, register_with, register_handler, refresh_with, refresh_route}
use pixiv_relay.App.State.{State, Server, Oracle, RegisterRequest}
use pixiv_relay.Auth.Store.{wrap, Identity}
use pixiv_relay.Sync.Push.{Env, push}
use pixiv_relay.Sync.Push.LastWrite.{push_isolation}
use pixiv_relay.Sync.Push.Outcome.{push_error_keeps_tables}
use pixiv_relay.Sync.Store.{Service, PushRequest, entry_key}
use pixiv_relay.Sync.Json.{Value}
use pixiv_relay.Prelude.Table.{find, HasDistinctKeys}
use pixiv_relay.Common.Errors.{Result-cases}
use pixiv_relay.Common.Errors.{Result, ok, err}
use pixiv_relay.Common.Http.{Request, Header, Handler, tagged}
use pixiv_relay.Prelude.{
  text_eq, nat_eq, pair_eq, ℕ, ◌≡◌, ◌≢◌, refl, ap, inl, inr, Bool, Option, some, false, List, Text,
}
use pixiv_relay.Web.Spa.{spa}
use pixiv_relay.App.Steps.{
  authorization, operator_only_lem, register_route_lem, write_limited_lem, img_limited_lem,
  serve_lem,
}

-- A Push, however it ends, leaves the rows of another account as they were.
push-Apart :
    (unmarshal : Text → Option Value) (env : Env) (s : Service) (account : ℕ) (req : PushRequest)
    (b : ℕ) (d k : Text)
    → HasDistinctKeys entry_key s.entries
    → b ≢ account
    → find entry_key (b, (d, k)) (push unmarshal env s account req).0.entries
      ≡ find entry_key (b, (d, k)) s.entries
push-Apart unmarshal env s account req b d k distinct ne =
    elim (Result-cases (push unmarshal env s account req).1) [
      | inl (pushed, good) ↦
          push_isolation unmarshal env s (push unmarshal env s account req).0 account req pushed.0
            pushed.1 b d k (ap (λ x. ((push unmarshal env s account req).0, x)) good) distinct
            (λ same _. ne same)
      | inr (e, bad) ↦
          ap (find entry_key (b, (d, k)))
            (push_error_keeps_tables unmarshal env s account req bad).0
    ]

abbrev asked_by : Identity → Request → Request
asked_by who r = record r { account = some who.account_id }

module _ {F R B Ip : Type 0} (server : Server F R B Ip) (oracle : Oracle) (b : ℕ) (d k : Text) where
  -- The row of the account b is what it was.
  abbrev pub Apart : State F R B → State F R B → Type 0
  Apart s t = find entry_key (b, (d, k)) t.sync.entries ≡ find entry_key (b, (d, k)) s.sync.entries

  register_with-Apart :
      (r : Request) (headers : List Header) (s : State F R B) (req : Result RegisterRequest)
      → Apart s (register_with server oracle r headers s req).0
  register_with-Apart r headers s (ok req) = refl
  register_with-Apart r headers s (err e) = refl

  refresh_with-Apart :
      (r : Request) (headers : List Header) (s : State F R B) (token : Result Text)
      → Apart s (refresh_with server oracle r headers s token).0
  refresh_with-Apart r headers s (ok token) = refl
  refresh_with-Apart r headers s (err e) = refl

  push_with-Apart :
      (r : Request) (headers : List Header) (s : State F R B) (req : Result PushRequest)
      → HasDistinctKeys entry_key s.sync.entries
      → b ≢ account_of r
      → Apart s (push_with server oracle r headers s req).0
  push_with-Apart r headers s (err e) distinct ne = refl
  push_with-Apart r headers s (ok req) distinct ne =
      push-Apart server.unmarshal oracle.push s.sync (account_of r) req b d k distinct ne

  fetch_with-Apart :
      (r : Request) (headers : List Header) (s : State F R B) (url : Text) (inline : Bool)
      (host : Result Text)
      → Apart s (fetch_with server oracle r headers s url inline host).0
  fetch_with-Apart r headers s url inline (err e) = refl
  fetch_with-Apart r headers s url inline (ok host) = refl

  -- Behind the middleware, the request has the account of its token.
  authenticated-Apart :
      (next : Handler (State F R B)) (r : Request) (headers : List Header) (s : State F R B)
      (who : Identity)
      → wrap server.tokens oracle.auth s.db (authorization r) ≡ ok who
      → Apart s (next (asked_by who r) headers s).0
      → Apart s (authenticated server oracle next r headers s).0
  unfolding authenticated
  authenticated-Apart next r headers s who known same = rw known same

  operator-Apart :
      (next : Handler (State F R B)) (r : Request) (headers : List Header) (s : State F R B)
      → is_operator server.admin_token (authorization r) ≡ false
      → Apart s (operator_only server oracle next r headers s).0
  operator-Apart next r headers s foreign =
      operator_only_lem (Apart s) server oracle next r headers s foreign (λ l. refl)

  module _ (r : Request) (s : State F R B) (who : Identity)
      (known : wrap server.tokens oracle.auth s.db (authorization r) ≡ ok who)
      (foreign : is_operator server.admin_token (authorization r) ≡ false)
      (distinct : HasDistinctKeys entry_key s.sync.entries) (ne : b ≢ who.account_id) where
    handle-Apart :
        (route : Route) (part : Text) (headers : List Header)
        → Apart s (handle server oracle route part r headers s).0
    unfolding handle healthz spa register_handler refresh_route relay_route push_route pull_route
        img_route recover_route relay_handler push_handler pull_handler fetch_handler
        recover_handler
    handle-Apart health part headers = refl
    handle-Apart static part headers = refl
    handle-Apart register part headers =
        register_route_lem (Apart s) server oracle r headers s (λ l. refl)
          (λ l. register_with-Apart r headers (record s { register_limiter = l }) _)
    handle-Apart refresh part headers = refresh_with-Apart r headers s _
    handle-Apart relay_request part headers =
        authenticated-Apart (write_limited server oracle (relay_handler server oracle)) r headers s
          who known
          (write_limited_lem (Apart s) server oracle (relay_handler server oracle) _ headers s
            (λ l. refl) (λ l. refl))
    handle-Apart img_fetch part headers =
        authenticated-Apart (img_limited server oracle (fetch_handler server oracle)) r headers s
          who known
          (img_limited_lem (Apart s) server oracle (fetch_handler server oracle) _ headers s
            (λ l. refl)
            (λ l. fetch_with-Apart (asked_by who r) headers (record s { img_limiter = l }) _ _ _))
    handle-Apart sync_push part headers =
        authenticated-Apart (write_limited server oracle (push_handler server oracle)) r headers s
          who known
          (write_limited_lem (Apart s) server oracle (push_handler server oracle) _ headers s
            (λ l. refl)
            (λ l.
              push_with-Apart (asked_by who r) headers (record s { write_limiter = l }) _ distinct
                ne))
    handle-Apart sync_pull part headers =
        authenticated-Apart (pull_handler server oracle) r headers s who known refl
    handle-Apart recover_illust part headers =
        authenticated-Apart (write_limited server oracle (recover_handler server oracle part)) r
          headers s who known
          (write_limited_lem (Apart s) server oracle (recover_handler server oracle part) _ headers
            s (λ l. refl) (λ l. refl))
    handle-Apart admin_overview part headers =
        operator-Apart (overview_handler server oracle) r headers s foreign
    handle-Apart admin_get_settings part headers =
        operator-Apart (get_settings_handler server oracle) r headers s foreign
    handle-Apart admin_patch_settings part headers =
        operator-Apart (patch_settings_handler server oracle) r headers s foreign
    handle-Apart admin_cache_stats part headers =
        operator-Apart (cache_stats_handler server oracle) r headers s foreign
    handle-Apart admin_cache_evict part headers =
        operator-Apart (cache_evict_handler server oracle) r headers s foreign
    handle-Apart admin_accounts part headers =
        operator-Apart (list_accounts_handler server oracle) r headers s foreign
    handle-Apart admin_devices part headers =
        operator-Apart (list_devices_handler server oracle part) r headers s foreign
    handle-Apart admin_delete_device part headers =
        operator-Apart (delete_device_handler server oracle part) r headers s foreign
    handle-Apart admin_delete_account part headers =
        operator-Apart (delete_account_handler server oracle part) r headers s foreign

  -- A client's request changes no synced row of another account, whatever it asks for and however
  -- it ends, where no two rows have one key and the client is not the operator.
  pub serve-Apart :
      (r : Request) (headers : List Header) (s : State F R B) (who : Identity)
      → wrap server.tokens oracle.auth s.db (authorization r) ≡ ok who
      → is_operator server.admin_token (authorization r) ≡ false
      → HasDistinctKeys entry_key s.sync.entries
      → b ≢ who.account_id
      → Apart s (serve server oracle r headers s).0
  serve-Apart r headers s who known foreign distinct ne =
      serve_lem (Apart s) server oracle r headers s refl (λ line t same. same)
        (handle-Apart (tagged oracle.fresh_id r) s who known foreign distinct ne)
