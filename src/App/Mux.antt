-- ===== src/App/Mux.antt =====
-- NewWithClient of internal/app/app.go: the routes, and the chain of handlers around them. A pattern
-- is a method and the parts of a path; `{}` stands for any part.
use pixiv_relay.App.Member.{relay_route, push_route, pull_route, img_route, recover_route}
use pixiv_relay.App.Desk.{
  overview_handler, cache_stats_handler, cache_evict_handler, list_accounts_handler,
  list_devices_handler, delete_device_handler, delete_account_handler,
}
use pixiv_relay.App.Operator.{operator_only, get_settings_handler, patch_settings_handler}
use pixiv_relay.App.Public.{healthz, register_route, refresh_route}
use pixiv_relay.App.State.{State, Server, Oracle, write_log}
use pixiv_relay.Common.Http.{plain, Handler, set_header, request_id, access_log}
use pixiv_relay.Prelude.{
  Bool, ◌&&◌, ◌||◌, List, [], ◌∷◌, ◌++◌, Option, none, some, Text, codes, text_beq, is_empty,
  if◌then◌else◌, nat_beq,
}
use pixiv_relay.Web.Cors.{cors}
use pixiv_relay.Web.Spa.{spa}

pub data Route : Type 0 where
  health register refresh relay_request img_fetch sync_push sync_pull recover_illust : Route
  admin_overview admin_get_settings admin_patch_settings admin_cache_stats admin_cache_evict : Route
  admin_accounts admin_devices admin_delete_device admin_delete_account : Route
  static : Route

pub record Pattern : Type 0 where
  pub method : Text
  pub parts : List Text
  pub route : Route

abbrev pattern_of : Text → List Text → Route → Pattern
pattern_of method parts route = record { method = method; parts = parts; route = route }

-- A part of a pattern that stands for any part.
abbrev any_part : Text
any_part = codes "{}"

unfoldable pub client_patterns : List Pattern
client_patterns =
    pattern_of (codes "GET") (codes "healthz" ∷ []) health
    ∷ pattern_of (codes "POST") (codes "auth" ∷ codes "v1" ∷ codes "register" ∷ []) register
    ∷ pattern_of (codes "POST") (codes "auth" ∷ codes "v1" ∷ codes "refresh" ∷ []) refresh
    ∷ pattern_of (codes "POST") (codes "relay" ∷ codes "v1" ∷ codes "request" ∷ []) relay_request
    ∷ pattern_of (codes "GET") (codes "img" ∷ codes "v1" ∷ codes "fetch" ∷ []) img_fetch
    ∷ pattern_of (codes "POST") (codes "sync" ∷ codes "v1" ∷ codes "push" ∷ []) sync_push
    ∷ pattern_of (codes "GET") (codes "sync" ∷ codes "v1" ∷ codes "pull" ∷ []) sync_pull
    ∷ pattern_of (codes "GET") (codes "recover" ∷ codes "v1" ∷ codes "illust" ∷ any_part ∷ [])
        recover_illust
    ∷ []

abbrev admin_path : List Text → List Text
admin_path parts = codes "admin" ∷ codes "v1" ∷ parts

unfoldable pub admin_patterns : List Pattern
admin_patterns =
    pattern_of (codes "GET") (admin_path (codes "overview" ∷ [])) admin_overview
    ∷ pattern_of (codes "GET") (admin_path (codes "settings" ∷ [])) admin_get_settings
    ∷ pattern_of (codes "PATCH") (admin_path (codes "settings" ∷ [])) admin_patch_settings
    ∷ pattern_of (codes "GET") (admin_path (codes "cache" ∷ codes "stats" ∷ [])) admin_cache_stats
    ∷ pattern_of (codes "POST") (admin_path (codes "cache" ∷ codes "evict" ∷ [])) admin_cache_evict
    ∷ pattern_of (codes "GET") (admin_path (codes "accounts" ∷ [])) admin_accounts
    ∷ pattern_of (codes "GET") (admin_path (codes "accounts" ∷ any_part ∷ codes "devices" ∷ []))
        admin_devices
    ∷ pattern_of (codes "DELETE") (admin_path (codes "devices" ∷ any_part ∷ [])) admin_delete_device
    ∷ pattern_of (codes "DELETE") (admin_path (codes "accounts" ∷ any_part ∷ []))
        admin_delete_account
    ∷ []

-- The routes of the administration are there only with a token.
unfoldable pub patterns : Text → List Pattern
unfolding client_patterns admin_patterns
patterns admin_token =
    if is_empty admin_token then client_patterns else client_patterns ++ admin_patterns

-- The parts of a path between its slashes, after the first slash.
unfoldable pub split_slash : Text → Text × List Text
split_slash [] = ([], [])
split_slash (c ∷ s) =
    let (part, rest) = split_slash s in
    if nat_beq c b'/' then ([], part ∷ rest) else (c ∷ part, rest)

unfoldable pub path_parts : Text → List Text
unfolding split_slash
path_parts path = (split_slash path).1

-- The part that stands where the pattern has `{}`, if the parts match.
unfoldable pub match_parts : List Text → List Text → Option Text
match_parts [] [] = some []
match_parts [] (part ∷ parts) = none
match_parts (p ∷ ps) [] = none
match_parts (p ∷ ps) (part ∷ parts) =
    let rest = match_parts ps parts in
    if text_beq p any_part
    then (if is_empty part then none else elim rest [ none ↦ none | some _ ↦ some part ])
    else if text_beq p part
    then rest
    else none

-- A GET pattern serves HEAD too.
unfoldable pub match_method : Text → Text → Bool
match_method wanted method =
    text_beq wanted method || (text_beq wanted (codes "GET") && text_beq method (codes "HEAD"))

-- The first pattern that matches; the patterns of one path differ in their methods.
unfoldable pub find_route : Text → List Text → List Pattern → Option (Route × Text)
unfolding match_parts match_method
find_route method parts [] = if match_method (codes "GET") method then some (static, []) else none
find_route method parts (p ∷ ps) =
    let rest = find_route method parts ps in
    elim (match_parts p.parts parts) [
      | none ↦ rest
      | some captured ↦ if match_method p.method method then some (p.route, captured) else rest
    ]

module _ {F R B Ip : Type 0} (server : Server F R B Ip) (oracle : Oracle) where
  unfoldable pub handle : Route → Text → Handler (State F R B)
  handle health part = healthz server
  handle register part = register_route server oracle
  handle refresh part = refresh_route server oracle
  handle relay_request part = relay_route server oracle
  handle img_fetch part = img_route server oracle
  handle sync_push part = push_route server oracle
  handle sync_pull part = pull_route server oracle
  handle recover_illust pid = recover_route server oracle pid
  handle admin_overview part = operator_only server oracle (overview_handler server oracle)
  handle admin_get_settings part = operator_only server oracle (get_settings_handler server oracle)
  handle admin_patch_settings part =
      operator_only server oracle (patch_settings_handler server oracle)
  handle admin_cache_stats part = operator_only server oracle (cache_stats_handler server oracle)
  handle admin_cache_evict part = operator_only server oracle (cache_evict_handler server oracle)
  handle admin_accounts part = operator_only server oracle (list_accounts_handler server oracle)
  handle admin_devices id = operator_only server oracle (list_devices_handler server oracle id)
  handle admin_delete_device id =
      operator_only server oracle (delete_device_handler server oracle id)
  handle admin_delete_account id =
      operator_only server oracle (delete_account_handler server oracle id)
  handle static part = spa server.files

  abbrev pub dispatch : Option (Route × Text) → Handler (State F R B)
  dispatch none r headers s =
      (s, record { status = 405; headers = headers; body = plain (codes "Method Not Allowed") })
  dispatch (some (route, part)) r headers s = handle route part r headers s

  -- http.ServeMux: a path that is not in its canonical form is redirected there.
  unfoldable pub mux : Handler (State F R B)
  unfolding find_route patterns path_parts handle set_header
  mux r headers s =
      if text_beq (server.canonical r.path) r.path
      then dispatch (find_route r.method (path_parts r.path) (patterns server.admin_token)) r
          headers s
      else (
        s,
        record {
          status = 301;
          headers = set_header (codes "Location") (server.canonical r.path) headers;
          body = plain [];
        },
      )

  -- The whole chain: an id for the request, the log, the other origins, the routes.
  unfoldable pub serve : Handler (State F R B)
  unfolding request_id access_log cors mux
  serve = request_id oracle.fresh_id (access_log write_log oracle.ms (cors server.origins mux))
