-- ===== src/App/Member.antt =====
-- The handlers for clients with a token: the middleware of internal/auth, and routes.go of
-- internal/relay, internal/img, internal/sync and internal/recover.
use pixiv_relay.App.Payloads.{
  push_payload, pull_payload, relay_payload, page_payload, array, natural,
}
use pixiv_relay.App.Public.{need}
use pixiv_relay.App.State.{State, Server, Oracle}
use pixiv_relay.Auth.Store.{Identity, wrap}
use pixiv_relay.Common.Errors.{Result, ok, err, ◌>>=◌, ◌>>◌}
use pixiv_relay.Common.Http.{
  Request, Response, Header, waits, plain, Handler, get_header, set_header, object, write_json,
  respond_error, respond, decode_json, limited,
}
use pixiv_relay.Common.Paging.{parse_limit}
use pixiv_relay.Img.Service.{Answer, served, refused, allowed_hosts, check_fetch, fetch_round}
use pixiv_relay.Prelude.Decimal.{show_ℕ}
use pixiv_relay.Prelude.Int.{pos_part}
use pixiv_relay.Prelude.{ℕ, Bool, List, [], ◌∷◌, Option, none, some, Text, codes, text_beq}
use pixiv_relay.Recover
use pixiv_relay.Recover.Query.{gone, recovered, wait, query, request_base}
use pixiv_relay.Relay
use pixiv_relay.Relay.Service.{do_request}
use pixiv_relay.Sync.Json.{Value, str, obj, arr}
use pixiv_relay.Sync.Pull.{pull, PullResponse}
use pixiv_relay.Sync.Push.{push}
use pixiv_relay.Sync.Store.{PushRequest}

-- AccountIDFrom: 0 where the request went through no middleware.
abbrev pub account_of : Request → ℕ
account_of r = elim r.account [ none ↦ 0 | some a ↦ a ]

-- accountKey of the routes.
abbrev pub account_key : Request → Text
account_key r = show_ℕ (account_of r)

abbrev pub set_all : List Header → List Header → List Header
set_all [] headers = headers
set_all ((k, v) ∷ given) headers = set_all given (set_header k v headers)

module _ {F R B Ip : Type 0} (server : Server F R B Ip) (oracle : Oracle) where
  abbrev pub admit :
      Handler (State F R B)
      → Request
      → List Header
      → State F R B
      → Result Identity
      → State F R B × Response
  admit next r headers s (err e) = (s, respond_error r e headers)
  admit next r headers s (ok who) = next (record r { account = some who.account_id }) headers s

  -- Wrap of internal/auth/middleware.go.
  unfoldable pub authenticated : Handler (State F R B) → Handler (State F R B)
  unfolding wrap get_header
  authenticated next r headers s =
      admit next r headers s
        (wrap server.tokens oracle.auth s.db (get_header (codes "Authorization") r.headers))

  -- The limit that relay, sync and recover share.
  unfoldable pub write_limited : Handler (State F R B) → Handler (State F R B)
  unfolding limited
  write_limited =
      limited server.buckets (λ s. s.write_limiter) (λ l s. record s { write_limiter = l })
        oracle.now account_key

  unfoldable pub img_limited : Handler (State F R B) → Handler (State F R B)
  unfolding limited
  img_limited =
      limited server.buckets (λ s. s.img_limiter) (λ l s. record s { img_limiter = l }) oracle.now
        account_key

  abbrev pub relay_result : Request → Result Relay.Service.Response
  relay_result r = do
    req ← decode_json server.decoders.relay r.body
    need (codes "method") req.method
    need (codes "url") req.url
    do_request oracle.relay (Relay.Service.allowed_hosts server.relay_hosts) req

  -- makeHandler of internal/relay/routes.go.
  unfoldable pub relay_handler : Handler (State F R B)
  unfolding decode_json need do_request respond
  relay_handler r headers s = (s, respond r relay_payload (relay_result r) headers)

  abbrev pub push_with :
      Request → List Header → State F R B → Result PushRequest → State F R B × Response
  push_with r headers s (err e) = (s, respond_error r e headers)
  push_with r headers s (ok req) =
      let (sync, result) = push server.unmarshal oracle.push s.sync (account_of r) req in
      (record s { sync = sync }, respond r push_payload result headers)

  unfoldable pub push_handler : Handler (State F R B)
  unfolding decode_json need push respond
  push_handler r headers s =
      push_with r headers s
        (do req ← decode_json server.decoders.push r.body; need (codes "domain") req.domain; ok req)

  abbrev pub pull_result : Request → State F R B → Result PullResponse
  pull_result r s = do
    need (codes "domain") (get_header (codes "domain") r.query)
    pull server.cipher oracle.query_runs oracle.hex s.sync (account_of r)
        (get_header (codes "domain") r.query) oracle.now (get_header (codes "since") r.query)
        (pos_part (parse_limit (get_header (codes "limit") r.query)))

  unfoldable pub pull_handler : Handler (State F R B)
  unfolding get_header need pull parse_limit respond
  pull_handler r headers s =
      (s, respond r (pull_payload server.unmarshal) (pull_result r s) headers)

  abbrev pub image_answer : Request → List Header → Option Answer → Response
  image_answer r headers none = record { status = 0; headers = headers; body = waits }
  image_answer r headers (some (served given content)) = record {
    status = 200;
    headers = set_all given headers;
    body = plain content;
  }
  image_answer r headers (some (refused given e)) = respond_error r e (set_all given headers)

  abbrev pub fetch_with :
      Request → List Header → State F R B → Text → Bool → Result Text → State F R B × Response
  fetch_with r headers s url inline (err e) = (s, respond_error r e headers)
  fetch_with r headers s url inline (ok host) =
      let ((cache, flights), answer) =
        fetch_round oracle.get_faults oracle.no_temp oracle.commit_faults oracle.now s.cache
          s.flights (server.cache_key url) inline oracle.image in
      (record s { cache = cache; flights = flights }, image_answer r headers answer)

  -- Fetch of internal/img/service.go, up to the next wait.
  unfoldable pub fetch_handler : Handler (State F R B)
  unfolding get_header check_fetch fetch_round
  fetch_handler r headers s =
      let url = get_header (codes "url") r.query in
      fetch_with r headers s url
        (text_beq (get_header (codes "disposition") r.query) (codes "inline"))
        (check_fetch server.parse_url (allowed_hosts server.img_hosts) url)

  abbrev status_field : Text → Text × Value
  status_field t = (codes "status", str t)

  abbrev pub recover_answer : Request → List Header → Recover.Query.Answer → Response
  recover_answer r headers gone =
      write_json r 404 (obj (object (status_field (codes "not_found") ∷ []))) headers
  recover_answer r headers (recovered pages source meta) =
      write_json r 200
        (obj (
          object (
            status_field (codes "ready")
            ∷ ((codes "pages", arr (array page_payload pages))
                ∷ ((codes "source", str source) ∷ ((codes "meta", obj (object meta)) ∷ []))))))
        headers
  recover_answer r headers wait =
      write_json r 202
        (obj (object (status_field (codes "fetching") ∷ ((codes "retryAfterSec", natural 5) ∷ []))))
        headers
  recover_answer r headers (Recover.Query.refused e) = respond_error r e headers

  -- Query of internal/recover/service.go; `pid` is the part of the path.
  unfoldable pub recover_handler : Text → Handler (State F R B)
  unfolding query request_base
  recover_handler pid r headers s =
      let (queue, answer) =
        query server.codec oracle.lookup_fails oracle.mark_fails server.shared oracle.now
          (account_of r) pid (request_base oracle.tls oracle.host) s.queue in
      (record s { queue = queue }, recover_answer r headers answer)

  unfoldable pub relay_route : Handler (State F R B)
  relay_route = authenticated (write_limited relay_handler)

  unfoldable pub push_route : Handler (State F R B)
  push_route = authenticated (write_limited push_handler)

  unfoldable pub pull_route : Handler (State F R B)
  pull_route = authenticated pull_handler

  unfoldable pub img_route : Handler (State F R B)
  img_route = authenticated (img_limited fetch_handler)

  unfoldable pub recover_route : Text → Handler (State F R B)
  recover_route pid = authenticated (write_limited (recover_handler pid))
