-- ===== src/Relay/Service.antt =====
-- Do of internal/relay/service.go. net/url and base64 are arguments, and so is the network.
use pixiv_relay.Common.Errors.{
  Result, ok, err, bad_request, forbidden, bad_gateway, refuse, ◌>>=◌, ◌>>◌,
}
use pixiv_relay.Prelude.Int.{ℤ, pos, ltb_ℤ, leb_ℤ}
use pixiv_relay.Prelude.Table.{find, upsert}
use pixiv_relay.Prelude.{
  ℕ, ◌^◌, Bool, false, ◌&&◌, ◌||◌, not, List, [], ◌∷◌, ◌++◌, Option, none, some, Text, codes, ltb,
  length, text_beq, any, is_empty, to_lower, to_upper, equal_fold, if◌then◌else◌, text_eq, map,
}

abbrev pub default_ua : Text
default_ua = codes "PixivIOSApp/5.8.0"

abbrev pub max_body_bytes : ℕ
max_body_bytes = 2 ^ 20

abbrev pub default_timeout_ms : ℤ
default_timeout_ms = pos 30000

abbrev pub max_timeout_ms : ℤ
max_timeout_ms = pos 60000

abbrev pub default_allowed_hosts : List Text
default_allowed_hosts =
    codes "app-api.pixiv.net" ∷ codes "oauth.secure.pixiv.net" ∷ codes "www.pixiv.net" ∷ []

abbrev pub forward_headers : List Text
forward_headers =
    codes "authorization"
    ∷ codes "accept-language"
    ∷ codes "content-type"
    ∷ codes "user-agent"
    ∷ codes "referer"
    ∷ []

abbrev pub passthrough_headers : List Text
passthrough_headers = codes "content-type" ∷ codes "cache-control" ∷ codes "retry-after" ∷ []

abbrev pub allowed_methods : List Text
allowed_methods = codes "GET" ∷ codes "POST" ∷ codes "PUT" ∷ codes "DELETE" ∷ []

abbrev pub is_in : List Text → Text → Bool
is_in names t = any (λ n. text_beq n t) names

-- A header is a name in lower case, as names are compared, and its value.
abbrev pub Header : Type 0
Header = Text × Text

abbrev pub header_name : Header → Text
header_name h = h.0

pub record Request : Type 0 where
  pub method : Text
  pub url : Text
  pub headers : List (Text × Text)
  pub body_base64 : Text
  pub timeout_ms : ℤ

pub record Response : Type 0 where
  pub status : ℕ
  pub headers : List Header
  pub body_base64 : Text

-- What url.Parse gives: the scheme, the host, and the host without its port.
pub record Url : Type 0 where
  pub scheme : Text
  pub host : Text
  pub hostname : Text

-- The request that goes out. `host` is the name that was checked.
pub record Upstream : Type 0 where
  pub method : Text
  pub url : Text
  pub host : Text
  pub headers : List Header
  pub body : Text
  pub timeout_ms : ℤ

-- How client.Do and the reading of the body end; the body is whole, however long.
pub data Reply : Type 0 where
  unreachable : Reply
  cut_off : Reply
  replied : ℕ → List Header → Text → Reply

pub record Tools : Type 0 where
  pub parse_url : Text → Option Url
  pub decode : Text → Option Text
  pub encode : Text → Text
  pub builds : Text → Text → Bool
  pub upstream : Upstream → Reply

unfoldable pub allowed_hosts : List Text → List Text
allowed_hosts extra = default_allowed_hosts ++ map to_lower extra

unfoldable pub clamp_timeout : ℤ → ℤ
clamp_timeout ms =
    let given = if leb_ℤ ms (pos 0) then default_timeout_ms else ms in
    if ltb_ℤ max_timeout_ms given then max_timeout_ms else given

abbrev pub user_agent : Text
user_agent = codes "user-agent"

-- The loop over the headers of the request, after those before it.
unfoldable pub filter_headers : List (Text × Text) → List Header → Bool → List Header × Bool
filter_headers [] acc has_ua = (acc, has_ua)
filter_headers ((k, v) ∷ headers) acc has_ua =
    let name = to_lower k in
    let rest = filter_headers headers acc has_ua in
    let rest_set =
      filter_headers headers (upsert header_name (name, v) acc)
        (has_ua || (text_beq name user_agent && not (is_empty v))) in
    if is_in forward_headers name then rest_set else rest

abbrev pub with_ua : List Header × Bool → List Header
with_ua (headers, has_ua) =
    if has_ua then headers else upsert header_name (user_agent, default_ua) headers

abbrev pub get_header : List Header → Text → Text
get_header headers name = elim (find header_name name headers) [ none ↦ [] | some h ↦ h.1 ]

-- The loop over the names that pass through.
unfoldable pub pass_headers : List Header → List Text → List Header
pass_headers headers [] = []
pass_headers headers (k ∷ names) =
    let v = get_header headers k in
    let rest = pass_headers headers names in if is_empty v then rest else (k, v) ∷ rest

module _ (tools : Tools) (hosts : List Text) where
  unfoldable pub decode_body : Text → Result Text
  decode_body given = if is_empty given then ok [] else elim (tools.decode given) [
    | none ↦ err (bad_request (codes "bodyBase64 decode failed"))
    | some raw ↦
        if ltb max_body_bytes (length raw)
        then err (bad_request (codes "body exceeds 1MB limit"))
        else ok raw
  ]

  unfoldable pub check_parsed : Option Url → Result Text
  check_parsed none = err (bad_request (codes "invalid url"))
  check_parsed (some u) = do
    refuse (is_empty u.host) (bad_request (codes "invalid url"))
    refuse (not (equal_fold u.scheme (codes "https")))
        (bad_request (codes "url scheme must be https"))
    refuse (not (is_in hosts (to_lower u.hostname)))
        (forbidden (codes "host not allowed: " ++ to_lower u.hostname))
    ok (to_lower u.hostname)

  unfoldable pub check_url : Text → Result Text
  unfolding check_parsed
  check_url url = check_parsed (tools.parse_url url)

  -- Do up to the call of the client.
  unfoldable pub prepare : Request → Result Upstream
  unfolding decode_body check_url filter_headers clamp_timeout
  prepare req = do
    let method = to_upper req.method
    refuse (not (is_in allowed_methods method))
        (bad_request (codes "method not allowed: " ++ req.method))
    host ← check_url req.url
    body ← decode_body req.body_base64
    refuse (not (tools.builds method req.url)) (bad_request (codes "invalid url"))
    ok (record {
      method = method;
      url = req.url;
      host = host;
      headers = with_ua (filter_headers req.headers [] false);
      body = body;
      timeout_ms = clamp_timeout req.timeout_ms;
    })

  unfoldable pub read_reply : Reply → Result Response
  read_reply unreachable = err (bad_gateway (codes "upstream unreachable"))
  read_reply cut_off = err (bad_gateway (codes "upstream response read failed"))
  read_reply (replied status headers body) =
      if ltb max_body_bytes (length body)
      then err (bad_gateway (codes "upstream response exceeds 1MB limit"))
      else ok (record {
        status = status;
        headers = pass_headers headers passthrough_headers;
        body_base64 = tools.encode body;
      })

  -- `upstream` is all of the client's Do, which is net/http's: it follows redirects, to any host, and
  -- gives the last reply.
  unfoldable pub do_request : Request → Result Response
  unfolding prepare read_reply
  do_request req = do up ← prepare req; read_reply (tools.upstream up)
