-- ===== src/Web/Cors.antt =====
-- internal/web/cors.go.
use pixiv_relay.Common.Http.{Header, Request, plain, Handler, get_header, set_header}
use pixiv_relay.Prelude.{
  Bool, ◌&&◌, not, List, [], ◌∷◌, ◌++◌, Text, codes, any, has_prefix, is_empty, text_beq,
  if◌then◌else◌,
}

abbrev api_path_prefixes : List Text
api_path_prefixes =
    codes "/auth/"
    ∷ codes "/relay/"
    ∷ codes "/img/"
    ∷ codes "/sync/"
    ∷ codes "/recover/"
    ∷ codes "/admin/"
    ∷ codes "/healthz"
    ∷ []

unfoldable pub is_api_path : Text → Bool
is_api_path p = any (λ prefix. has_prefix prefix p) api_path_prefixes

abbrev pub allow_origin : Text
allow_origin = codes "Access-Control-Allow-Origin"

-- Whether the origin's requests get headers of their own.
unfoldable pub is_cross_origin : List Text → Request → Bool
unfolding get_header is_api_path
is_cross_origin origins r =
    let origin = get_header (codes "Origin") r.headers in
    not (is_empty origin) && (any (λ o. text_beq o origin) origins && is_api_path r.path)

unfoldable pub is_preflight : Request → Bool
unfolding get_header
is_preflight r =
    text_beq r.method (codes "OPTIONS")
    && not (is_empty (get_header (codes "Access-Control-Request-Method") r.headers))

-- Header().Set of the origin, and Add of Vary.
unfoldable pub origin_headers : Text → List Header → List Header
unfolding set_header
origin_headers origin headers =
    set_header allow_origin origin headers ++ (codes "Vary", codes "Origin") ∷ []

unfoldable pub preflight_headers : List Header → List Header
unfolding set_header
preflight_headers headers = set_header (codes "Access-Control-Max-Age") (codes "86400") (
    set_header (codes "Access-Control-Allow-Headers") (codes "Authorization, Content-Type") (
      set_header (codes "Access-Control-Allow-Methods") (codes "GET, POST, PATCH, DELETE, OPTIONS")
        headers))

-- CORS. With no origins it is the handler itself, as no origin is then allowed.
unfoldable pub cors : {S : Type 0} → List Text → Handler S → Handler S
unfolding is_cross_origin is_preflight origin_headers preflight_headers
cors origins next r headers s =
    if not (is_cross_origin origins r)
    then next r headers s
    else (let own = origin_headers (get_header (codes "Origin") r.headers) headers in
        if is_preflight r
        then (s, record { status = 204; headers = preflight_headers own; body = plain [] })
        else next r own s)
