-- ===== src/App/Envelope.antt =====
-- What every answer carries: the id of its request, and the header for other origins.
use mathlib.Core.Path.{subst}
use pixiv_relay.App.Routes.{mux-IsKeeper}
use pixiv_relay.Prelude.Table.{find, find-append_ne, find-upsert_self}
use pixiv_relay.App.Headers.{IsForeign, get_header-set_header_ne}
use pixiv_relay.App.Expected.{expected_id, NamesOrigin, id_of-eq-expected_id, names}
use pixiv_relay.App.Mux.{mux, serve}
use pixiv_relay.App.State.{State, Server, Oracle}
use pixiv_relay.Common.Http.{
  Request, Header, get_value, header_name, get_header, set_header, id_of, tagged, request_id,
  access_log, request_id_header,
}
use pixiv_relay.Prelude.{
  ◌≡◌, refl, ap, sym, ◌∙◌, false, List, [], ◌∷◌, ◌++◌, Text, codes, text_beq, text_eq, Bool-cases,
  inl, inr, if◌then◌else◌, arith,
}
use pixiv_relay.Web.Cors.{
  cors, is_cross_origin, is_preflight, allow_origin, origin_headers, preflight_headers,
}

-- A header that is added behind the others.
get_header-append_ne :
    (name : Text) (h : Header) (headers : List Header)
    → text_beq name h.0 ≡ false
    → get_header name (headers ++ h ∷ []) ≡ get_header name headers
unfolding get_header
get_header-append_ne name h headers e = ap get_value (
    find-append_ne header_name name h headers
      (λ same. absurd (ground (arith, e, text_eq.beq_iff name h.0, same))))

get_header-set_header_self :
    (name v : Text) (headers : List Header) → get_header name (set_header name v headers) ≡ v
unfolding get_header set_header
get_header-set_header_self name v headers =
    ap get_value (find-upsert_self header_name (name, v) headers)

id_IsForeign : IsForeign request_id_header
id_IsForeign = record {
  cache_control = refl;
  content_type = refl;
  options = refl;
  retry_after = refl;
  location = refl;
  upstream = refl;
  content_length = refl;
  cache = refl;
  disposition = refl;
}

origin_IsForeign : IsForeign allow_origin
origin_IsForeign = record {
  cache_control = refl;
  content_type = refl;
  options = refl;
  retry_after = refl;
  location = refl;
  upstream = refl;
  content_length = refl;
  cache = refl;
  disposition = refl;
}

-- What the preflight adds is foreign to a name.
preflight_lem :
    (name : Text) (headers : List Header)
    → text_beq name (codes "Access-Control-Max-Age") ≡ false
    → text_beq name (codes "Access-Control-Allow-Headers") ≡ false
    → text_beq name (codes "Access-Control-Allow-Methods") ≡ false
    → get_header name (preflight_headers headers) ≡ get_header name headers
unfolding preflight_headers
preflight_lem name headers a b c =
    get_header-set_header_ne name (codes "Access-Control-Max-Age") _ _ a
    ∙ get_header-set_header_ne name (codes "Access-Control-Allow-Headers") _ _ b
    ∙ get_header-set_header_ne name (codes "Access-Control-Allow-Methods") _ headers c

id_of_origin :
    (origin : Text) (headers : List Header)
    → get_header request_id_header (origin_headers origin headers)
      ≡ get_header request_id_header headers
unfolding origin_headers
id_of_origin origin headers =
    get_header-append_ne request_id_header (codes "Vary", codes "Origin")
      (set_header allow_origin origin headers) refl
    ∙ get_header-set_header_ne request_id_header allow_origin origin headers refl

origin_of_origin :
    (origin : Text) (headers : List Header)
    → get_header allow_origin (origin_headers origin headers) ≡ origin
unfolding origin_headers
origin_of_origin origin headers =
    get_header-append_ne allow_origin (codes "Vary", codes "Origin")
      (set_header allow_origin origin headers) refl
    ∙ get_header-set_header_self allow_origin origin headers

module _ {F R B Ip : Type 0} (server : Server F R B Ip) (oracle : Oracle) where
  -- The origin that an answer names.
  unfoldable pub named_origin : Request → Text
  named_origin r =
      if is_cross_origin server.origins r then get_header (codes "Origin") r.headers else []

  cors_id :
      (r : Request) (headers : List Header) (s : State F R B)
      → get_header request_id_header (cors server.origins (mux server oracle) r headers s).1.headers
        ≡ get_header request_id_header headers
  unfolding cors
  cors_id r headers s = elim (Bool-cases (is_cross_origin server.origins r)) [
    | inl cross ↦ elim (Bool-cases (is_preflight r)) [
      | inl asks ↦
          rw (cross, asks)
            (preflight_lem request_id_header _ refl refl refl ∙ id_of_origin _ headers)
      | inr plain ↦
          rw (cross, plain)
            (mux-IsKeeper request_id_header id_IsForeign server oracle r _ s
              ∙ id_of_origin _ headers)
    ]
    | inr own ↦ rw own (mux-IsKeeper request_id_header id_IsForeign server oracle r headers s)
  ]

  cors_origin :
      (r : Request) (headers : List Header) (s : State F R B)
      → get_header allow_origin headers ≡ []
      → get_header allow_origin (cors server.origins (mux server oracle) r headers s).1.headers
        ≡ named_origin r
  unfolding cors named_origin
  cors_origin r headers s empty = elim (Bool-cases (is_cross_origin server.origins r)) [
    | inl cross ↦ elim (Bool-cases (is_preflight r)) [
      | inl asks ↦
          rw (cross, asks)
            (preflight_lem allow_origin _ refl refl refl ∙ origin_of_origin _ headers)
      | inr plain ↦
          rw (cross, plain)
            (mux-IsKeeper allow_origin origin_IsForeign server oracle r _ s
              ∙ origin_of_origin _ headers)
    ]
    | inr own ↦
        rw own (mux-IsKeeper allow_origin origin_IsForeign server oracle r headers s ∙ empty)
  ]

  -- Whatever is asked for and whatever comes of it, the answer has the id of its request: the one
  -- that the client sent, else the one that was drawn. It names the request's origin where that is
  -- listed and the request is for the interface, and no origin otherwise.
  pub serve_headers :
      (r : Request) (s : State F R B)
      → (get_header request_id_header (serve server oracle r [] s).1.headers
          ≡ expected_id oracle.fresh_id r)
        × NamesOrigin server.origins r
            (get_header allow_origin (serve server oracle r [] s).1.headers)
  unfolding serve request_id access_log find named_origin
  serve_headers r s = (
    cors_id (tagged oracle.fresh_id r) (set_header request_id_header (id_of oracle.fresh_id r) []) s
        ∙ (get_header-set_header_self request_id_header (id_of oracle.fresh_id r) []
            ∙ id_of-eq-expected_id oracle.fresh_id r),
    subst (NamesOrigin server.origins r)
        (sym (
          cors_origin (tagged oracle.fresh_id r)
            (set_header request_id_header (id_of oracle.fresh_id r) []) s
            (get_header-set_header_ne allow_origin request_id_header _ [] refl)))
        (names server.origins r),
  )
