-- ===== src/Common/Http.antt =====
-- Requests and responses as the handlers see them: response.go, requestid.go, middleware.go and
-- validate.go of internal/common, and the middleware of ratelimit.go. A header's name is as Go
-- writes it; the JSON text of a body is not modelled, its fields are.
use pixiv_relay.Common.Errors.{Result, ok, err, Error, bad_request, rate_limited, write_error}
use pixiv_relay.Common.Limits.{Buckets, Limiter, allow}
use pixiv_relay.Common.Redact.{Attrs, nil, attr, text}
use pixiv_relay.Prelude.Decimal.{show_ℕ, format_int}
use pixiv_relay.Prelude.Int.{ℤ}
use pixiv_relay.Prelude.Table.{find, upsert}
use pixiv_relay.Prelude.{
  ℕ, ◌^◌, Bool, true, false, List, [], ◌∷◌, ◌++◌, Option, none, some, Text, codes, length, take,
  ltb, is_empty, text_beq, text_eq, if◌then◌else◌,
}
use pixiv_relay.Sync.Json.{Value, null, str, obj, Fields, end, field}

abbrev pub Header : Type 0
Header = Text × Text

abbrev pub header_name : Header → Text
header_name h = h.0

-- `request_id` and `account` are what the context holds; the query is parsed.
pub record Request : Type 0 where
  pub method : Text
  pub path : Text
  pub query : List (Text × Text)
  pub headers : List Header
  pub body : Text
  pub remote : Text
  pub request_id : Text
  pub account : Option ℕ

-- `aborted` is a handler that panics; `waits` is one that has not answered yet.
pub data Body : Type 0 where
  json : Fields → Body
  plain : Text → Body
  aborted waits : Body

pub record Response : Type 0 where
  pub status : ℕ
  pub headers : List Header
  pub body : Body

-- A handler gets the headers that were set before it.
abbrev pub Handler : Type 0 → Type 0
Handler S = Request → List Header → S → S × Response

abbrev pub get_value : Option Header → Text
get_value none = []
get_value (some h) = h.1

-- Header.Get and Query().Get: the first value, or the empty text.
unfoldable pub get_header : Text → List Header → Text
get_header name headers = get_value (find header_name name headers)

-- Header.Set.
unfoldable pub set_header : Text → Text → List Header → List Header
set_header name v headers = upsert header_name (name, v) headers

abbrev pub object : List (Text × Value) → Fields
object [] = end
object ((k, v) ∷ fs) = field k v (object fs)

-- body[key] = v
unfoldable pub set_field : Text → Value → Fields → Fields
set_field key v end = field key v end
set_field key v (field k w fs) =
    let rest = set_field key v fs in if text_beq k key then field key v fs else field k w rest

unfoldable pub write_raw : ℕ → Fields → List Header → Response
unfolding set_header
write_raw status fields headers = record {
  status = status;
  headers = set_header (codes "Cache-Control") (codes "no-store") (
      set_header (codes "X-Content-Type-Options") (codes "nosniff")
        (set_header (codes "Content-Type") (codes "application/json; charset=utf-8") headers));
  body = json fields;
}

-- WriteJSON; a null leaves a nil map, into which nothing can be written.
unfoldable pub write_json : Request → ℕ → Value → List Header → Response
unfolding write_raw set_field
write_json r status null headers = record { status = 0; headers = headers; body = aborted }
write_json r status (obj fields) headers =
    write_raw status (set_field (codes "requestId") (str r.request_id) fields) headers
write_json r status v headers =
    write_raw status (object ((codes "data", v) ∷ ((codes "requestId", str r.request_id) ∷ [])))
      headers

-- WriteError.
unfoldable pub respond_error : Request → Error → List Header → Response
unfolding write_raw write_error
respond_error r e headers =
    write_raw (write_error e).status
      (object (
        (
          codes "error",
          obj (
              object (
                (codes "code", str (write_error e).code)
                ∷ ((codes "message", str (write_error e).message)
                    ∷ ((codes "requestId", str r.request_id) ∷ [])))),
        )
        ∷ []))
      headers

-- The answer to a result: the error, or what `payload` makes of the value.
unfoldable pub respond : {A : Type 0} → Request → (A → Value) → Result A → List Header → Response
unfolding write_json respond_error
respond r payload (err e) headers = respond_error r e headers
respond r payload (ok a) headers = write_json r 200 (payload a) headers

-- The limit of a body: 1 MB.
abbrev pub max_body : ℕ
max_body = 2 ^ 20

-- DecodeJSON. The decoder gets the bytes that may be read, and whether the reader then fails.
unfoldable pub decode_json : {A : Type 0} → (Text → Bool → Option A) → Text → Result A
decode_json decode body = elim (decode (take max_body body) (ltb max_body (length body))) [
  | none ↦ err (bad_request (codes "invalid JSON body"))
  | some a ↦ ok a
]

-- newRequestID, of the time and the random hex.
unfoldable pub new_request_id : ℤ → Text → Text
new_request_id now hex = format_int now ++ b'_' ∷ hex

abbrev pub request_id_header : Text
request_id_header = codes "X-Request-Id"

-- The client's id, or the one that was drawn.
unfoldable pub id_of : Text → Request → Text
unfolding get_header
id_of fresh r =
    let given = get_header request_id_header r.headers in if is_empty given then fresh else given

abbrev pub tagged : Text → Request → Request
tagged fresh r = record r { request_id = id_of fresh r }

abbrev pub log_line : Request → ℕ → ℤ → Attrs
log_line r status ms = attr (codes "method") (text r.method) (
    attr (codes "path") (text r.path) (
      attr (codes "status") (text (show_ℕ status)) (
        attr (codes "durMs") (text (format_int ms))
          (attr (codes "requestId") (text r.request_id) nil))))

module _ {S : Type 0} where
  -- RequestID; `fresh` is the id that is drawn if the client sends none.
  unfoldable pub request_id : Text → Handler S → Handler S
  unfolding set_header
  request_id fresh next r headers s =
      next (tagged fresh r) (set_header request_id_header (id_of fresh r) headers) s

  -- The line is written once the next handler has returned.
  abbrev pub logged : (Attrs → S → S) → Attrs → Body → S → S
  logged write line (json fields) s = write line s
  logged write line (plain content) s = write line s
  logged write line aborted s = s
  logged write line waits s = s

  -- AccessLog; `write` adds a line to the log, and `ms` is the time that the request took.
  unfoldable pub access_log : (Attrs → S → S) → ℤ → Handler S → Handler S
  access_log write ms next r headers s =
      let (s', response) = next r headers s in
      (logged write (log_line r response.status ms) response.body s', response)

module _ {F R B S : Type 0} (lib : Buckets F R B) (limiter : S → Limiter R B)
    (with_limiter : Limiter R B → S → S) where
  abbrev pub pass_limit : Handler S → Request → List Header → S → Bool × ℤ → S × Response
  pass_limit next r headers s (true, retry) = next r headers s
  pass_limit next r headers s (false, retry) = (
    s,
    respond_error r rate_limited (set_header (codes "Retry-After") (format_int retry) headers),
  )

  -- Middleware of a limiter that the state holds.
  unfoldable pub limited : ℤ → (Request → Text) → Handler S → Handler S
  unfolding allow
  limited now key next r headers s =
      let (l, verdict) = allow lib now (key r) (limiter s) in
      pass_limit next r headers (with_limiter l s) verdict
