-- ===== src/App/Headers.antt =====
-- The headers that handlers leave alone: all but those that they set themselves.
use pixiv_relay.App.Member.{admit, authenticated}
use pixiv_relay.App.State.{State, Server, Oracle}
use pixiv_relay.Auth.Store.{Identity}
use pixiv_relay.Common.Errors.{Result, ok, err, Error}
use pixiv_relay.Common.Http.{
  Request, Response, Header, Handler, get_header, set_header, get_value, header_name, write_raw,
  write_json, respond_error, respond, pass_limit, limited,
}
use pixiv_relay.Common.Limits.{Buckets, Limiter}
use pixiv_relay.Prelude.Int.{ℤ}
use pixiv_relay.Prelude.Table.{find-upsert_ne}
use pixiv_relay.Prelude.{
  ℕ, ◌≡◌, refl, ap, ◌∙◌, Bool, true, false, List, Text, codes, text_beq, text_eq, arith,
}
use pixiv_relay.Sync.Json.{Value, null, bool, num, str, arr, obj, Fields, end}

-- The name is none of those that handlers set.
pub record IsForeign (name : Text) : Type 0 where
  pub cache_control : text_beq name (codes "Cache-Control") ≡ false
  pub content_type : text_beq name (codes "Content-Type") ≡ false
  pub options : text_beq name (codes "X-Content-Type-Options") ≡ false
  pub retry_after : text_beq name (codes "Retry-After") ≡ false
  pub location : text_beq name (codes "Location") ≡ false
  pub upstream : text_beq name (codes "X-Upstream-Status") ≡ false
  pub content_length : text_beq name (codes "Content-Length") ≡ false
  pub cache : text_beq name (codes "X-Cache") ≡ false
  pub disposition : text_beq name (codes "Content-Disposition") ≡ false

pub get_header-set_header_ne :
    (name n v : Text) (headers : List Header)
    → text_beq name n ≡ false
    → get_header name (set_header n v headers) ≡ get_header name headers
unfolding get_header set_header
get_header-set_header_ne name n v headers h = ap get_value (
    find-upsert_ne header_name (n, v) name headers
      (λ e. absurd (ground (arith, h, text_eq.beq_iff name n, e))))

module _ (name : Text) (f : IsForeign name) where
  abbrev pub Keeps : List Header → Response → Type 0
  Keeps headers response = get_header name response.headers ≡ get_header name headers

  pub write_raw-Keeps :
      (status : ℕ) (fields : Fields) (headers : List Header)
      → Keeps headers (write_raw status fields headers)
  unfolding write_raw
  write_raw-Keeps status fields headers =
      get_header-set_header_ne name (codes "Cache-Control") _ _ f.cache_control
      ∙ get_header-set_header_ne name (codes "X-Content-Type-Options") _ _ f.options
      ∙ get_header-set_header_ne name (codes "Content-Type") _ headers f.content_type

  pub write_json-Keeps :
      (r : Request) (status : ℕ) (v : Value) (headers : List Header)
      → Keeps headers (write_json r status v headers)
  unfolding write_json
  write_json-Keeps r status null headers = refl
  write_json-Keeps r status (bool b) headers = write_raw-Keeps 0 end headers
  write_json-Keeps r status (num n) headers = write_raw-Keeps 0 end headers
  write_json-Keeps r status (str s) headers = write_raw-Keeps 0 end headers
  write_json-Keeps r status (arr items) headers = write_raw-Keeps 0 end headers
  write_json-Keeps r status (obj fields) headers = write_raw-Keeps 0 end headers

  pub respond_error-Keeps :
      (r : Request) (e : Error) (headers : List Header) → Keeps headers (respond_error r e headers)
  unfolding respond_error
  respond_error-Keeps r e headers = write_raw-Keeps 0 end headers

  pub respond-Keeps :
      {A : Type 0} (r : Request) (payload : A → Value) (result : Result A) (headers : List Header)
      → Keeps headers (respond r payload result headers)
  unfolding respond
  respond-Keeps r payload (ok a) headers = write_json-Keeps r 200 (payload a) headers
  respond-Keeps r payload (err e) headers = respond_error-Keeps r e headers

  -- The handler keeps the header, whatever it gets.
  abbrev pub IsKeeper : {S : Type 0} → Handler S → Type 0
  IsKeeper {S} h = (r : Request) (headers : List Header) (s : S) → Keeps headers (h r headers s).1

  module _ {F R B S : Type 0} (lib : Buckets F R B) (limiter : S → Limiter R B)
      (with_limiter : Limiter R B → S → S) (now : ℤ) (key : Request → Text) (next : Handler S)
      (k : IsKeeper next) where
    pass_limit-Keeps :
        (r : Request) (headers : List Header) (s : S) (v : Bool × ℤ)
        → Keeps headers (pass_limit lib limiter with_limiter next r headers s v).1
    pass_limit-Keeps r headers s (true, retry) = k r headers s
    pass_limit-Keeps r headers s (false, retry) =
        respond_error-Keeps r _ _
        ∙ get_header-set_header_ne name (codes "Retry-After") _ headers f.retry_after

    pub limited-IsKeeper : IsKeeper (limited lib limiter with_limiter now key next)
    unfolding limited
    limited-IsKeeper r headers s = pass_limit-Keeps r headers _ _

  module _ {F R B Ip : Type 0} (server : Server F R B Ip) (oracle : Oracle)
      (next : Handler (State F R B)) (k : IsKeeper next) where
    admit-Keeps :
        (r : Request) (headers : List Header) (s : State F R B) (who : Result Identity)
        → Keeps headers (admit server oracle next r headers s who).1
    admit-Keeps r headers s (ok who) = k _ headers s
    admit-Keeps r headers s (err e) = respond_error-Keeps r e headers

    pub authenticated-IsKeeper : IsKeeper (authenticated server oracle next)
    unfolding authenticated
    authenticated-IsKeeper r headers s = admit-Keeps r headers s _
