-- ===== src/Web/Spa.antt =====
-- internal/web/spa.go. The file system, path.Clean, path.Ext and the table of MIME types of the host
-- are arguments.
use pixiv_relay.Common.Http.{Header, Response, plain, Handler, set_header}
use pixiv_relay.Prelude.Table.{find}
use pixiv_relay.Prelude.{
  ℕ, ◌||◌, List, [], ◌∷◌, Option, none, some, Text, codes, has_prefix, is_empty, text_beq, text_eq,
  to_lower, cut_prefix, if◌then◌else◌,
}

pub data Node : Type 0 where
  file : Text → Node
  directory : Node

-- `open` is Open with Stat: none where either fails.
pub record Tools : Type 0 where
  pub open_file : Text → Option Node
  pub clean : Text → Text
  pub ext : Text → Text
  pub type_by_extension : Text → Text

abbrev pub content_types : List (Text × Text)
content_types =
    (codes ".html", codes "text/html; charset=utf-8")
    ∷ (codes ".js", codes "text/javascript; charset=utf-8")
    ∷ (codes ".mjs", codes "text/javascript; charset=utf-8")
    ∷ (codes ".css", codes "text/css; charset=utf-8")
    ∷ (codes ".json", codes "application/json; charset=utf-8")
    ∷ (codes ".map", codes "application/json; charset=utf-8")
    ∷ (codes ".png", codes "image/png")
    ∷ (codes ".jpg", codes "image/jpeg")
    ∷ (codes ".jpeg", codes "image/jpeg")
    ∷ (codes ".gif", codes "image/gif")
    ∷ (codes ".webp", codes "image/webp")
    ∷ (codes ".svg", codes "image/svg+xml")
    ∷ (codes ".ico", codes "image/x-icon")
    ∷ (codes ".txt", codes "text/plain; charset=utf-8")
    ∷ (codes ".woff", codes "font/woff")
    ∷ (codes ".woff2", codes "font/woff2")
    ∷ (codes ".ttf", codes "font/ttf")
    ∷ (codes ".wasm", codes "application/wasm")
    ∷ []

abbrev extension : Text × Text → Text
extension e = e.0

abbrev or_octets : Text → Text
or_octets t = if is_empty t then codes "application/octet-stream" else t

abbrev trim_slash : Text → Text
trim_slash p = elim (cut_prefix (codes "/") p) [ none ↦ p | some rest ↦ rest ]

module _ (tools : Tools) where
  unfoldable pub content_type : Text → Text
  content_type name =
      let ext = to_lower (tools.ext name) in
      elim (find extension ext content_types) [
        | none ↦ or_octets (tools.type_by_extension ext)
        | some e ↦ e.1
      ]

  abbrev pub ok_with : Text → Text → Text → List Header → Response
  ok_with kind cache content headers = record {
    status = 200;
    headers =
        set_header (codes "Cache-Control") cache (set_header (codes "Content-Type") kind headers);
    body = plain content;
  }

  -- http.Error.
  unfoldable pub text_error : ℕ → Text → List Header → Response
  unfolding set_header
  text_error status message headers = record {
    status = status;
    headers = set_header (codes "Content-Type") (codes "text/plain; charset=utf-8") headers;
    body = plain message;
  }

  abbrev pub index_of : Option Node → List Header → Response
  index_of (some (file content)) headers =
      ok_with (codes "text/html; charset=utf-8") (codes "no-cache") content headers
  index_of (some directory) headers = text_error 404 (codes "index.html not found") headers
  index_of none headers = text_error 404 (codes "index.html not found") headers

  -- An index.html that is a directory counts as absent here; what Go does then depends on the host.
  unfoldable pub serve_index : List Header → Response
  unfolding text_error
  serve_index = index_of (tools.open_file (codes "index.html"))

  unfoldable pub serve_file : Text → Text → List Header → Response
  unfolding content_type
  serve_file name content headers =
      ok_with (content_type name) (codes "public, max-age=86400") content headers

  abbrev pub serve_node : Text → Option Node → List Header → Response
  serve_node name (some (file content)) headers = serve_file name content headers
  serve_node name (some directory) headers = serve_index headers
  serve_node name none headers = serve_index headers

  unfoldable pub serve_name : Text → List Header → Response
  unfolding serve_index serve_file text_error
  serve_name name headers =
      if has_prefix (codes "..") name
      then text_error 400 (codes "invalid path") headers
      else if text_beq name (codes "index.html")
      then serve_index headers
      else serve_node name (tools.open_file name) headers

  -- The path below the root of the files.
  unfoldable pub static_name : Text → Text
  static_name path =
      let name = tools.clean (trim_slash path) in
      if text_beq name (codes ".") || is_empty name then codes "index.html" else name

  unfoldable pub spa : {S : Type 0} → Handler S
  unfolding serve_name static_name set_header
  spa r headers s = (
    s,
    serve_name (static_name r.path)
        (set_header (codes "X-Content-Type-Options") (codes "nosniff") headers),
  )
