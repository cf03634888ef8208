-- ===== src/App/Files.antt =====
-- The headers that internal/web/spa.go leaves alone.
use pixiv_relay.App.Headers.{IsForeign, get_header-set_header_ne, Keeps, IsKeeper}
use pixiv_relay.Common.Http.{Header}
use pixiv_relay.Prelude.{
  ℕ, ◌∙◌, Option, none, some, List, Text, codes, text_beq, has_prefix, Bool-cases, inl, inr,
}
use pixiv_relay.Web.Spa.{
  ok_with, text_error, index_of, serve_node, content_type, spa, serve_name, serve_index, serve_file,
  static_name, Node, file, directory, Tools,
}

module _ (name : Text) (f : IsForeign name) where
  module _ (tools : Tools) where
    ok_with-Keeps :
        (kind cache content : Text) (headers : List Header)
        → Keeps name f headers (ok_with tools kind cache content headers)
    ok_with-Keeps kind cache content headers =
        get_header-set_header_ne name (codes "Cache-Control") cache _ f.cache_control
        ∙ get_header-set_header_ne name (codes "Content-Type") kind headers f.content_type

    text_error-Keeps :
        (status : ℕ) (message : Text) (headers : List Header)
        → Keeps name f headers (text_error tools status message headers)
    unfolding text_error
    text_error-Keeps status message headers =
        get_header-set_header_ne name (codes "Content-Type") _ headers f.content_type

    index_of-Keeps :
        (o : Option Node) (headers : List Header) → Keeps name f headers (index_of tools o headers)
    index_of-Keeps (some (file content)) headers = ok_with-Keeps _ _ content headers
    index_of-Keeps (some directory) headers = text_error-Keeps 404 _ headers
    index_of-Keeps none headers = text_error-Keeps 404 _ headers

    index-Keeps : (headers : List Header) → Keeps name f headers (serve_index tools headers)
    unfolding serve_index
    index-Keeps headers = index_of-Keeps (tools.open_file (codes "index.html")) headers

    node-Keeps :
        (path : Text) (o : Option Node) (headers : List Header)
        → Keeps name f headers (serve_node tools path o headers)
    unfolding serve_file
    node-Keeps path (some (file content)) headers =
        ok_with-Keeps (content_type tools path) _ content headers
    node-Keeps path (some directory) headers = index-Keeps headers
    node-Keeps path none headers = index-Keeps headers

    name-Keeps :
        (path : Text) (headers : List Header) → Keeps name f headers (serve_name tools path headers)
    unfolding serve_name
    name-Keeps path headers = elim (Bool-cases (has_prefix (codes "..") path)) [
      | inl up ↦ rw up (text_error-Keeps 400 (codes "invalid path") headers)
      | inr down ↦ elim (Bool-cases (text_beq path (codes "index.html"))) [
        | inl index ↦ rw (down, index) (index-Keeps headers)
        | inr other ↦ rw (down, other) (node-Keeps path (tools.open_file path) headers)
      ]
    ]

    pub spa-IsKeeper : {S : Type 0} → IsKeeper name f (spa tools {S = S})
    unfolding spa
    spa-IsKeeper r headers s =
        name-Keeps (static_name tools r.path) _
        ∙ get_header-set_header_ne name (codes "X-Content-Type-Options") _ headers f.options
