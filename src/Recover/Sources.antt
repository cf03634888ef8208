-- ===== src/Recover/Sources.antt =====
-- internal/recover/sources: the shared download, mirror.go and snapshot.go. The cache of images and
-- the network are arguments; what they hold is threaded as a state of any type.
use pixiv_relay.Prelude.Decimal.{show_ℕ}
use pixiv_relay.Prelude.Int.{ℤ, pos, leb_ℤ}
use pixiv_relay.Prelude.{
  ℕ, suc, zero, ◌+◌, Bool, true, false, ◌&&◌, ◌||◌, not, List, [], ◌∷◌, ◌++◌, Option, none, some,
  Text, codes, ltb, leb, nat_beq, length, has_prefix, to_lower, if◌then◌else◌,
}

pub record Page : Type 0 where
  pub page : ℕ
  pub url : Text
  pub width : ℤ
  pub height : ℤ

pub record Snapshot (J : Type 0) : Type 0 where
  pub image_urls : List Text
  pub width : ℤ
  pub height : ℤ
  pub meta : List (Text × J)

-- ErrNotFound, or any other error.
pub data Failure : Type 0 where
  missing broken : Failure

pub data Fetched (A : Type 0) : Type 0 where
  found : A → Fetched A
  failed : Failure → Fetched A

pub record Reply : Type 0 where
  pub status : ℕ
  pub content_type : Text
  pub body : Text

-- What a source asks of the world. `get` and `put` are the image cache's; `request` is one call of
-- the network, `none` where it fails; `copies` and `rewinds` say whether the temporary file works;
-- `dims` decodes a picture's size, 0 and 0 where it cannot.
pub record Deps (C : Type 0) : Type 0 where
  pub get : C → Text → C × Option Text
  pub put : C → Text → Text → Text → C × Bool
  pub request : C → Text → Text → Text → C × Option Reply
  pub key : Text → Text
  pub copies : Text → Bool
  pub rewinds : Text → Bool
  pub dims : Text → ℤ × ℤ
  pub max_file : ℕ

abbrev pub min_image_bytes : ℕ
min_image_bytes = 1024

abbrev pub max_pages : ℕ
max_pages = 50

abbrev pub Size : Type 0
Size = Fetched (ℤ × ℤ)

module _ {C : Type 0} (deps : Deps C) where
  -- From the copy to the cache.
  unfoldable pub store_image : C → Text → Reply → C × Size
  store_image c url r =
      if not (deps.copies url)
      then (c, failed broken)
      else if ltb deps.max_file (length r.body) || leb (length r.body) min_image_bytes
      then (c, failed missing)
      else if not (deps.rewinds url)
      then (c, failed broken)
      else let (c', kept) = deps.put c (deps.key url) r.content_type r.body in
        (c', if kept then found (deps.dims r.body) else failed broken)

  -- fetchImage behind the request.
  unfoldable pub read_reply : C → Text → Option Reply → C × Size
  unfolding store_image
  read_reply c url none = (c, failed broken)
  read_reply c url (some r) =
      if nat_beq r.status 404
      then (c, failed missing)
      else if not (nat_beq r.status 200)
      then (c, failed broken)
      else if not (has_prefix (codes "image/") (to_lower r.content_type))
      then (c, failed missing)
      else store_image c url r

  unfoldable pub fetch_image : C → Text → C × Size
  unfolding read_reply
  fetch_image c url =
      let (c', hit) = deps.get c (deps.key url) in
      elim hit [
        | some file ↦ (c', found (deps.dims file))
        | none ↦ let (c'', r) = deps.request c' (codes "GET") url [] in read_reply c'' url r
      ]

  abbrev pub is_alive : Reply → Bool
  is_alive r =
      (nat_beq r.status 200 || nat_beq r.status 206)
      && has_prefix (codes "image/") (to_lower r.content_type)

  -- HEAD first, and a range of one byte where the server does not take HEAD.
  unfoldable pub probe_alive : C → Text → C × Bool
  probe_alive c url =
      let (c', head) = deps.request c (codes "HEAD") url [] in
      elim head [
        | none ↦ (c', false)
        | some r ↦
            if nat_beq r.status 405 || nat_beq r.status 501
            then (let (c'', part) = deps.request c' (codes "GET") url (codes "bytes=0-0") in
                (c'', elim part [ none ↦ false | some r ↦ is_alive r ]))
            else (c', is_alive r)
      ]

  abbrev pub page_url : Text → ℕ → Text
  page_url base n = base ++ (codes "_p" ++ (show_ℕ n ++ codes ".jpg"))

  abbrev pub page_of : ℕ → Text → ℤ × ℤ → Page
  page_of n url (w, h) = record { page = n; url = url; width = w; height = h }

  abbrev pub put_first : Page → C × Fetched (List Page) → C × Fetched (List Page)
  put_first p (c, found pages) = (c, found (p ∷ pages))
  put_first p (c, failed f) = (c, failed f)

  -- The loop of Mirror.Fetch: `left` rounds remain, and `miss` pages in a row were not there.
  unfoldable pub probe_pages : ℕ → C → Text → ℕ → ℕ → C × Fetched (List Page)
  probe_pages zero c base n miss = (c, found [])
  probe_pages (suc left) c base n miss = elim (leb 2 miss) [
    | true ↦ (c, found [])
    | false ↦
        let (c', size) = fetch_image c (page_url base n) in
        elim size [
          | found d ↦ put_first (page_of n (page_url base n) d) (probe_pages left c' base (n + 1) 0)
          | failed missing ↦ probe_pages left c' base (n + 1) (miss + 1)
          | failed broken ↦ (c', failed broken)
        ]
  ]

  abbrev pub mirror_base : Text → Text → Text
  mirror_base host pid = codes "https://" ++ (host ++ b'/' ∷ pid)

  unfoldable pub fetch_mirror : Text → C → Text → C × Fetched (List Page)
  unfolding probe_pages
  fetch_mirror host c pid =
      let base = mirror_base host pid in
      let (c', size) = fetch_image c (base ++ codes ".jpg") in
      elim size [
        | failed f ↦ (c', failed f)
        | found d ↦ put_first (page_of 0 (base ++ codes ".jpg") d) (probe_pages 49 c' base 1 0)
      ]

  abbrev pub or_given : ℤ → ℤ → ℤ
  or_given given w = if leb_ℤ w (pos 0) && leb_ℤ (pos 0) w then given else w

  -- The loop of SnapshotSource.Fetch.
  unfoldable pub fetch_urls : ℤ → ℤ → C → ℕ → List Text → C × List Page
  unfolding probe_alive fetch_image
  fetch_urls width height c i [] = (c, [])
  fetch_urls width height c i (u ∷ urls) =
      let (c', alive) = probe_alive c u in
      elim alive [
        | false ↦ fetch_urls width height c' (i + 1) urls
        | true ↦
            let (c'', size) = fetch_image c' u in
            elim size [
              | failed f ↦ fetch_urls width height c'' (i + 1) urls
              | found (w, h) ↦
                  let (end, pages) = fetch_urls width height c'' (i + 1) urls in
                  (end, page_of i u (or_given width w, or_given height h) ∷ pages)
            ]
      ]

  abbrev pub unless_empty : List Page → Fetched (List Page)
  unless_empty [] = failed missing
  unless_empty (p ∷ pages) = found (p ∷ pages)

  unfoldable pub fetch_snapshot : {J : Type 0} → C → Option (Snapshot J) → C × Fetched (List Page)
  unfolding fetch_urls
  fetch_snapshot c none = (c, failed missing)
  fetch_snapshot c (some snap) =
      let (end, pages) = fetch_urls snap.width snap.height c 0 snap.image_urls in
      (end, unless_empty pages)
