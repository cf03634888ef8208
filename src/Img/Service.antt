-- ===== src/Img/Service.antt =====
-- internal/img/service.go. net/url and the network are arguments; the cache is Cache.Store.
use pixiv_relay.Cache.Store.{
  DiskLru, Meta, GetFaults, CommitFaults, get, new_writer, copy, commit, config,
}
use pixiv_relay.Common.Errors.{
  Result, ok, err, Error, bad_request, forbidden, bad_gateway, not_found, refuse, ◌>>◌,
}
use pixiv_relay.Prelude.Decimal.{show_ℕ}
use pixiv_relay.Prelude.Int.{ℤ, pos, ltb_ℤ, leb_ℤ}
use pixiv_relay.Prelude.{
  ℕ, zero, suc, Bool, true, false, ◌||◌, not, take, List, [], ◌∷◌, ◌++◌, Option, none, some, Text,
  codes, text_beq, nat_beq, any, is_empty, to_lower, equal_fold, if◌then◌else◌, keep, map,
}

abbrev pub default_allowed_hosts : List Text
default_allowed_hosts = codes "i.pximg.net" ∷ codes "i-f.pximg.net" ∷ codes "s.pximg.net" ∷ []

unfoldable pub allowed_hosts : List Text → List Text
allowed_hosts extra = default_allowed_hosts ++ map to_lower extra

pub record Url : Type 0 where
  pub scheme : Text
  pub host : Text
  pub hostname : Text

abbrev pub Header : Type 0
Header = Text × Text

-- The checks of Fetch: the host in lower case, or the refusal.
unfoldable pub check_parsed : List Text → Option Url → Result Text
check_parsed hosts none = err (bad_request (codes "invalid url"))
check_parsed hosts (some u) = do
  refuse (is_empty u.host) (bad_request (codes "invalid url"))
  refuse (not (equal_fold u.scheme (codes "https")))
      (bad_request (codes "url scheme must be https"))
  refuse (not (any (λ h. text_beq h (to_lower u.hostname)) hosts))
      (forbidden (codes "host not allowed: " ++ to_lower u.hostname))
  ok (to_lower u.hostname)

unfoldable pub check_fetch : (Text → Option Url) → List Text → Text → Result Text
unfolding check_parsed
check_fetch parse hosts raw_url =
    if is_empty raw_url
    then err (bad_request (codes "url is required"))
    else check_parsed hosts (parse raw_url)

-- What a client gets: headers, and a body or an error.
pub data Answer : Type 0 where
  served : List Header → Text → Answer
  refused : List Header → Error → Answer

abbrev pub if_set : Text → Text → List Header
if_set name v = if is_empty v then [] else (name, v) ∷ []

abbrev pub inline_header : Bool → List Header
inline_header true = (codes "Content-Disposition", codes "inline") ∷ []
inline_header false = []

-- How client.Do ends. A reply has its status, three headers, its ContentLength (negative if unknown),
-- and the chunks that reading its body gives until it ends or breaks off, each with what the disk makes
-- of it. `gone_at` says at which chunk the client goes away and how many bytes of it it still takes,
-- if it does.
pub record Reply : Type 0 where
  pub status : ℕ
  pub content_type : Text
  pub length_header : Text
  pub cache_control : Text
  pub content_length : ℤ
  pub chunks : List (Text × Option ℕ)
  pub gone_at : Option (ℕ × ℕ)

-- The chunks that io.Copy reads: the one that the client does not take whole is the last.
abbrev pub read_chunks : Option (ℕ × ℕ) → List (Text × Option ℕ) → List (Text × Option ℕ)
read_chunks none chunks = chunks
read_chunks (some (i, n)) chunks = take (suc i) chunks

abbrev pub passed : List (Text × Option ℕ) → Text
passed [] = []
passed ((p, short) ∷ chunks) = p ++ passed chunks

abbrev pub passed_until : ℕ → ℕ → List (Text × Option ℕ) → Text
passed_until i n [] = []
passed_until zero n ((p, short) ∷ chunks) = take n p
passed_until (suc i) n ((p, short) ∷ chunks) = p ++ passed_until i n chunks

-- The bytes that the client takes.
abbrev pub taken : Option (ℕ × ℕ) → List (Text × Option ℕ) → Text
taken none chunks = passed chunks
taken (some (i, n)) chunks = passed_until i n chunks

abbrev pub hit_answer : Bool → Text × Meta → Answer
hit_answer inline (file, m) =
    served
      (if_set (codes "Content-Type") m.content_type
        ++ ((codes "Content-Length", show_ℕ m.size)
            ∷ (codes "X-Cache", codes "HIT")
            ∷ inline_header inline))
      file

abbrev pub on_hit : Bool → Result (Option (Text × Meta)) → Option Answer
on_hit inline (err e) = none
on_hit inline (ok none) = none
on_hit inline (ok (some hit)) = some (hit_answer inline hit)

module _ {F : Type 0} where
  -- An error of the cache counts as a miss.
  unfoldable pub serve_hit : GetFaults → ℤ → DiskLru F → Text → Bool → DiskLru F × Option Answer
  serve_hit faults now c key inline =
      let (c', hit) = get faults now c key in (c', on_hit inline hit)

  -- The copy into the cache, which TeeReader writes before the client gets its chunk, and the commit, whose error is only logged.
  unfoldable pub tee : Bool → CommitFaults → ℤ → DiskLru F → Text → Reply → DiskLru F
  unfolding new_writer copy
  tee no_temp faults now c key r =
      let fits =
        ltb_ℤ r.content_length (pos 0) || leb_ℤ r.content_length (config c).max_file_bytes in
      if not fits || no_temp
      then c
      else (commit faults now c
          (copy c.cfg (new_writer key r.content_type) (read_chunks r.gone_at r.chunks))).0

  unfoldable pub pass_on :
      Bool → CommitFaults → ℤ → DiskLru F → Text → Bool → Reply → DiskLru F × Answer
  unfolding tee
  pass_on no_temp faults now c key inline r =
      let upstream : Header = (codes "X-Upstream-Status", show_ℕ r.status) in
      if nat_beq r.status 404
      then (c, refused (upstream ∷ []) (not_found (codes "image not found")))
      else if not (nat_beq r.status 200)
      then (
        c,
        refused (upstream ∷ [])
            (bad_gateway (codes "upstream returned status " ++ show_ℕ r.status)),
      )
      else (
        tee no_temp faults now c key r,
        served
            (upstream
              ∷ (if_set (codes "Content-Type") r.content_type
                  ++ (if_set (codes "Content-Length") r.length_header
                      ++ (if_set (codes "Cache-Control") r.cache_control
                          ++ ((codes "X-Cache", codes "MISS") ∷ inline_header inline)))))
            (taken r.gone_at r.chunks),
      )

  unfoldable pub fetch_upstream :
      Bool → CommitFaults → ℤ → DiskLru F → Text → Bool → Option Reply → DiskLru F × Answer
  unfolding pass_on
  fetch_upstream no_temp faults now c key inline none =
      (c, refused [] (bad_gateway (codes "upstream unreachable")))
  fetch_upstream no_temp faults now c key inline (some r) =
      pass_on no_temp faults now c key inline r

-- The keys that are being fetched: whether a request is the first for its key.
unfoldable pub enter_flight : Text → List Text → List Text × Bool
enter_flight key inflight =
    if any (λ k. text_beq k key) inflight then (inflight, false) else (key ∷ inflight, true)

unfoldable pub leave_flight : Text → List Text → List Text
leave_flight key = keep (λ k. not (text_beq k key))

module _ {F : Type 0} where
  abbrev pub lead :
      Bool
      → CommitFaults
      → ℤ
      → DiskLru F
      → List Text
      → Text
      → Bool
      → Option Reply
      → (DiskLru F × List Text) × Option Answer
  lead no_temp faults now c inflight key inline u =
      let (c', answer) = fetch_upstream no_temp faults now c key inline u in
      ((c', leave_flight key inflight), some answer)

  -- A request that is not the first for its key waits.
  abbrev pub join_flight :
      Bool
      → CommitFaults
      → ℤ
      → DiskLru F
      → List Text
      → Text
      → Bool
      → Option Reply
      → Bool
      → (DiskLru F × List Text) × Option Answer
  join_flight no_temp faults now c inflight key inline u false = ((c, inflight), none)
  join_flight no_temp faults now c inflight key inline u true =
      lead no_temp faults now c inflight key inline u

  abbrev pub or_fetch :
      Bool
      → CommitFaults
      → ℤ
      → DiskLru F
      → List Text
      → Text
      → Bool
      → Option Reply
      → Option Answer
      → (DiskLru F × List Text) × Option Answer
  or_fetch no_temp faults now c inflight key inline u (some answer) = ((c, inflight), some answer)
  or_fetch no_temp faults now c inflight key inline u none =
      let (inflight', leads) = enter_flight key inflight in
      join_flight no_temp faults now c inflight' key inline u leads

  -- One round of the loop of Fetch. `none` is a request that waits for the one before it, and then
  -- makes another round.
  unfoldable pub fetch_round :
      GetFaults
      → Bool
      → CommitFaults
      → ℤ
      → DiskLru F
      → List Text
      → Text
      → Bool
      → Option Reply
      → (DiskLru F × List Text) × Option Answer
  unfolding serve_hit enter_flight fetch_upstream leave_flight
  fetch_round get_faults no_temp faults now c inflight key inline u =
      let (c', hit) = serve_hit get_faults now c key inline in
      or_fetch no_temp faults now c' inflight key inline u hit
