-- ===== src/Recover/Query.antt =====
-- Query of internal/recover/service.go: the answer to a client, and the search that it may start.
use pixiv_relay.Common.Errors.{Result, ok, err, Error, bad_request}
use pixiv_relay.Prelude.Int.{ℤ}
use pixiv_relay.Prelude.{
  ℕ, ◌+◌, ◌-◌, ◌/◌, ◌%◌, Bool, ◌&&◌, ◌||◌, not, List, [], ◌∷◌, ◌++◌, Option, none, some, Text,
  codes, ltb, leb, nat_beq, any, is_empty, if◌then◌else◌, map, utf8,
}
use pixiv_relay.Recover.Queue.{Queue, Codec, CacheRow, not_found, lookup, enqueue}
use pixiv_relay.Recover.Sources.{Page}
use pixiv_relay.Sync.Json.{Value}

abbrev is_digit : ℕ → Bool
is_digit c = leb b'0' c && leb c b'9'

unfoldable pub is_numeric : Text → Bool
is_numeric pid = not (is_empty pid) && not (any (λ c. not (is_digit c)) pid)

-- url.QueryEscape
abbrev is_unreserved : ℕ → Bool
is_unreserved c =
    is_digit c
    || (leb b'a' c && leb c b'z')
    || (leb b'A' c && leb c b'Z')
    || any (nat_beq c) (codes "-_.~")

abbrev hex_digit : ℕ → ℕ
hex_digit d = if ltb d 10 then b'0' + d else b'A' + (d - 10)

abbrev escaped : List ℕ → Text
escaped [] = []
escaped (b ∷ bytes) = b'%' ∷ hex_digit (b / 16) ∷ hex_digit (b % 16) ∷ escaped bytes

unfoldable pub query_escape : Text → Text
query_escape [] = []
query_escape (c ∷ s) =
    let rest = query_escape s in
    if is_unreserved c
    then c ∷ rest
    else if nat_beq c b' '
    then b'+' ∷ rest
    else escaped (utf8 c) ++ rest

unfoldable pub request_base : Bool → Text → Text
request_base tls host = (if tls then codes "https" else codes "http") ++ (codes "://" ++ host)

unfoldable pub wrap_page : Text → Page → Page
unfolding query_escape
wrap_page base p = record p { url = base ++ (codes "/img/v1/fetch?url=" ++ query_escape p.url) }

-- The bodies of 404, 200 and 202, and the refusals.
pub data Answer : Type 0 where
  gone : Answer
  recovered : List Page → Text → List (Text × Value) → Answer
  wait : Answer
  refused : Error → Answer

module _ (codec : Codec) where
  unfoldable pub answer_row :
      Bool → ℤ → ℕ → Text → Text → Queue → Result (Option CacheRow) → Queue × Answer
  answer_row fails now account pid base q (err e) = (q, refused e)
  answer_row fails now account pid base q (ok none) = (enqueue fails now account pid q, wait)
  answer_row fails now account pid base q (ok (some row)) = (
    q,
    elim row.status [
      | not_found ↦ gone
      | _ ↦ recovered (map (wrap_page base) row.pages) row.source row.meta
    ],
  )

  -- A whole request, with no other between its lookup and its answer.
  unfoldable pub query : Bool → Bool → Bool → ℤ → ℕ → Text → Text → Queue → Queue × Answer
  query lookup_fails mark_fails shared now account pid base q =
      if is_numeric pid
      then answer_row mark_fails now account pid base q
          (lookup codec lookup_fails shared now account pid q.rows)
      else (q, refused (bad_request (codes "pid must be numeric")))
