-- ===== src/Sync/Pull/Complete.antt =====
-- A client that follows the tokens of its pages sees every row once.
use mathlib.Core.Path.{subst, ap₂}
use pixiv_relay.Crypto.{Cipher}
use pixiv_relay.Common.Errors.{Result, ok, err, Error, internal, ◌>>=◌}
use pixiv_relay.Prelude.Int.{ℤ, pos, two63, int_eq}
use pixiv_relay.Prelude.Table.{HasDistinctKeys}
use pixiv_relay.Prelude.{
  byte_length, ℕ, suc, zero, ◌+◌, ◌-◌, ◌≡◌, ◌<◌, ◌≤◌, refl, ap, ◌∙◌, sym, true, false, List, ◌++◌,
  some, arith, Text, codes, drop, take, All, Bool-cases, inl, inr, length, ltb, ltb→lt, is_empty,
  take_of_length-le, take-append-drop,
}
use pixiv_relay.Sync.Pull.Order.{row_seq, All-row_at}
use pixiv_relay.Sync.Pull.Pages.{
  rows_of, rows_since-drop, All-rows_since, length-take-le_length, open_rows-append,
  length-open_rows, open_rows-take, open_rows-err, take-take, row_at-take, length-take-le,
  length-drop-lt,
}
use pixiv_relay.Sync.Pull.{
  PullItem, PullResponse, rows_since, open_rows, row_at, page_token, since_seq, answer, page_from,
  pull,
}
use pixiv_relay.Sync.Store.{Entry, Service, valid_domain, is_beyond_retention}
use pixiv_relay.Sync.Token.RoundTrip.{parse_token-format_token}
use pixiv_relay.Sync.Token.{format_token}

-- A row whose number still counts as a cursor at time `now`.
pub record IsRecent (now : ℤ) (e : Entry) : Type 0 where
  pub number : ℕ
  pub seq_lem : e.seq ≡ pos number
  pub fits : number < two63
  pub young : is_beyond_retention now (pos number) ≡ false

pub format_token-ne-empty : (q : ℤ) (hex : Text) → is_empty (format_token q hex) ≡ false
unfolding format_token
format_token-ne-empty q hex = refl

since_seq-recent :
    (now : ℤ) (e : Entry) (hex : Text)
    → byte_length hex ≡ 6
    → IsRecent now e
    → since_seq now (format_token e.seq hex) ≡ ok e.seq
unfolding since_seq
since_seq-recent now e hex six r =
    let parsed = parse_token-format_token r.number hex r.fits six in
    rw r.seq_lem (ground (arith, parsed, format_token-ne-empty (pos r.number) hex, r.young))

module _ (c : Cipher) (hex : Text) (s : Service) (account : ℕ) (domain : Text) (now : ℤ)
    (limit : ℕ) where
  -- The client: it asks for the next page with the token of the last one, as long as there is more.
  -- The fuel bounds the pages.
  unfoldable pub pull_all : ℕ → Text → Result (List PullItem)
  pull_all zero since = err (internal (codes "out of fuel"))
  pull_all (suc f) since = elim (pull c true hex s account domain now since limit) [
    | err e ↦ err e
    | ok r ↦ elim r.has_more [
      | false ↦ ok r.items
      | true ↦ pull_all f r.sync_token >>= λ rest. ok (r.items ++ rest)
    ]
  ]

  abbrev rows_after : ℤ → List Entry
  rows_after = rows_since s.entries account domain

module _ (c : Cipher) (hex : Text) (s : Service) (account : ℕ) (domain : Text) (now : ℤ) (i : ℕ)
    (valid : valid_domain domain ≡ true) (six : byte_length hex ≡ 6)
    (distinct : HasDistinctKeys row_seq (rows_of s.entries account domain))
    (recent : All (IsRecent now) (rows_of s.entries account domain)) where
  pull-page_from :
      (since : Text) (q : ℤ)
      → since_seq now since ≡ ok q
      → pull c true hex s account domain now since (suc i)
        ≡ page_from c true hex s account domain (suc i) q
  unfolding pull
  pull-page_from since q h = rw (valid, h)

  abbrev after : ℤ → List Entry
  after = rows_since s.entries account domain

  abbrev first_rows : ℤ → List Entry
  first_rows q = take (suc (suc i)) (after q)

  page_from_lem :
      (q : ℤ)
      → page_from c true hex s account domain (suc i) q ≡ (
          open_rows c (first_rows q) >>= λ items.
          ok (answer c true hex s account domain (suc i) (first_rows q) items))
  unfolding page_from
  page_from_lem q =
      let e : suc i + 1 ≡ suc (suc i) = omega arith in
      ap
        (λ n. open_rows c (take n (after q)) >>= λ items.
          ok (answer c true hex s account domain (suc i) (take n (after q)) items))
        e

  page_token_lem :
      (rows : List Entry) (e : Entry)
      → row_at rows i ≡ some e
      → page_token hex rows (suc i) ≡ format_token e.seq hex
  unfolding page_token
  page_token_lem rows e h = let k : suc i - 1 ≡ i = omega arith in ground (arith, k)

  abbrev everything : ℕ → Text → Result (List PullItem)
  everything = pull_all c hex s account domain now (suc i)

  pull_all-err :
      (f : ℕ) (since : Text) (e : Error)
      → pull c true hex s account domain now since (suc i) ≡ err e
      → everything (suc f) since ≡ err e
  unfolding pull_all
  pull_all-err f since e h = ground arith

  pull_all-last :
      (f : ℕ) (since : Text) (r : PullResponse)
      → pull c true hex s account domain now since (suc i) ≡ ok r
      → r.has_more ≡ false
      → everything (suc f) since ≡ ok r.items
  unfolding pull_all
  pull_all-last f since r h k = ground arith

  pull_all-more :
      (f : ℕ) (since : Text) (r : PullResponse)
      → pull c true hex s account domain now since (suc i) ≡ ok r
      → r.has_more ≡ true
      → everything (suc f) since ≡ (everything f r.sync_token >>= λ rest. ok (r.items ++ rest))
  unfolding pull_all
  pull_all-more f since r h k = ground arith

  abbrev reply : ℤ → List PullItem → PullResponse
  reply q items = answer c true hex s account domain (suc i) (first_rows q) items

  pull-reply :
      (since : Text) (q : ℤ) (items : List PullItem)
      → since_seq now since ≡ ok q
      → open_rows c (first_rows q) ≡ ok items
      → pull c true hex s account domain now since (suc i) ≡ ok (reply q items)
  pull-reply since q items h o = pull-page_from since q h ∙ (page_from_lem q ∙ rw o)

  abbrev Recursion : ℕ → Type 0
  Recursion f =
      (since : Text) (q : ℤ)
      → since_seq now since ≡ ok q
      → length (after q) < f
      → everything f since ≡ open_rows c (after q)

  round_last :
      (f : ℕ) (since : Text) (q : ℤ) (items : List PullItem)
      → since_seq now since ≡ ok q
      → open_rows c (first_rows q) ≡ ok items
      → ltb (suc i) (length items) ≡ false
      → everything (suc f) since ≡ open_rows c (after q)
  round_last f since q items h o small =
      let measured = length-open_rows c (first_rows q) items o in
      let short : length (after q) ≤ suc i = length-take-le (suc i) (after q) (ground arith) in
      let whole : first_rows q ≡ after q =
        take_of_length-le (suc (suc i)) (after q) (omega arith) in
      let last : (reply q items).has_more ≡ false = unfold answer in rw small in
      let same : (reply q items).items ≡ items = unfold answer in rw small in
      pull_all-last f since (reply q items) (pull-reply since q items h o) last
      ∙ (ap ok same ∙ (sym o ∙ ap (open_rows c) whole))

  round_more :
      (f : ℕ) (since : Text) (q : ℤ) (items : List PullItem)
      → Recursion f
      → since_seq now since ≡ ok q
      → length (after q) < suc f
      → open_rows c (first_rows q) ≡ ok items
      → ltb (suc i) (length items) ≡ true
      → everything (suc f) since ≡ open_rows c (after q)
  round_more f since q items rec h b o big =
      let measured = length-open_rows c (first_rows q) items o in
      let many : suc i < length items = ltb→lt (suc i) (length items) big in
      let (e, at, at') = row_at-take i (after q) (ground arith) in
      let rest = rows_since-drop s.entries account domain q i e distinct at' in
      let more : (reply q items).has_more ≡ true = unfold answer in rw big in
      let shown : (reply q items).items ≡ take (suc i) items = unfold answer in rw big in
      let tok : (reply q items).sync_token ≡ format_token e.seq hex =
        unfold answer in rw big (page_token_lem (first_rows q) e at) in
      let young =
        All-row_at (IsRecent now) (after q) i e
          (All-rows_since s.entries account domain (IsRecent now) q recent) at' in
      let onward = rec (format_token e.seq hex) e.seq (since_seq-recent now e hex six young) (
        rw rest (
          omega
            (arith, length-drop-lt i (after q), length-take-le_length (suc (suc i)) (after q)))) in
      let head : open_rows c (take (suc i) (after q)) ≡ ok (take (suc i) items) =
        subst (λ rows. open_rows c rows ≡ ok (take (suc i) items))
          (take-take (suc i) (suc (suc i)) (after q) (omega arith))
          (open_rows-take c (suc i) (first_rows q) items o) in
      let next_rows : everything f (reply q items).sync_token
          ≡ open_rows c (drop (suc i) (after q)) =
        ap (everything f) tok ∙ (onward ∙ ap (open_rows c) rest) in
      pull_all-more f since (reply q items) (pull-reply since q items h o) more
      ∙ (ap₂ (λ (l : List PullItem) (m : Result (List PullItem)). m >>= λ rest. ok (l ++ rest))
            shown next_rows
          ∙ (sym (open_rows-append c (take (suc i) (after q)) (drop (suc i) (after q)) ∙ rw head)
              ∙ ap (open_rows c) (take-append-drop (suc i) (after q))))

  round :
      (f : ℕ) (since : Text) (q : ℤ) (r : Result (List PullItem))
      → Recursion f
      → since_seq now since ≡ ok q
      → length (after q) < suc f
      → open_rows c (first_rows q) ≡ r
      → everything (suc f) since ≡ open_rows c (after q)
  round f since q (err e) rec h b o =
      pull_all-err f since e (pull-page_from since q h ∙ (page_from_lem q ∙ rw o))
      ∙ (sym (open_rows-err c (first_rows q) (drop (suc (suc i)) (after q)) e o)
          ∙ ap (open_rows c) (take-append-drop (suc (suc i)) (after q)))
  round f since q (ok items) rec h b o = elim (Bool-cases (ltb (suc i) (length items))) [
    | inl big ↦ round_more f since q items rec h b o big
    | inr small ↦ round_last f since q items h o small
  ]

  -- Pages are complete: a client that starts from any cursor that counts, and follows the token of
  -- each page while there is more, gets exactly the rows behind its cursor, each once and in order
  -- (or the error of the first row that does not decrypt). It needs as many pages as there are rows,
  -- plus one, at most. The rows of the domain have distinct numbers and are younger than the
  -- retention period; the page size is at least one.
  pub pull_all_complete :
      (f : ℕ) (since : Text) (q : ℤ)
      → since_seq now since ≡ ok q
      → length (rows_since s.entries account domain q) < f
      → pull_all c hex s account domain now (suc i) f since
        ≡ open_rows c (rows_since s.entries account domain q)
  pull_all_complete zero since q h b = absurd (omega arith)
  pull_all_complete (suc f) since q h b =
      round f since q (open_rows c (first_rows q)) (pull_all_complete f) h b refl
