-- ===== src/Sync/Pull/Pages.antt =====
-- What a page of Pull leaves for the next one.
use mathlib.Core.Path.{subst}
use pixiv_relay.Crypto.{Cipher}
use pixiv_relay.Common.Errors.{Result, ok, err, Error, >>=-eq-ok, ◌>>=◌}
use pixiv_relay.Prelude.Int.{ℤ, ltb_ℤ, ◌<ℤ◌, int_eq}
use pixiv_relay.Prelude.Table.{HasDistinctKeys}
use pixiv_relay.Prelude.{
  ℕ, suc, zero, ◌≡◌, ◌<◌, ◌≤◌, refl, ap, ◌∙◌, sym, ◌&&◌, List, [], ◌∷◌, ◌++◌, some, arith, Text,
  keep, drop, take, All, All-keep, length,
}
use pixiv_relay.Sync.Pull.Order.{
  row_seq, IsStrict, is_after, order_by_seq-IsStrict, keep-order_by_seq, All-row_at, keep-row_at,
  All-order_by_seq,
}
use pixiv_relay.Sync.Pull.{PullItem, is_of, order_by_seq, rows_since, open_row, open_rows, row_at}
use pixiv_relay.Sync.Store.{Entry}

keep_both :
    (account : ℕ) (domain : Text) (q : ℤ) (rows : List Entry)
    → keep (λ e. is_of account domain e && ltb_ℤ q e.seq) rows
      ≡ keep (is_after q) (keep (is_of account domain) rows)
keep_both a d q [] = refl
keep_both a d q (e ∷ rows) = ground (arith, keep_both a d q rows)

keep_later :
    (q r : ℤ) (rows : List Entry)
    → q <ℤ r
    → keep (is_after r) (keep (is_after q) rows) ≡ keep (is_after r) rows
keep_later q r [] h = refl
keep_later q r (e ∷ rows) h = ground (arith, keep_later q r rows h)

keep_after_All : (q : ℤ) (rows : List Entry) → All (λ e. q <ℤ e.seq) (keep (is_after q) rows)
keep_after_All q [] = tt
keep_after_All q (e ∷ rows) = ground (arith, keep_after_All q rows)

keep-IsStrict : (q : ℤ) (rows : List Entry) → IsStrict rows → IsStrict (keep (is_after q) rows)
keep-IsStrict q [] h = tt
keep-IsStrict q (e ∷ rows) h =
    ground (arith, keep-IsStrict q rows h.1, All-keep (λ y. e.seq <ℤ y.seq) (is_after q) rows h.0)

-- The rows of one account and domain.
abbrev pub rows_of : List Entry → ℕ → Text → List Entry
rows_of entries account domain = keep (is_of account domain) entries

module _ (entries : List Entry) (account : ℕ) (domain : Text) where
  abbrev sorted : List Entry
  sorted = order_by_seq (rows_of entries account domain)

  rows_since-eq-keep : (q : ℤ) → rows_since entries account domain q ≡ keep (is_after q) sorted
  unfolding rows_since
  rows_since-eq-keep q =
      ap order_by_seq (keep_both account domain q entries)
      ∙ keep-order_by_seq q (rows_of entries account domain)

  -- With distinct numbers, the rows behind the last row of a page are exactly the rows that the page
  -- left out, in the same order.
  pub rows_since-drop :
      (q : ℤ) (i : ℕ) (e : Entry)
      → HasDistinctKeys row_seq (rows_of entries account domain)
      → row_at (rows_since entries account domain q) i ≡ some e
      → rows_since entries account domain e.seq ≡ drop (suc i) (rows_since entries account domain q)
  rows_since-drop q i e d h =
      let strict = order_by_seq-IsStrict (rows_of entries account domain) d in
      let at : row_at (keep (is_after q) sorted) i ≡ some e =
        subst (λ rows. row_at rows i ≡ some e) (rows_since-eq-keep q) h in
      let later : q <ℤ e.seq =
        All-row_at (λ z. q <ℤ z.seq) (keep (is_after q) sorted) i e (keep_after_All q sorted) at in
      rows_since-eq-keep e.seq
      ∙ (sym (keep_later q e.seq sorted later)
          ∙ (keep-row_at (keep (is_after q) sorted) i e (keep-IsStrict q sorted strict) at
              ∙ ap (drop (suc i)) (sym (rows_since-eq-keep q))))

  pub All-rows_since :
      (P : Entry → Type 0) (q : ℤ)
      → All P (rows_of entries account domain)
      → All P (rows_since entries account domain q)
  All-rows_since P q h =
      subst (All P) (sym (rows_since-eq-keep q))
        (All-keep P (is_after q) sorted (All-order_by_seq P (rows_of entries account domain) h))

module _ (c : Cipher) where
  pub open_rows-append :
      (xs ys : List Entry)
      → open_rows c (xs ++ ys) ≡ (open_rows c xs >>= λ a. open_rows c ys >>= λ b. ok (a ++ b))
  unfolding open_rows
  open_rows-append [] ys = go (open_rows c ys)
    where
      go : (r : Result (List PullItem)) → r ≡ (r >>= λ b. ok b)
      go (ok b) = refl
      go (err e) = refl
  open_rows-append (e ∷ xs) ys = ground (arith, open_rows-append xs ys)

  open_rows-cons :
      (e : Entry) (rows : List Entry) (items : List PullItem)
      → open_rows c (e ∷ rows) ≡ ok items
      → (it : PullItem) × (rest : List PullItem) × (open_row c e ≡ ok it)
        × (open_rows c rows ≡ ok rest)
        × (it ∷ rest ≡ items)
  unfolding open_rows
  open_rows-cons e rows items h =
      let (it, f, g) = >>=-eq-ok (open_row c e) _ h in
      let (rest, k, l) = >>=-eq-ok (open_rows c rows) _ g in (it, rest, f, k, cc l)

  pub length-open_rows :
      (rows : List Entry) (items : List PullItem)
      → open_rows c rows ≡ ok items
      → length items ≡ length rows
  unfolding open_rows
  length-open_rows [] items h = ground arith
  length-open_rows (e ∷ rows) items h =
      let (it, rest, f, g, k) = open_rows-cons e rows items h in
      ap length (sym k) ∙ ap suc (length-open_rows rows rest g)

  pub open_rows-take :
      (n : ℕ) (rows : List Entry) (items : List PullItem)
      → open_rows c rows ≡ ok items
      → open_rows c (take n rows) ≡ ok (take n items)
  unfolding open_rows
  open_rows-take zero rows items h = refl
  open_rows-take (suc n) [] items h = ground arith
  open_rows-take (suc n) (e ∷ rows) items h =
      let (it, rest, f, g, k) = open_rows-cons e rows items h in
      ground (arith, open_rows-take n rows rest g)

  -- A failed prefix fails the whole with the same error.
  pub open_rows-err :
      (xs ys : List Entry) (e : Error) → open_rows c xs ≡ err e → open_rows c (xs ++ ys) ≡ err e
  open_rows-err xs ys e h = rw (open_rows-append xs ys, h)

pub take-take : (n m : ℕ) (rows : List Entry) → n ≤ m → take n (take m rows) ≡ take n rows
take-take zero m rows h = refl
take-take (suc n) zero rows h = elim h [ ]
take-take (suc n) (suc m) [] h = refl
take-take (suc n) (suc m) (e ∷ rows) h = ap (◌∷◌ e) (take-take n m rows (omega arith))

-- A list that is longer than its page has the page's last row.
pub row_at-take :
    (i : ℕ) (rows : List Entry)
    → suc i < length (take (suc (suc i)) rows)
    → (e : Entry) × (row_at (take (suc (suc i)) rows) i ≡ some e) × (row_at rows i ≡ some e)
row_at-take i [] h = absurd (omega arith)
row_at-take zero (e ∷ rows) h = (e, refl, refl)
row_at-take (suc i) (e ∷ rows) h = row_at-take i rows (omega arith)

pub length-take-le : (n : ℕ) (rows : List Entry) → length (take (suc n) rows) ≤ n → length rows ≤ n
length-take-le n [] h = omega arith
length-take-le zero (e ∷ rows) h = absurd (omega arith)
length-take-le (suc n) (e ∷ rows) h = omega (arith, length-take-le n rows)

pub length-drop-lt :
    (n : ℕ) (rows : List Entry) → n < length rows → length (drop (suc n) rows) < length rows
length-drop-lt n [] h = absurd (omega arith)
length-drop-lt zero (e ∷ rows) h = omega arith
length-drop-lt (suc n) (e ∷ rows) h = omega (arith, length-drop-lt n rows)

pub length-take-le_length : (n : ℕ) (rows : List Entry) → length (take n rows) ≤ length rows
length-take-le_length zero rows = omega arith
length-take-le_length (suc n) [] = omega arith
length-take-le_length (suc n) (e ∷ rows) = omega (arith, length-take-le_length n rows)
