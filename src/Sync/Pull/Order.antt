-- ===== src/Sync/Pull/Order.antt =====
-- Rows in order of their numbers: sorting, and where a page ends.
use mathlib.Core.Path.{subst}
use pixiv_relay.Prelude.Int.{ℤ, ltb_ℤ, leb_ℤ, ◌<ℤ◌, int_eq, eq_of_parts}
use pixiv_relay.Prelude.Table.{HasDistinctKeys}
use pixiv_relay.Prelude.{
  ℕ, suc, zero, ◌≡◌, ◌≢◌, refl, Bool, List, [], ◌∷◌, some, arith, if◌then◌else◌, keep, drop, All,
  Bool-cases, inl, inr,
}
use pixiv_relay.Sync.Pull.{insert_row, order_by_seq, row_at}
use pixiv_relay.Sync.Store.{Entry}

abbrev pub row_seq : Entry → ℤ
row_seq e = e.seq

-- Each number is below all that follow.
abbrev pub IsStrict : List Entry → Type 0
IsStrict [] = Unit
IsStrict (x ∷ rows) = All (λ y. x.seq <ℤ y.seq) rows × IsStrict rows

All-insert_row :
    (P : Entry → Type 0) (x : Entry) (rows : List Entry)
    → P x
    → All P rows
    → All P (insert_row x rows)
unfolding insert_row
All-insert_row P x [] p h = (p, tt)
All-insert_row P x (y ∷ rows) p h = elim (Bool-cases (leb_ℤ x.seq y.seq)) [
  | inl le ↦ rw le (p, h)
  | inr gt ↦ rw gt (h.0, All-insert_row P x rows p h.1)
]

pub All-order_by_seq :
    (P : Entry → Type 0) (rows : List Entry) → All P rows → All P (order_by_seq rows)
unfolding order_by_seq
All-order_by_seq P [] h = tt
All-order_by_seq P (x ∷ rows) h =
    All-insert_row P x (order_by_seq rows) h.0 (All-order_by_seq P rows h.1)

All-lt_trans :
    (a b : ℤ) (rows : List Entry) → a <ℤ b → All (λ z. b <ℤ z.seq) rows → All (λ z. a <ℤ z.seq) rows
All-lt_trans a b [] h k = tt
All-lt_trans a b (z ∷ rows) h k = (omega (arith, k.0), All-lt_trans a b rows h k.1)

insert_row-IsStrict :
    (x : Entry) (rows : List Entry)
    → All (λ s. row_seq s ≢ row_seq x) rows
    → IsStrict rows
    → IsStrict (insert_row x rows)
unfolding insert_row
insert_row-IsStrict x [] ne h = (tt, tt)
insert_row-IsStrict x (y ∷ rows) ne h = elim (Bool-cases (leb_ℤ x.seq y.seq)) [
  | inl le ↦
      let lt : x.seq <ℤ y.seq =
        ground (arith, ne.0, eq_of_parts x.seq y.seq, eq_of_parts y.seq x.seq) in
      rw le ((lt, All-lt_trans x.seq y.seq rows lt h.0), h)
  | inr gt ↦
      let lt : y.seq <ℤ x.seq = ground arith in
      rw gt
        (All-insert_row (λ z. y.seq <ℤ z.seq) x rows lt h.0, insert_row-IsStrict x rows ne.1 h.1)
]

-- Rows whose numbers differ are in strict order once sorted.
pub order_by_seq-IsStrict :
    (rows : List Entry) → HasDistinctKeys row_seq rows → IsStrict (order_by_seq rows)
unfolding order_by_seq
order_by_seq-IsStrict [] h = tt
order_by_seq-IsStrict (x ∷ rows) h =
    insert_row-IsStrict x (order_by_seq rows)
      (All-order_by_seq (λ s. row_seq s ≢ row_seq x) rows h.0) (order_by_seq-IsStrict rows h.1)

abbrev pub is_after : ℤ → Entry → Bool
is_after q e = ltb_ℤ q e.seq

keep-insert_row :
    (q : ℤ) (x : Entry) (rows : List Entry)
    → keep (is_after q) (insert_row x rows)
      ≡ (if is_after q x then insert_row x (keep (is_after q) rows) else keep (is_after q) rows)
unfolding insert_row
keep-insert_row q x [] = refl
keep-insert_row q x (y ∷ rows) = ground (arith, keep-insert_row q x rows)

-- Sorting and cutting off the rows up to a number can be exchanged.
pub keep-order_by_seq :
    (q : ℤ) (rows : List Entry)
    → order_by_seq (keep (is_after q) rows) ≡ keep (is_after q) (order_by_seq rows)
unfolding order_by_seq
keep-order_by_seq q [] = refl
keep-order_by_seq q (x ∷ rows) =
    ground (arith, keep-insert_row q x (order_by_seq rows), keep-order_by_seq q rows)

keep-All : (q : ℤ) (rows : List Entry) → All (λ z. q <ℤ z.seq) rows → keep (is_after q) rows ≡ rows
keep-All q [] h = refl
keep-All q (z ∷ rows) h = ground (arith, keep-All q rows h.1, h.0)

pub All-row_at :
    (P : Entry → Type 0) (rows : List Entry) (i : ℕ) (e : Entry)
    → All P rows
    → row_at rows i ≡ some e
    → P e
All-row_at P [] i e h k = absurd (cc)
All-row_at P (x ∷ rows) zero e h k = let at : x ≡ e = cc k in subst P at h.0
All-row_at P (x ∷ rows) (suc i) e h k = All-row_at P rows i e h.1 k

-- Behind the i-th row of a strict list stand exactly the rows with a greater number.
pub keep-row_at :
    (rows : List Entry) (i : ℕ) (e : Entry)
    → IsStrict rows
    → row_at rows i ≡ some e
    → keep (is_after e.seq) rows ≡ drop (suc i) rows
keep-row_at [] i e h k = absurd (cc)
keep-row_at (x ∷ rows) zero e h k =
    let at : x ≡ e = cc k in
    let above : All (λ z. e.seq <ℤ z.seq) rows =
      subst (λ (w : Entry). All (λ z. w.seq <ℤ z.seq) rows) at h.0 in
    ground (arith, keep-All e.seq rows above)
keep-row_at (x ∷ rows) (suc i) e h k =
    let lt : x.seq <ℤ e.seq = All-row_at (λ z. x.seq <ℤ z.seq) rows i e h.0 k in
    ground (arith, keep-row_at rows i e h.1 k)
