-- ===== src/Sync/Token/Load.antt =====
-- What the cursors are after Load.
use mathlib.Core.Path.{subst}
use pixiv_relay.Prelude.Table.{
  find, upsert, HasDistinctKeys, find-upsert_self, find-upsert_ne, find_absent,
}
use pixiv_relay.Prelude.{
  ℕ, ◌≡◌, ◌≢◌, refl, ap, ◌∙◌, sym, true, false, List, [], ◌∷◌, Option, none, some, Text, arith, All,
  Bool-cases, inl, inr, is_empty, if◌then◌else◌, map, text_eq, nat_eq, pair_eq,
}
use pixiv_relay.Sync.Store.{DomainRow, domain_key, token_row}
use pixiv_relay.Sync.Token.RoundTrip.{token_key_injective}
use pixiv_relay.Sync.Token.{TokenStore, slot, token_key, current?, load_row, load}

pub current?-upsert_self :
    (cur : TokenStore) (a : ℕ) (d tok : Text)
    → current? (upsert slot (token_key a d, tok) cur) a d ≡ some tok
unfolding current?
current?-upsert_self cur a d tok = ground (arith, find-upsert_self slot (token_key a d, tok) cur)

pub current?-upsert_ne :
    (cur : TokenStore) (a b : ℕ) (d e tok : Text)
    → ◌≢◌ {A = ℕ × Text} (b, e) (a, d)
    → current? (upsert slot (token_key a d, tok) cur) b e ≡ current? cur b e
unfolding current?
current?-upsert_ne cur a b d e tok ne = ground (
  arith,
  find-upsert_ne slot (token_key a d, tok) (token_key b e) cur
      (λ same. let (p, q) = token_key_injective b a e d same in ne (cc (p, q))),
)

-- The token of a row, where it is not empty.
abbrev pub saved_token : Option DomainRow → Option Text
saved_token none = none
saved_token (some r) = if is_empty r.sync_token then none else some r.sync_token

-- No row of the rest has a cursor yet.
abbrev AreNew : TokenStore → List DomainRow → Type 0
AreNew cur rows = All (λ r. current? cur r.account r.domain ≡ none) rows

load_row_new :
    (cur : TokenStore) (r : DomainRow)
    → current? cur r.account r.domain ≡ none
    → load_row cur (token_row r) ≡ upsert slot (token_key r.account r.domain, r.sync_token) cur
unfolding load_row upsert
load_row_new cur r h = rw (h, load_row) refl

AreNew-upsert :
    (cur : TokenStore) (r : DomainRow) (rows : List DomainRow)
    → All (λ s. domain_key s ≢ domain_key r) rows
    → AreNew cur rows
    → AreNew (upsert slot (token_key r.account r.domain, r.sync_token) cur) rows
AreNew-upsert cur r [] apart new = tt
AreNew-upsert cur r (s ∷ rows) apart new = (
  current?-upsert_ne cur r.account s.account r.domain s.domain r.sync_token apart.0 ∙ new.0,
  AreNew-upsert cur r rows apart.1 new.1,
)

-- A cursor that Load leaves is that of the row, or the one that was there before.
abbrev or_before : Option Text → Option Text → Option Text
or_before none before = before
or_before (some tok) before = some tok

absent_rest :
    (k : ℕ × Text) (r : DomainRow) (rows : List DomainRow)
    → domain_key r ≡ k
    → All (λ s. domain_key s ≢ domain_key r) rows
    → find domain_key k rows ≡ none
absent_rest k r rows same apart =
    subst (λ j. find domain_key j rows ≡ none) same
      (find_absent domain_key (domain_key r) rows apart)

find_first :
    (k : ℕ × Text) (r : DomainRow) (rows : List DomainRow)
    → domain_key r ≡ k
    → find domain_key k (r ∷ rows) ≡ some r
unfolding find
find_first k r rows same =
    let own = (pair_eq.beq_iff (domain_key r) k).1 same in rw (own, find) refl

find_later :
    (k : ℕ × Text) (r : DomainRow) (rows : List DomainRow)
    → pair_eq.beq (domain_key r) k ≡ false
    → find domain_key k (r ∷ rows) ≡ find domain_key k rows
unfolding find
find_later k r rows h = rw (h, find) refl

load_skip :
    (cur : TokenStore) (r : DomainRow) (rows : List DomainRow)
    → is_empty r.sync_token ≡ true
    → load cur (map token_row (r ∷ rows)) ≡ load cur (map token_row rows)
unfolding load
load_skip cur r rows h = rw (h, load) refl

load_take :
    (cur : TokenStore) (r : DomainRow) (rows : List DomainRow)
    → is_empty r.sync_token ≡ false
    → current? cur r.account r.domain ≡ none
    → load cur (map token_row (r ∷ rows))
      ≡ load (upsert slot (token_key r.account r.domain, r.sync_token) cur) (map token_row rows)
unfolding load
load_take cur r rows h new =
    rw (h, load) (ap (λ c. load c (map token_row rows)) (load_row_new cur r new))

current?-load :
    (rows : List DomainRow) (cur : TokenStore) (a : ℕ) (d : Text)
    → HasDistinctKeys domain_key rows
    → AreNew cur rows
    → current? (load cur (map token_row rows)) a d
      ≡ or_before (saved_token (find domain_key (a, d) rows)) (current? cur a d)
current?-load [] cur a d apart new = unfold load in unfold find in refl
current?-load (r ∷ rows) cur a d apart new = elim (Bool-cases (is_empty r.sync_token)) [
  | inl empty ↦
      ap (λ c. current? c a d) (load_skip cur r rows empty)
      ∙ (current?-load rows cur a d apart.1 new.1 ∙ skipped empty)
  | inr full ↦
      ap (λ c. current? c a d) (load_take cur r rows full new.0)
      ∙ (current?-load rows taken a d apart.1 (AreNew-upsert cur r rows apart.0 new.1) ∙ found full)
]
  where
    taken : TokenStore
    taken = upsert slot (token_key r.account r.domain, r.sync_token) cur

    skipped :
        is_empty r.sync_token ≡ true
        → or_before (saved_token (find domain_key (a, d) rows)) (current? cur a d)
          ≡ or_before (saved_token (find domain_key (a, d) (r ∷ rows))) (current? cur a d)
    skipped empty = elim (Bool-cases (pair_eq.beq (domain_key r) (a, d))) [
      | inl own ↦
          let same = (pair_eq.beq_iff (domain_key r) (a, d)).0 own in
          rw (absent_rest (a, d) r rows same apart.0, find_first (a, d) r rows same, empty) refl
      | inr other ↦ rw (find_later (a, d) r rows other) refl
    ]

    found :
        is_empty r.sync_token ≡ false
        → or_before (saved_token (find domain_key (a, d) rows)) (current? taken a d)
          ≡ or_before (saved_token (find domain_key (a, d) (r ∷ rows))) (current? cur a d)
    found full = elim (Bool-cases (pair_eq.beq (domain_key r) (a, d))) [
      | inl own ↦
          let same = (pair_eq.beq_iff (domain_key r) (a, d)).0 own in
          rw (absent_rest (a, d) r rows same apart.0, find_first (a, d) r rows same, full)
            (subst (λ k. current? taken k.0 k.1 ≡ some r.sync_token) same
              (current?-upsert_self cur r.account r.domain r.sync_token))
      | inr other ↦ rw (find_later (a, d) r rows other) (
          ap (or_before (saved_token (find domain_key (a, d) rows))) (
            current?-upsert_ne cur r.account a r.domain d r.sync_token
              (λ e. absurd (cc ((pair_eq.beq_iff (domain_key r) (a, d)).1 (sym e), other)))))
    ]

current?-nil : (a : ℕ) (d : Text) → current? [] a d ≡ none
unfolding current? find
current?-nil a d = refl

AreNew-nil : (rows : List DomainRow) → AreNew [] rows
AreNew-nil [] = tt
AreNew-nil (r ∷ rows) = (current?-nil r.account r.domain, AreNew-nil rows)

or_before-none : (o : Option Text) → or_before o none ≡ o
or_before-none none = refl
or_before-none (some tok) = refl

-- After Load, each domain has the token of its row.
pub current?-load_all :
    (rows : List DomainRow) (a : ℕ) (d : Text)
    → HasDistinctKeys domain_key rows
    → current? (load [] (map token_row rows)) a d ≡ saved_token (find domain_key (a, d) rows)
current?-load_all rows a d apart =
    current?-load rows [] a d apart (AreNew-nil rows)
    ∙ (ap (or_before (saved_token (find domain_key (a, d) rows))) (current?-nil a d)
        ∙ or_before-none (saved_token (find domain_key (a, d) rows)))
