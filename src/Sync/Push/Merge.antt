-- ===== src/Sync/Push/Merge.antt =====
-- The last-write rule, and what the transaction of a Push in internal/sync/service.go stores, key by
-- key.
use mathlib.Core.Path.{subst}
use pixiv_relay.Common.Errors.{ok, >>=-eq-ok, refuse-eq-ok, ok_injective, ◌>>=◌}
use pixiv_relay.Prelude.Int.{ℤ, ◌≤ℤ◌}
use pixiv_relay.Prelude.Table.{
  find, upsert, HasDistinctKeys, keep_if, find-keep, find_absent, keep-HasDistinctKeys,
  find-upsert_self, find-upsert_ne, key_of_find,
}
use pixiv_relay.Prelude.{
  ℕ, ◌+◌, ◌≡◌, ◌≢◌, ◌⊎◌, refl, ap, ◌∙◌, Bool, true, false, not, List, [], ◌∷◌, Option, none, some,
  arith, Text, if◌then◌else◌, keep, All, Bool-cases, inl, inr, text_eq, nat_eq, pair_eq,
  text_beq_iff, text_beq, sym,
}
use pixiv_relay.Sync.Push.{Env, read, write, is_stale, accept, stored, write_all}
use pixiv_relay.Sync.Store.{Entry, entry_key, PushItem}

abbrev pub item_key : PushItem → Text
item_key it = it.key

-- The row that holds an item of an account and a domain: its key, its data as the cipher wrote it, its
-- time and its deletion mark.
pub record Holds (env : Env) (account : ℕ) (domain : Text) (it : PushItem) (e : Entry)
    : Type 0 where
  pub account_lem : e.account ≡ account
  pub domain_lem : e.domain ≡ domain
  pub key_lem : e.key ≡ it.key
  pub data_lem : (i : ℕ) × (e.data_text ≡ env.cipher.encrypt i it.raw)
  pub updated_at_lem : e.updated_at ≡ it.updated_at
  pub deleted_lem : e.deleted ≡ it.deleted

pub stored-Holds :
    (env : Env) (account : ℕ) (domain : Text) (b : ℤ) (i : ℕ) (it : PushItem)
    → Holds env account domain it (stored env account domain b i it)
unfolding stored
stored-Holds env account domain b i it = record {
  account_lem = refl;
  domain_lem = refl;
  key_lem = refl;
  data_lem = (i, refl);
  updated_at_lem = refl;
  deleted_lem = refl;
}

-- The stored time is the same or later.
abbrev pub IsLate : PushItem → Option Entry → Type 0
IsLate it none = ⊥
IsLate it (some old) = it.updated_at ≤ℤ old.updated_at

-- The specification for one key: without an item, or with one that is late, the old row stays; else
-- the row holds the item.
abbrev pub IsWinner : Env → ℕ → Text → Option PushItem → Option Entry → Option Entry → Type 0
IsWinner env account domain none old new = new ≡ old
IsWinner env account domain (some it) old new =
    (IsLate it old × (new ≡ old))
    ⊎ ((¬ IsLate it old) × ((e : Entry) × (new ≡ some e) × Holds env account domain it e))

-- What the writes leave under a key.
abbrev Written : Env → ℕ → Text → Option PushItem → Option Entry → Option Entry → Type 0
Written env account domain none old new = new ≡ old
Written env account domain (some it) old new =
    (e : Entry) × (new ≡ some e) × Holds env account domain it e

is_stale-IsLate : (it : PushItem) (old : Option Entry) → is_stale it old ≡ true → IsLate it old
is_stale-IsLate it none h = absurd (cc h)
is_stale-IsLate it (some e) h = ground (arith, h)

fresh-IsLate : (it : PushItem) (old : Option Entry) → is_stale it old ≡ false → ¬ IsLate it old
fresh-IsLate it none h l = l
fresh-IsLate it (some e) h l = absurd (ground (arith, h, l))

module _ (env : Env) (account : ℕ) (domain : Text) where
  abbrev row_of : Text → ℕ × (Text × Text)
  row_of k = (account, (domain, k))

  abbrev is_accepted : List Entry → PushItem → Bool
  is_accepted entries it = not (is_stale it (find entry_key (row_of it.key) entries))

  pub accept-eq-keep :
      (entries : List Entry) (i : ℕ) (items acc : List PushItem)
      → accept env account domain entries i items ≡ ok acc
      → acc ≡ keep (is_accepted entries) items
  unfolding accept
  accept-eq-keep entries i [] acc h = ground arith
  accept-eq-keep entries i (it ∷ items) acc h = elim (Bool-cases (env.fails (read i))) [
    | inl bad ↦ absurd (ground arith)
    | inr good ↦
        let h' : (accept env account domain entries (i + 1) items >>= λ rest.
        ok (if is_stale it (find entry_key (row_of it.key) entries) then rest else it ∷ rest))
            ≡ ok acc =
          rw good at h in
        let (rest, e, f) = >>=-eq-ok (accept env account domain entries (i + 1) items) _ h' in
        let ih = accept-eq-keep entries (i + 1) items rest e in ground arith
  ]

  pub find-write_all :
      (b : ℤ) (i : ℕ) (acc : List PushItem) (entries written : List Entry) (k : Text)
      → HasDistinctKeys item_key acc
      → write_all env account domain b i acc entries ≡ ok written
      → Written env account domain
          (find item_key k acc)
          (find entry_key (row_of k) entries)
          (find entry_key (row_of k) written)
  unfolding write_all find
  find-write_all b i [] entries written k d h =
      ap (find entry_key (row_of k)) (sym (ok_injective h))
  find-write_all b i (it ∷ items) entries written k d h =
      let (_, h') = refuse-eq-ok (env.fails (write i)) _ _ h in
      let row = stored env account domain b i it in
      let ih = find-write_all b (i + 1) items (upsert entry_key row entries) written k d.1 h' in
      elim (Bool-cases (text_beq it.key k)) [
        | inl same ↦
            let at : it.key ≡ k = (text_beq_iff it.key k).0 same in
            let gone : find item_key k items ≡ none =
              find_absent item_key k items (subst (λ j. All (λ s. item_key s ≢ j) items) at d.0) in
            let top : find entry_key (row_of k) (upsert entry_key row entries) ≡ some row =
              subst (λ j. find entry_key (row_of j) (upsert entry_key row entries) ≡ some row) at
                (find-upsert_self entry_key row entries) in
            let later : find entry_key (row_of k) written
                ≡ find entry_key (row_of k) (upsert entry_key row entries) =
              subst
                (λ o.
                  Written env account domain o
                    (find entry_key (row_of k) (upsert entry_key row entries))
                    (find entry_key (row_of k) written))
                gone ih in
            rw same (row, later ∙ top, stored-Holds env account domain b i it)
        | inr other ↦
            let kept : find entry_key (row_of k) (upsert entry_key row entries)
                ≡ find entry_key (row_of k) entries =
              find-upsert_ne entry_key row (row_of k) entries
                (λ e. absurd (ground (arith, text_beq_iff it.key k))) in
            rw other (
              subst
                (λ o.
                  Written env account domain (find item_key k items) o
                    (find entry_key (row_of k) written))
                kept ih)
      ]

  -- In one transaction with distinct keys, what is stored under a key afterwards is what the last-write
  -- rule gives, and every other key is left as it was.
  pub merge-IsWinner :
      (b : ℤ) (items acc : List PushItem) (entries written : List Entry) (k : Text)
      → HasDistinctKeys item_key items
      → accept env account domain entries 0 items ≡ ok acc
      → write_all env account domain b 0 acc entries ≡ ok written
      → IsWinner env account domain
          (find item_key k items)
          (find entry_key (row_of k) entries)
          (find entry_key (row_of k) written)
  merge-IsWinner b items acc entries written k d a w =
      let kept = accept-eq-keep entries 0 items acc a in
      let da = keep-HasDistinctKeys item_key (is_accepted entries) items d in
      let found = find-keep item_key (is_accepted entries) k items d in
      choose (find item_key k items) refl (
        subst
          (λ o.
            Written env account domain o (find entry_key (row_of k) entries)
              (find entry_key (row_of k) written))
          (ap (find item_key k) kept ∙ found)
          (find-write_all b 0 acc entries written k (subst (HasDistinctKeys item_key) (sym kept) da)
            w))
    where
      old : Option Entry
      old = find entry_key (row_of k) entries

      decide :
          (it : PushItem)
          → item_key it ≡ k
          → Written env account domain
              (keep_if item_key (is_accepted entries) (some it))
              old
              (find entry_key (row_of k) written)
          → IsWinner env account domain (some it) old (find entry_key (row_of k) written)
      decide it at r =
          let here : find entry_key (row_of it.key) entries ≡ old =
            ap (λ j. find entry_key (row_of j) entries) at in
          elim (Bool-cases (is_stale it (find entry_key (row_of it.key) entries))) [
            | inl stale ↦
                inl (is_stale-IsLate it old (ap (is_stale it) (sym here) ∙ stale), rw stale at r)
            | inr new ↦ inr (fresh-IsLate it old (ap (is_stale it) (sym here) ∙ new), rw new at r)
          ]

      choose :
          (o : Option PushItem)
          → find item_key k items ≡ o
          → Written env account domain
              (keep_if item_key (is_accepted entries) o)
              old
              (find entry_key (row_of k) written)
          → IsWinner env account domain o old (find entry_key (row_of k) written)
      choose none e r = r
      choose (some it) e r = decide it (key_of_find item_key k items it e) r
