-- ===== src/Sync/Push/Numbers.antt =====
-- The numbers of a domain's rows: distinct, and never above the domain's token.
use mathlib.Core.Path.{subst}
use pixiv_relay.Common.Errors.{ok, refuse-eq-ok}
use pixiv_relay.Prelude.Int.{ℤ, pos, add64-pos, two63, int_eq}
use pixiv_relay.Prelude.Table.{upsert, remove, HasDistinctKeys, keep-HasDistinctKeys}
use pixiv_relay.Prelude.{
  byte_length, ℕ, suc, ◌+◌, ◌≡◌, ◌≢◌, ◌<◌, ◌≤◌, refl, ap, ◌∙◌, sym, Bool, true, ◌&&◌, not, List, [],
  ◌∷◌, Option, arith, Text, keep, All, All-keep, text_eq, nat_eq, pair_eq, text_beq, text_beq_iff,
  length, nat_beq,
}
use pixiv_relay.Sync.Json.{Value}
use pixiv_relay.Sync.Push.Outcome.{push-Committed}
use pixiv_relay.Sync.Push.{
  Env, write, stored, write_all, prune_tombstones, is_expired_tombstone, push,
}
use pixiv_relay.Sync.Store.{Entry, entry_key, Service, PushItem, PushRequest}
use pixiv_relay.Sync.Token.Monotone.{start_of, end_of, next_advances}
use pixiv_relay.Sync.Token.{Batch, previous, next}

-- The rows of one account and domain.
abbrev pub of_domain : ℕ → Text → Entry → Bool
of_domain account domain e = nat_beq e.account account && text_beq e.domain domain

abbrev pub domain_rows : ℕ → Text → List Entry → List Entry
domain_rows account domain = keep (of_domain account domain)

abbrev pub number_of : Entry → ℤ
number_of e = e.seq

-- The row's number is a natural number below the bound.
abbrev pub IsBelow : ℕ → Entry → Type 0
IsBelow m e = (q : ℕ) × (e.seq ≡ pos q) × (q < m)

keep-keep : (p r : Entry → Bool) (rows : List Entry) → keep p (keep r rows) ≡ keep r (keep p rows)
keep-keep p r [] = refl
keep-keep p r (e ∷ rows) = ground (arith, keep-keep p r rows)

All-IsBelow_mono :
    (m n : ℕ) (rows : List Entry) → m ≤ n → All (IsBelow m) rows → All (IsBelow n) rows
All-IsBelow_mono m n [] h a = tt
All-IsBelow_mono m n (e ∷ rows) h a = ((a.0.0, a.0.1, omega arith), All-IsBelow_mono m n rows h a.1)

-- A number at the bound is new.
All-fresh :
    (m : ℕ) (z : ℤ) (rows : List Entry)
    → z ≡ pos m
    → All (IsBelow m) rows
    → All (λ e. number_of e ≢ z) rows
All-fresh m z [] h a = tt
All-fresh m z (e ∷ rows) h a = (
  λ same.
      let (q, eq, lt) = a.0 in
      let clash : pos q ≡ pos m = sym eq ∙ (same ∙ h) in absurd (ground arith),
  All-fresh m z rows h a.1,
)

module _ (env : Env) (account : ℕ) (domain : Text) where
  abbrev ours : List Entry → List Entry
  ours = domain_rows account domain

  domain_rows-upsert :
      (row : Entry) (entries : List Entry)
      → of_domain account domain row ≡ true
      → (p : Entry → Bool) × (ours (upsert entry_key row entries) ≡ row ∷ keep p (ours entries))
  unfolding upsert remove
  domain_rows-upsert row entries h =
      let p : Entry → Bool = λ r. not (pair_eq.beq (entry_key r) (entry_key row)) in
      (p, rw h (ap (◌∷◌ row) (keep-keep (of_domain account domain) p entries)))

  write_all-numbers :
      (b i : ℕ) (acc : List PushItem) (entries written : List Entry)
      → b + i + length acc < two63
      → All (IsBelow (b + i)) (ours entries)
      → HasDistinctKeys number_of (ours entries)
      → write_all env account domain (pos b) i acc entries ≡ ok written
      → All (IsBelow (b + i + length acc)) (ours written) × HasDistinctKeys number_of (ours written)
  unfolding write_all
  write_all-numbers b i [] entries written fits a d h =
      let same : entries ≡ written = cc h in
      (
        All-IsBelow_mono (b + i) _ (ours written) (omega arith)
            (subst (λ l. All (IsBelow (b + i)) (ours l)) same a),
        subst (λ l. HasDistinctKeys number_of (ours l)) same d,
      )
  write_all-numbers b i (it ∷ items) entries written fits a d h =
      let (_, g) = refuse-eq-ok (env.fails (write i)) _ _ h in
      let row = stored env account domain (pos b) i it in
      let seq : row.seq ≡ pos (b + i) = unfold stored in add64-pos b i (omega arith) in
      let (p, shape) = domain_rows-upsert row entries (unfold stored in own_rows) in
      let old = All-keep (IsBelow (b + i)) p (ours entries) a in
      let below : All (IsBelow (b + (i + 1))) (ours (upsert entry_key row entries)) =
        subst (All (IsBelow (b + (i + 1)))) (sym shape)
          ((b + i, seq, omega arith), All-IsBelow_mono (b + i) _ _ (omega arith) old) in
      let distinct : HasDistinctKeys number_of (ours (upsert entry_key row entries)) =
        subst (HasDistinctKeys number_of) (sym shape) (
          All-fresh (b + i) row.seq _ seq old,
          keep-HasDistinctKeys number_of p (ours entries) d,
        ) in
      let (done, apart) =
        write_all-numbers b (i + 1) items (upsert entry_key row entries) written (omega arith) below
          distinct g in
      (All-IsBelow_mono _ _ (ours written) (omega arith) done, apart)
    where
      own_rows : (nat_beq account account && text_beq domain domain) ≡ true
      own_rows = ground (arith, text_beq_iff domain domain)

-- The numbers of the rows of a domain are distinct, and its token carries the greatest at least.
pub record IsNumbered (s : Service) (account : ℕ) (domain : Text) (p : ℕ) : Type 0 where
  pub carried : previous s.tokens account domain ≡ pos p
  pub bounded : All (IsBelow (suc p)) (domain_rows account domain s.entries)
  pub distinct : HasDistinctKeys number_of (domain_rows account domain s.entries)

module _ (unmarshal : Text → Option Value) (env : Env) where
  -- A Push that succeeds at time t and accepts n items keeps the numbers of its domain distinct, and
  -- moves the token to a greater number that bounds them, as long as these fit an int64.
  pub push-IsNumbered :
      (s t : Service) (account : ℕ) (req : PushRequest) (n : ℕ) (tok : Text) (p now : ℕ)
      → push unmarshal env s account req ≡ (t, ok (n, tok))
      → IsNumbered s account req.domain p
      → env.now ≡ pos now
      → byte_length env.hex ≡ 6
      → p + n + 2 < two63
      → now + n + 1 < two63
      → IsNumbered t account req.domain (end_of (start_of p now) n)
        × (p < end_of (start_of p now) n)
  unfolding prune_tombstones
  push-IsNumbered s t account req n tok p now h v clock six fp fn =
      let (items, checked, c) = push-Committed unmarshal env s account req t n tok h in
      let d = req.domain in
      let len = length c.accepted in
      let count : n ≡ len = c.count_lem in
      let next_lem : c.batch ≡ next s.tokens account d len (pos now) env.hex =
        c.batch_lem ∙ ap (λ z. next s.tokens account d len z env.hex) clock in
      let (base, carried, above, _, _) =
        next_advances s.tokens account d len p now env.hex v.carried (omega arith) (omega arith)
          six in
      let start = start_of p now in
      let base_lem : c.batch.seq_base ≡ pos start =
        ap (λ (b : Batch). b.seq_base) next_lem ∙ base in
      let wrote : write_all env account d (pos start) 0 c.accepted s.entries ≡ ok c.written =
        subst (λ z. write_all env account d z 0 c.accepted s.entries ≡ ok c.written) base_lem
          c.write_ok in
      let fits : start + 0 + len < two63 = ground arith in
      let (below, apart) =
        write_all-numbers env account d start 0 c.accepted s.entries c.written fits
          (All-IsBelow_mono (suc p) (start + 0) _ (omega arith) v.bounded) v.distinct wrote in
      let live : Entry → Bool = λ e. not (is_expired_tombstone env account d e) in
      let rows : domain_rows account d t.entries ≡ keep live (domain_rows account d c.written) =
        ap (domain_rows account d) c.entries_lem ∙ keep-keep (of_domain account d) live c.written in
      (
        record {
          carried =
              ap (λ store. previous store account d)
                (c.tokens_lem ∙ ap (λ (b : Batch). b.store) next_lem)
              ∙ (carried ∙ ap (λ m. pos (end_of start m)) (sym count));
          bounded = subst (All (IsBelow (suc (end_of start n)))) (sym rows) (
              All-keep (IsBelow (suc (end_of start n))) live _
                (All-IsBelow_mono (start + 0 + len) _ _ (omega arith) below));
          distinct =
              subst (HasDistinctKeys number_of) (sym rows)
                (keep-HasDistinctKeys number_of live _ apart);
        },
        omega arith,
      )
