-- ===== src/Sync/Push/LastWrite.antt =====
-- Push as its clients see it: last write wins for each key, and nothing else moves.
use mathlib.Core.Path.{subst}
use mathlib.Core.Option
use pixiv_relay.Common.Errors.{ok, refuse-eq-ok}
use pixiv_relay.Prelude.Int.{ℤ, pos, sub64, ◌<ℤ◌}
use pixiv_relay.Prelude.Table.{
  find, upsert, HasDistinctKeys, keep_if, find-keep, find-upsert_ne, upsert-HasDistinctKeys,
  key_of_find,
}
use pixiv_relay.Prelude.{
  ℕ, ◌+◌, ◌≡◌, ◌⊎◌, ◌*◌, true, refl, ap, ◌∙◌, Bool, not, List, [], ◌∷◌, Option, none, some, arith,
  Text, text_eq, nat_eq, pair_eq, text_beq_iff,
}
use pixiv_relay.Sync.Json.{Value}
use pixiv_relay.Sync.Push.Outcome.{push-Committed}
use pixiv_relay.Sync.Push.{
  Env, write_all, stored, write, prune_tombstones, is_expired_tombstone, push,
}
use pixiv_relay.Sync.Store.{Entry, entry_key, Service, PushItem, PushRequest, normalize}

abbrev pub normalized : PushItem → PushItem
normalized it = record it { raw = normalize it.raw }

-- A deletion that is numbered more than 90 days before the time of the Push.
abbrev pub IsExpired : Env → Entry → Type 0
IsExpired env e = (e.deleted ≡ true) × (e.seq <ℤ sub64 env.now (pos (90 * 24 * 3600 * 1000)))

-- What is left of a row: nothing of an expired deletion, and else the row.
abbrev pub Remains : Env → Option Entry → Option Entry → Type 0
Remains env none left = left ≡ none
Remains env (some e) left =
    (IsExpired env e × (left ≡ none)) ⊎ ((¬ IsExpired env e) × (left ≡ some e))

module _ (env : Env) (account : ℕ) (domain : Text) where
  pub write_all-HasDistinctKeys :
      (b : ℤ) (i : ℕ) (acc : List PushItem) (entries written : List Entry)
      → HasDistinctKeys entry_key entries
      → write_all env account domain b i acc entries ≡ ok written
      → HasDistinctKeys entry_key written
  unfolding write_all
  write_all-HasDistinctKeys b i [] entries written d h = subst (HasDistinctKeys entry_key) (cc) d
  write_all-HasDistinctKeys b i (it ∷ items) entries written d h =
      let (_, g) = refuse-eq-ok (env.fails (write i)) _ _ h in
      write_all-HasDistinctKeys b (i + 1) items
        (upsert entry_key (stored env account domain b i it) entries) written
        (upsert-HasDistinctKeys entry_key (stored env account domain b i it) entries d) g

  find-write_all_ne :
      (b : ℤ) (i : ℕ) (acc : List PushItem) (entries written : List Entry) (k : ℕ × (Text × Text))
      → (k.0 ≡ account → k.1.0 ≡ domain → ⊥)
      → write_all env account domain b i acc entries ≡ ok written
      → find entry_key k written ≡ find entry_key k entries
  unfolding write_all
  find-write_all_ne b i [] entries written k ne h = ap (find entry_key k) (cc)
  find-write_all_ne b i (it ∷ items) entries written k ne h =
      let (_, g) = refuse-eq-ok (env.fails (write i)) _ _ h in
      find-write_all_ne b (i + 1) items
        (upsert entry_key (stored env account domain b i it) entries) written k ne g
      ∙ find-upsert_ne entry_key (stored env account domain b i it) k entries
          (λ e. ne (ap (λ p. p.0) e) (ap (λ p. p.1.0) e))

  abbrev pub survives : Entry → Bool
  survives e = not (is_expired_tombstone env account domain e)

  -- Pruning drops no row of another domain.
  keep_if_foreign :
      (k : ℕ × (Text × Text)) (o : Option Entry) (rows : List Entry)
      → (k.0 ≡ account → k.1.0 ≡ domain → ⊥)
      → find entry_key k rows ≡ o
      → keep_if entry_key survives o ≡ o
  unfolding is_expired_tombstone
  keep_if_foreign k none rows ne h = refl
  keep_if_foreign k (some e) rows ne h =
      let at : entry_key e ≡ k = key_of_find entry_key k rows e h in
      let acc : e.account ≡ k.0 = ap (λ p. p.0) at in
      let dom : e.domain ≡ k.1.0 = ap (λ p. p.1.0) at in
      ground (arith, text_beq_iff e.domain domain, ne)

module _ (unmarshal : Text → Option Value) (env : Env) where
  -- A Push that succeeds leaves every row of other accounts and other domains as it was.
  pub push_isolation :
      (s t : Service) (account : ℕ) (req : PushRequest) (n : ℕ) (tok : Text) (b : ℕ) (d k : Text)
      → push unmarshal env s account req ≡ (t, ok (n, tok))
      → HasDistinctKeys entry_key s.entries
      → (b ≡ account → d ≡ req.domain → ⊥)
      → find entry_key (b, (d, k)) t.entries ≡ find entry_key (b, (d, k)) s.entries
  unfolding prune_tombstones
  push_isolation s t account req n tok b d k h ds ne =
      let (items, checked, c) = push-Committed unmarshal env s account req t n tok h in
      ap (find entry_key (b, (d, k))) c.entries_lem
      ∙ (find-keep entry_key (survives env account req.domain) (b, (d, k)) c.written
            (write_all-HasDistinctKeys env account req.domain c.batch.seq_base 0 c.accepted
              s.entries c.written ds c.write_ok)
          ∙ (keep_if_foreign env account req.domain (b, (d, k)) _ c.written ne refl
              ∙ find-write_all_ne env account req.domain c.batch.seq_base 0 c.accepted s.entries
                  c.written (b, (d, k)) ne c.write_ok))
