-- ===== src/Sync/Restart.antt =====
-- A restart of internal/sync: the cursors are read back from the table that Push writes.
use mathlib.Core.Path.{subst}
use pixiv_relay.Common.Errors.{ok}
use pixiv_relay.Prelude.Int.{ℤ, pos, ltb_ℤ}
use pixiv_relay.Prelude.Table.{
  find, upsert, HasDistinctKeys, find-upsert_self, find-upsert_ne, upsert-HasDistinctKeys,
}
use pixiv_relay.Prelude.{
  ℕ, ◌≡◌, ◌≢◌, refl, ap, ◌∙◌, sym, false, List, [], Option, none, some, Text, map, Bool-cases, inl,
  inr, is_empty, length, if◌then◌else◌, text_eq, nat_eq, pair_eq,
}
use pixiv_relay.Sync.Json.{Value}
use pixiv_relay.Sync.Push.Outcome.{push-Committed}
use pixiv_relay.Sync.Push.{Env, write_domain, max_updated_at, push}
use pixiv_relay.Sync.Store.{DomainRow, domain_key, token_row, Service, PushRequest, load_service}
use pixiv_relay.Sync.Token.Load.{
  saved_token, current?-load_all, current?-upsert_self, current?-upsert_ne,
}
use pixiv_relay.Sync.Token.{
  TokenStore, slot, token_key, current?, next, format_token, load, previous, first_seq, last_seq,
}

module _ (env : Env) (account : ℕ) (domain token : Text) (latest : ℤ) where
  abbrev latest_after : Option DomainRow → ℤ
  latest_after none = latest
  latest_after (some old) =
      if ltb_ℤ latest old.latest_updated_at then old.latest_updated_at else latest

  -- The row that is written, where `o` stood there.
  abbrev row_after : Option DomainRow → DomainRow
  row_after o = record {
    account = account;
    domain = domain;
    sync_token = token;
    latest_updated_at = latest_after o;
  }

  write_domain_lem :
      (rows : List DomainRow) (o : Option DomainRow)
      → find domain_key (account, domain) rows ≡ o
      → write_domain env account domain token latest rows ≡ upsert domain_key (row_after o) rows
  unfolding write_domain
  write_domain_lem rows none e = rw (e, write_domain) refl
  write_domain_lem rows (some old) e = rw (e, write_domain) refl

  saved_own :
      (rows : List DomainRow)
      → is_empty token ≡ false
      → saved_token
          (find domain_key (account, domain) (write_domain env account domain token latest rows))
        ≡ some token
  saved_own rows full =
      let o = find domain_key (account, domain) rows in
      ap (λ l. saved_token (find domain_key (account, domain) l)) (write_domain_lem rows o refl)
      ∙ (ap saved_token (find-upsert_self domain_key (row_after o) rows) ∙ rw full refl)

  saved_other :
      (rows : List DomainRow) (k : ℕ × Text)
      → k ≢ (account, domain)
      → find domain_key k (write_domain env account domain token latest rows)
        ≡ find domain_key k rows
  saved_other rows k ne =
      let o = find domain_key (account, domain) rows in
      ap (find domain_key k) (write_domain_lem rows o refl)
      ∙ find-upsert_ne domain_key (row_after o) k rows ne

  write_domain-HasDistinctKeys :
      (rows : List DomainRow)
      → HasDistinctKeys domain_key rows
      → HasDistinctKeys domain_key (write_domain env account domain token latest rows)
  write_domain-HasDistinctKeys rows d =
      let o = find domain_key (account, domain) rows in
      subst (HasDistinctKeys domain_key) (sym (write_domain_lem rows o refl))
        (upsert-HasDistinctKeys domain_key (row_after o) rows d)

  abbrev rows_after : List DomainRow → List DomainRow
  rows_after rows = write_domain env account domain token latest rows

  loads_own :
      (rows : List DomainRow)
      → is_empty token ≡ false
      → HasDistinctKeys domain_key rows
      → current? (load [] (map token_row (rows_after rows))) account domain ≡ some token
  loads_own rows full apart =
      current?-load_all (rows_after rows) account domain (write_domain-HasDistinctKeys rows apart)
      ∙ saved_own rows full

  loads_same :
      (rows : List DomainRow) (cur : TokenStore) (b : ℕ) (d : Text)
      → is_empty token ≡ false
      → HasDistinctKeys domain_key rows
      → current? (load [] (map token_row rows)) b d ≡ current? cur b d
      → current? (load [] (map token_row (rows_after rows))) b d
        ≡ current? (upsert slot (token_key account domain, token) cur) b d
  loads_same rows cur b d full apart same =
      elim (Bool-cases (pair_eq.beq (account, domain) (b, d))) [
        | inl own ↦
            subst
              (λ k.
                current? (load [] (map token_row (rows_after rows))) k.0 k.1
                ≡ current? (upsert slot (token_key account domain, token) cur) k.0 k.1)
              ((pair_eq.beq_iff (account, domain) (b, d)).0 own)
              (loads_own rows full apart ∙ sym (current?-upsert_self cur account domain token))
        | inr other ↦
            let ne : ◌≢◌ {A = ℕ × Text} (b, d) (account, domain) =
              λ e. absurd (cc ((pair_eq.beq_iff (account, domain) (b, d)).1 (sym e), other)) in
            current?-load_all (rows_after rows) b d (write_domain-HasDistinctKeys rows apart)
            ∙ (ap saved_token (saved_other rows (b, d) ne)
                ∙ (sym (current?-load_all rows b d apart)
                    ∙ (same ∙ sym (current?-upsert_ne cur account b domain d token ne))))
      ]

-- The cursor of a domain after a start from the table.
abbrev pub reloaded : Service → ℕ → Text → Option Text
reloaded s account domain = current? (load_service s.entries s.domains).tokens account domain

token_full : (n : ℤ) (hex : Text) → is_empty (format_token n hex) ≡ false
unfolding format_token
token_full n hex = refl

next_full :
    (cur : TokenStore) (a : ℕ) (d : Text) (n : ℕ) (now : ℤ) (hex : Text)
    → is_empty (next cur a d n now hex).token ≡ false
unfolding next
next_full cur a d n now hex = token_full (last_seq (first_seq (previous cur a d) now) n) hex

next_store :
    (cur : TokenStore) (a : ℕ) (d : Text) (n : ℕ) (now : ℤ) (hex : Text)
    → (next cur a d n now hex).store
      ≡ upsert slot (token_key a d, (next cur a d n now hex).token) cur
unfolding next
next_store cur a d n now hex = refl

module _ (unmarshal : Text → Option Value) (env : Env) where
  -- A Push that succeeds can be restarted from: the table has the token that it returned, and gives
  -- every domain, of any account, the cursor that is in memory, if it did so before. No two rows of
  -- sync_domains have one key, before it and after it.
  pub reloaded-push :
      (s t : Service) (account : ℕ) (req : PushRequest) (n : ℕ) (tok : Text) (b : ℕ) (d : Text)
      → push unmarshal env s account req ≡ (t, ok (n, tok))
      → HasDistinctKeys domain_key s.domains
      → reloaded s b d ≡ current? s.tokens b d
      → (reloaded t account req.domain ≡ some tok)
        × (reloaded t b d ≡ current? t.tokens b d)
        × HasDistinctKeys domain_key t.domains
  reloaded-push s t account req n tok b d pushed apart same =
      let (items, _, c) = push-Committed unmarshal env s account req t n tok pushed in
      let made = next s.tokens account req.domain (length c.accepted) env.now env.hex in
      let latest = max_updated_at env account req.domain (pos 0) c.accepted in
      let full = next_full s.tokens account req.domain (length c.accepted) env.now env.hex in
      let token : tok ≡ made.token = c.token_lem ∙ ap (λ x. x.token) c.batch_lem in
      let domains : t.domains ≡ write_domain env account req.domain made.token latest s.domains =
        c.domains_lem
        ∙ ap (λ x. write_domain env account req.domain x.token latest s.domains) c.batch_lem in
      let tokens : t.tokens ≡ upsert slot (token_key account req.domain, made.token) s.tokens =
        c.tokens_lem
        ∙ (ap (λ x. x.store) c.batch_lem
            ∙ next_store s.tokens account req.domain (length c.accepted) env.now env.hex) in
      (
        ap (λ rows. current? (load [] (map token_row rows)) account req.domain) domains
            ∙ (loads_own env account req.domain made.token latest s.domains full apart
                ∙ ap some (sym token)),
        ap (λ rows. current? (load [] (map token_row rows)) b d) domains
            ∙ (loads_same env account req.domain made.token latest s.domains s.tokens b d full apart
                  same
                ∙ ap (λ cur. current? cur b d) (sym tokens)),
        subst (HasDistinctKeys domain_key) (sym domains)
            (write_domain-HasDistinctKeys env account req.domain made.token latest s.domains apart),
      )
