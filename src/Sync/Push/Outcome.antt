-- ===== src/Sync/Push/Outcome.antt =====
-- What a whole Push does to the tables and the cursors, on success and on failure.
use pixiv_relay.Common.Errors.{
  Result, ok, err, Error, internal, >>=-eq-ok, refuse-eq-ok, ok_injective, ◌>>◌, refuse,
}
use pixiv_relay.Prelude.Int.{pos}
use pixiv_relay.Prelude.{
  ℕ, ◌≡◌, refl, ap, ◌∙◌, sym, List, Option, arith, Text, codes, text_eq, nat_eq, pair_eq, length,
}
use pixiv_relay.Sync.Json.{Value}
use pixiv_relay.Sync.Push.{
  Env, begin, domain_row, prune, commit, accept, write_all, write_domain, max_updated_at,
  write_batch, prune_tombstones, settle, merge_accepted, merge, merge_checked, push,
}
use pixiv_relay.Sync.Store.{Entry, DomainRow, Service, PushItem, PushRequest, check_push}
use pixiv_relay.Sync.Token.{Batch, next}

abbrev pub Same : Service → Service → Type 0
Same s t = (t.entries ≡ s.entries) × (t.domains ≡ s.domains)

module _ (env : Env) (account : ℕ) (domain : Text) (s : Service) where
  settle_error :
      (b : Batch) (n : ℕ) (r : Result (List Entry × List DomainRow)) {e : Error}
      → (settle env account domain s b n r).1 ≡ err e
      → Same s (settle env account domain s b n r).0
  unfolding settle
  settle_error b n (ok (es, ds)) h = absurd (cc)
  settle_error b n (err e) h = (refl, refl)

  merge_accepted_error :
      (r : Result (List PushItem)) {e : Error}
      → (merge_accepted env account domain s r).1 ≡ err e
      → Same s (merge_accepted env account domain s r).0
  unfolding merge_accepted
  merge_accepted_error (err e) h = (refl, refl)
  merge_accepted_error (ok acc) h =
      settle_error (next s.tokens account domain (length acc) env.now env.hex) _ _ h

  merge_error :
      (items : List PushItem) {e : Error}
      → (merge env account domain s items).1 ≡ err e
      → Same s (merge env account domain s items).0
  unfolding merge
  merge_error items h = merge_accepted_error _ h

  -- A transaction that commits has read, written, pruned, and moved the cursor.
  pub record Committed (items : List PushItem) (t : Service) (n : ℕ) (tok : Text) : Type 0 where
    pub accepted : List PushItem
    pub written : List Entry
    pub accept_ok : accept env account domain s.entries 0 items ≡ ok accepted
    pub batch : Batch
    pub batch_lem : batch ≡ next s.tokens account domain (length accepted) env.now env.hex
    pub write_ok : write_all env account domain batch.seq_base 0 accepted s.entries ≡ ok written
    pub entries_lem : t.entries ≡ prune_tombstones env account domain written
    pub domains_lem :
        t.domains
        ≡ write_domain env account domain batch.token
            (max_updated_at env account domain (pos 0) accepted)
            s.domains
    pub tokens_lem : t.tokens ≡ batch.store
    pub count_lem : n ≡ length accepted
    pub token_lem : tok ≡ batch.token

  write_batch_ok :
      (b : Batch) (acc : List PushItem) (es : List Entry) (ds : List DomainRow)
      → write_batch env account domain s b acc ≡ ok (es, ds)
      → (w : List Entry) × (write_all env account domain b.seq_base 0 acc s.entries ≡ ok w)
        × (es ≡ prune_tombstones env account domain w)
        × (ds
            ≡ write_domain env account domain b.token
                (max_updated_at env account domain (pos 0) acc)
                s.domains)
  unfolding write_batch
  write_batch_ok b acc es ds h =
      let (w, e, f) = >>=-eq-ok (write_all env account domain b.seq_base 0 acc s.entries) _ h in
      let (_, g) = refuse-eq-ok (env.fails domain_row) _ _ f in
      let (_, k) = refuse-eq-ok (env.fails prune) _ _ g in
      let (_, l) = refuse-eq-ok (env.fails commit) _ _ k in
      (w, e, ap (λ p. p.0) (sym (ok_injective l)), ap (λ p. p.1) (sym (ok_injective l)))

  settle_ok :
      (items acc : List PushItem) (b : Batch) (r : Result (List Entry × List DomainRow))
      (t : Service) (n : ℕ) (tok : Text)
      → accept env account domain s.entries 0 items ≡ ok acc
      → b ≡ next s.tokens account domain (length acc) env.now env.hex
      → write_batch env account domain s b acc ≡ r
      → settle env account domain s b (length acc) r ≡ (t, ok (n, tok))
      → Committed items t n tok
  unfolding settle
  settle_ok items acc b (err e) t n tok a eb w h = absurd (cc (ap (λ p. p.1) h))
  settle_ok items acc b (ok (es, ds)) t n tok a eb w h =
      let (wr, e, f, g) = write_batch_ok b acc es ds w in
      record {
        accepted = acc;
        written = wr;
        accept_ok = a;
        batch = b;
        batch_lem = eb;
        write_ok = e;
        entries_lem = sym (ap (λ p. p.0.entries) h) ∙ f;
        domains_lem = sym (ap (λ p. p.0.domains) h) ∙ g;
        tokens_lem = sym (ap (λ p. p.0.tokens) h);
        count_lem = ground arith;
        token_lem = ground arith;
      }

  merge_accepted_ok :
      (items : List PushItem) (r : Result (List PushItem)) (t : Service) (n : ℕ) (tok : Text)
      → (refuse (env.fails begin) (internal (codes "begin push tx"))
          >> accept env account domain s.entries 0 items)
        ≡ r
      → merge_accepted env account domain s r ≡ (t, ok (n, tok))
      → Committed items t n tok
  unfolding merge_accepted
  merge_accepted_ok items (err e) t n tok a h = absurd (cc (ap (λ p. p.1) h))
  merge_accepted_ok items (ok acc) t n tok a h =
      let (_, a') = refuse-eq-ok (env.fails begin) _ _ a in
      settle_ok items acc (next s.tokens account domain (length acc) env.now env.hex) _ t n tok a'
        refl refl h

  pub merge-Committed :
      (items : List PushItem) (t : Service) (n : ℕ) (tok : Text)
      → merge env account domain s items ≡ (t, ok (n, tok))
      → Committed items t n tok
  unfolding merge
  merge-Committed items t n tok h = merge_accepted_ok items _ t n tok refl h

module _ (unmarshal : Text → Option Value) (env : Env) where
  merge_checked_error :
      (s : Service) (account : ℕ) (domain : Text) (r : Result (List PushItem)) {e : Error}
      → (merge_checked unmarshal env s account domain r).1 ≡ err e
      → Same s (merge_checked unmarshal env s account domain r).0
  unfolding merge_checked
  merge_checked_error s a d (err e) h = (refl, refl)
  merge_checked_error s a d (ok items) h = merge_error env a d s items h

  pub push_error_keeps_tables :
      (s : Service) (account : ℕ) (req : PushRequest) {e : Error}
      → (push unmarshal env s account req).1 ≡ err e
      → Same s (push unmarshal env s account req).0
  unfolding push
  push_error_keeps_tables s account req h = merge_checked_error s account req.domain _ h

  merge_checked-Committed :
      (s : Service) (account : ℕ) (domain : Text) (r : Result (List PushItem)) (t : Service) (n : ℕ)
      (tok : Text)
      → merge_checked unmarshal env s account domain r ≡ (t, ok (n, tok))
      → (items : List PushItem) × (r ≡ ok items) × Committed env account domain s items t n tok
  unfolding merge_checked
  merge_checked-Committed s a d (err e) t n tok h = absurd (cc (ap (λ p. p.1) h))
  merge_checked-Committed s a d (ok items) t n tok h =
      (items, refl, merge-Committed env a d s items t n tok h)

  pub push-Committed :
      (s : Service) (account : ℕ) (req : PushRequest) (t : Service) (n : ℕ) (tok : Text)
      → push unmarshal env s account req ≡ (t, ok (n, tok))
      → (items : List PushItem) × (check_push unmarshal s account req env.now ≡ ok items)
        × Committed env account req.domain s items t n tok
  unfolding push
  push-Committed s account req t n tok h =
      merge_checked-Committed s account req.domain (check_push unmarshal s account req env.now) t n
        tok h
