-- ===== src/Sync/Push.antt =====
-- Push of internal/sync/service.go: the merge under the lock, in one transaction. The SQL
-- statements that can fail are named, and an oracle says which of them do.
pub mod Merge
pub mod Outcome
pub mod LastWrite
pub mod Numbers
pub mod Duplicates
use pixiv_relay.Crypto.{Cipher}
use pixiv_relay.Common.Errors.{Result, ok, err, Error, internal, refuse, ◌>>=◌, ◌>>◌}
use pixiv_relay.Prelude.Int.{ℤ, pos, sub64, ltb_ℤ, leb_ℤ, add64}
use pixiv_relay.Prelude.Table.{find, upsert}
use pixiv_relay.Prelude.{
  ℕ, suc, ◌+◌, Bool, true, false, ◌&&◌, not, List, [], ◌∷◌, Option, none, some, ◌≡◌, refl, Text,
  codes, length, text_beq, nat_beq, if◌then◌else◌, keep, text_eq, nat_eq, pair_eq,
}
use pixiv_relay.Sync.Json.{Value}
use pixiv_relay.Sync.Store.{
  Entry, entry_key, DomainRow, domain_key, Service, PushItem, PushRequest, tombstone_retention_ms,
  check_push,
}
use pixiv_relay.Sync.Token.{Batch, next}

pub data Statement : Type 0 where
  begin domain_row prune commit : Statement
  read write : ℕ → Statement

-- What a request brings besides its body: the clock, the random hex, the cipher and the faults.
pub record Env : Type 0 where
  pub now : ℤ
  pub hex : Text
  pub cipher : Cipher
  pub fails : Statement → Bool

-- `existAt >= it.UpdatedAt`
abbrev pub is_stale : PushItem → Option Entry → Bool
is_stale it none = false
is_stale it (some e) = leb_ℤ it.updated_at e.updated_at

module _ (env : Env) (account : ℕ) (domain : Text) where
  -- The loop that reads the stored times; `i` counts the rounds.
  unfoldable pub accept : List Entry → ℕ → List PushItem → Result (List PushItem)
  accept entries i [] = ok []
  accept entries i (it ∷ items) = do
    refuse (env.fails (read i)) (internal (codes "read sync entry"))
    rest ← accept entries (i + 1) items
    ok (
        if is_stale it (find entry_key (account, (domain, it.key)) entries)
        then rest
        else it ∷ rest)

  unfoldable pub stored : ℤ → ℕ → PushItem → Entry
  stored seq_base i it = record {
    account = account;
    domain = domain;
    key = it.key;
    data_text = env.cipher.encrypt i it.raw;
    updated_at = it.updated_at;
    deleted = it.deleted;
    seq = add64 seq_base (pos i);
  }

  -- The loop that writes the accepted items.
  unfoldable pub write_all : ℤ → ℕ → List PushItem → List Entry → Result (List Entry)
  unfolding stored
  write_all seq_base i [] entries = ok entries
  write_all seq_base i (it ∷ items) entries = do
    refuse (env.fails (write i)) (internal (codes "upsert sync entry"))
    write_all seq_base (i + 1) items (upsert entry_key (stored seq_base i it) entries)

  unfoldable pub max_updated_at : ℤ → List PushItem → ℤ
  max_updated_at m [] = m
  max_updated_at m (it ∷ items) =
      max_updated_at (if ltb_ℤ m it.updated_at then it.updated_at else m) items

  -- INSERT … ON CONFLICT DO UPDATE, with MAX(latest_updated_at, excluded.latest_updated_at).
  unfoldable pub write_domain : Text → ℤ → List DomainRow → List DomainRow
  write_domain token latest rows =
      let fresh : DomainRow = record {
        account = account;
        domain = domain;
        sync_token = token;
        latest_updated_at = latest;
      } in
      elim (find domain_key (account, domain) rows) [
        | none ↦ upsert domain_key fresh rows
        | some old ↦
            upsert domain_key
              (record fresh {
                latest_updated_at =
                    if ltb_ℤ latest old.latest_updated_at then old.latest_updated_at else latest;
              })
              rows
      ]

  -- A tombstone of this domain that is older than the retention period.
  unfoldable pub is_expired_tombstone : Entry → Bool
  is_expired_tombstone e =
      (nat_beq e.account account && text_beq e.domain domain)
      && (e.deleted && ltb_ℤ e.seq (sub64 env.now tombstone_retention_ms))

  unfoldable pub prune_tombstones : List Entry → List Entry
  prune_tombstones = keep (λ e. not (is_expired_tombstone e))

  -- From the first write to the commit.
  unfoldable pub write_batch :
      Service → Batch → List PushItem → Result (List Entry × List DomainRow)
  unfolding write_all write_domain prune_tombstones
  write_batch s batch accepted = do
    written ← write_all batch.seq_base 0 accepted s.entries
    refuse (env.fails domain_row) (internal (codes "update sync domain"))
    let domains = write_domain batch.token (max_updated_at (pos 0) accepted) s.domains
    refuse (env.fails prune) (internal (codes "prune tombstones"))
    refuse (env.fails commit) (internal (codes "commit push tx"))
    ok (prune_tombstones written, domains)

  -- The number of accepted items, and the new token.
  abbrev pub Pushed : Type 0
  Pushed = Result (ℕ × Text)

  -- A failed transaction is rolled back, but the cursor in memory has moved on.
  unfoldable pub settle :
      Service → Batch → ℕ → Result (List Entry × List DomainRow) → Service × Pushed
  settle s batch n (ok (entries, domains)) =
      (record s { entries = entries; domains = domains; tokens = batch.store }, ok (n, batch.token))
  settle s batch n (err e) = (record s { tokens = batch.store }, err e)

  unfoldable pub merge_accepted : Service → Result (List PushItem) → Service × Pushed
  unfolding write_batch settle
  merge_accepted s (err e) = (s, err e)
  merge_accepted s (ok accepted) =
      let batch = next s.tokens account domain (length accepted) env.now env.hex in
      settle s batch (length accepted) (write_batch s batch accepted)

  unfoldable pub merge : Service → List PushItem → Service × Pushed
  unfolding merge_accepted accept
  merge s items =
      merge_accepted s
        (refuse (env.fails begin) (internal (codes "begin push tx")) >> accept s.entries 0 items)

module _ (unmarshal : Text → Option Value) (env : Env) where
  unfoldable pub merge_checked :
      Service → ℕ → Text → Result (List PushItem) → Service × Result (ℕ × Text)
  unfolding merge
  merge_checked s account domain (err e) = (s, err e)
  merge_checked s account domain (ok items) = merge env account domain s items

  unfoldable pub push : Service → ℕ → PushRequest → Service × Result (ℕ × Text)
  unfolding merge_checked check_push
  push s account req =
      merge_checked s account req.domain (check_push unmarshal s account req env.now)
