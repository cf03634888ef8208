-- ===== src/Sync/Push/Duplicates.antt =====
-- Two items of one body with the same key.
use pixiv_relay.Prelude.Int.{ℤ}
use pixiv_relay.Prelude.Table.{upsert}
use pixiv_relay.Prelude.{ℕ, ◌≡◌, false, List, Text, text_eq, nat_eq, pair_eq}
use pixiv_relay.Sync.Push.{Env, Statement, stored}
use pixiv_relay.Sync.Store.{Entry, entry_key, Service, PushItem}

module _ (env : Env) (account : ℕ) (domain : Text) (s : Service) (x y : PushItem)
    (works : (st : Statement) → env.fails st ≡ false) where
  abbrev two_rows : ℤ → List Entry
  two_rows b =
      upsert entry_key (stored env account domain b 1 y)
        (upsert entry_key (stored env account domain b 0 x) s.entries)
