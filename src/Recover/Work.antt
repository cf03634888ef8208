-- ===== src/Recover/Work.antt =====
-- work of internal/recover/queue.go: a search from the snapshot to the row that it writes, and what
-- clients get afterwards.
use pixiv_relay.Prelude.Int.{ℤ}
use pixiv_relay.Prelude.{◌≡◌, Bool, List, [], ◌∷◌, some, none, Option, Text}
use pixiv_relay.Recover.Lifetime.{Outcome}
use pixiv_relay.Recover.Queue.{Codec, Queue, Job, Source, load_snapshot, try_sources, write_result}
use pixiv_relay.Recover.Sources.{Page, Snapshot, Failure, Fetched, failed, found}
use pixiv_relay.Sync.Json.{Value}
use pixiv_relay.Sync.Store.{Entry}

module _ {C : Type 0} where
  -- `now` is the time when the sources are done.
  unfoldable pub work :
      Codec → List (Source C) → Bool → Bool → ℤ → List Entry → Job → C → Queue → C × Queue
  unfolding load_snapshot try_sources write_result
  work codec sources load_fails write_fails now entries j c q =
      let snap = load_snapshot codec load_fails entries j.account j.pid in
      let (c', r) = try_sources sources c j.pid snap in
      (c', write_result codec write_fails now j snap r q)

  -- The sources are asked one by one, each in the state that the one before left, up to the first that
  -- has pages.
  pub data Search (pid : Text) (snap : Option (Snapshot Value))
      : List (Source C) → C → C → Outcome → Type 0 where
    exhausted : (c : C) → Search pid snap [] c c none
    passed :
        {s : Source C} {ss : List (Source C)} {c c' c'' : C} {r : Outcome} {f : Failure}
        → s.fetch c pid snap ≡ (c', failed f)
        → Search pid snap ss c' c'' r
        → Search pid snap (s ∷ ss) c c'' r
    hit :
        {s : Source C} {ss : List (Source C)} {c c' : C} {pages : List Page}
        → s.fetch c pid snap ≡ (c', found pages)
        → Search pid snap (s ∷ ss) c c' (some (pages, s.name))

  -- What comes of the call of one source.
  abbrev outcome_of :
      Text
      → Text
      → Option (Snapshot Value)
      → List (Source C)
      → C × Fetched (List Page)
      → C × Outcome
  outcome_of name pid snap ss x = elim x.1 [
    | failed f ↦ try_sources ss x.0 pid snap
    | found pages ↦ (x.0, some (pages, name))
  ]
