-- ===== src/Recover/Lifetime.antt =====
-- From the end of a search to the answers that clients get: for how long, and what comes after.
use mathlib.Core.Path.{subst}
use pixiv_relay.Prelude.Int.{ℤ, add64, ltb_ℤ}
use pixiv_relay.Prelude.Table.{find, upsert, find-upsert_self, find-upsert_ne, key_of_find}
use pixiv_relay.Prelude.{
  ℕ, ◌≡◌, ◌≢◌, refl, ap, ◌∙◌, Bool, true, false, List, [], Option, none, some, Text, codes, any,
  text_beq, if◌then◌else◌, map, Bool-cases, inl, inr, text_eq, nat_eq, pair_eq,
}
use pixiv_relay.Recover.Query.{
  Answer, gone, recovered, wait, is_numeric, wrap_page, answer_row, query,
}
use pixiv_relay.Recover.Queue.{
  Codec, Queue, Row, Job, fetching, row_key, job_key, enqueue, mark_fetching, marked, write_result,
  result_row, snapshot_meta, find_row, if_live, is_live, open_row, lookup,
}
use pixiv_relay.Recover.Sources.{Page, Snapshot}
use pixiv_relay.Sync.Json.{Value}

abbrev pub Outcome : Type 0
Outcome = Option (List Page × Text)

-- What is written can be read back.
abbrev pub IsReadable : Codec → Option (Snapshot Value) → Outcome → Type 0
IsReadable codec snap none =
    (codec.cipher.decrypt (codes "[]") ≡ some (codes "[]"))
    × (codec.cipher.decrypt (codes "{}") ≡ some (codes "{}"))
    × (codec.read_pages (codes "[]") ≡ some [])
IsReadable codec snap (some (pages, source)) =
    (codec.cipher.decrypt (codec.cipher.encrypt 0 (codec.show_pages pages))
      ≡ some (codec.show_pages pages))
    × (codec.cipher.decrypt (codec.cipher.encrypt 1 (codec.show_meta (snapshot_meta codec snap)))
        ≡ some (codec.show_meta (snapshot_meta codec snap)))
    × (codec.read_pages (codec.show_pages pages) ≡ some pages)
    × (codec.read_meta (codec.show_meta (snapshot_meta codec snap)) ≡ snapshot_meta codec snap)

-- The answer to an outcome, and how long it counts.
abbrev pub answer_of : Codec → Text → Option (Snapshot Value) → Outcome → Answer
answer_of codec base snap none = gone
answer_of codec base snap (some (pages, source)) =
    recovered (map (wrap_page base) pages) source (snapshot_meta codec snap)

abbrev pub lifetime : Queue → Outcome → ℤ
lifetime q none = q.negative_ttl
lifetime q (some r) = q.ttl

module _ (codec : Codec) where
  written :
      (now : ℤ) (j : Job) (snap : Option (Snapshot Value)) (r : Outcome) (q : Queue)
      → find row_key (j.account, j.pid) (write_result codec false now j snap r q).rows
        ≡ some (result_row codec q now j snap r)
  unfolding write_result result_row
  written now j snap none q = find-upsert_self row_key (result_row codec q now j snap none) q.rows
  written now j snap (some (pages, source)) q =
      find-upsert_self row_key (result_row codec q now j snap (some (pages, source))) q.rows

  query_numeric :
      (mark_fails : Bool) (later : ℤ) (account : ℕ) (pid base : Text) (q : Queue)
      → is_numeric pid ≡ true
      → query codec false mark_fails false later account pid base q
        ≡ answer_row codec mark_fails later account pid base q
            (open_row codec (if_live later (find row_key (account, pid) q.rows)))
  unfolding query lookup find_row
  query_numeric mf later account pid base q num = rw num

  opened_row :
      (now : ℤ) (j : Job) (snap : Option (Snapshot Value)) (r : Outcome) (base : Text)
      (q q' : Queue) (mark_fails : Bool) (later : ℤ)
      → IsReadable codec snap r
      → answer_row codec mark_fails later j.account j.pid base q'
          (open_row codec (some (result_row codec q now j snap r)))
        ≡ (q', answer_of codec base snap r)
  unfolding answer_row open_row result_row
  opened_row now j snap none base q q' mf later (a, b, c) = rw (a, b, c)
  opened_row now j snap (some (pages, source)) base q q' mf later (a, b, c, d) = rw (a, b, c, d)

  live_row :
      (now later : ℤ) (j : Job) (snap : Option (Snapshot Value)) (r : Outcome) (q : Queue)
      → is_live later (result_row codec q now j snap r) ≡ ltb_ℤ later (add64 now (lifetime q r))
  unfolding result_row
  live_row now later j snap none q = refl
  live_row now later j snap (some (pages, source)) q = refl

  answers_nothing :
      (mark_fails : Bool) (later : ℤ) (account : ℕ) (pid base : Text) (q : Queue)
      → answer_row codec mark_fails later account pid base q (open_row codec none)
        ≡ (enqueue mark_fails later account pid q, wait)
  unfolding answer_row open_row
  answers_nothing mf later account pid base q = refl

  -- Once the row is written, Query answers from it until it expires, and then starts a new search.
  answers_row :
      (mark_fails : Bool) (now later : ℤ) (j : Job) (snap : Option (Snapshot Value)) (r : Outcome)
      (base : Text) (q q' : Queue)
      → IsReadable codec snap r
      → is_numeric j.pid ≡ true
      → find row_key (j.account, j.pid) q'.rows ≡ some (result_row codec q now j snap r)
      → query codec false mark_fails false later j.account j.pid base q' ≡ (
          if ltb_ℤ later (add64 now (lifetime q r))
          then (q', answer_of codec base snap r)
          else (enqueue mark_fails later j.account j.pid q', wait))
  answers_row mf now later j snap r base q q' readable num row =
      let live = live_row now later j snap r q in
      elim (Bool-cases (ltb_ℤ later (add64 now (lifetime q r)))) [
        | inl young ↦
            query_numeric mf later j.account j.pid base q' num
            ∙ rw (row, live, young) (opened_row now j snap r base q q' mf later readable)
        | inr old ↦
            query_numeric mf later j.account j.pid base q' num
            ∙ rw (row, live, old) (answers_nothing mf later j.account j.pid base q')
      ]

  -- What a search found is what clients get: from the moment its result is written, a query for the
  -- image by the same account answers with the recovered pages, or with 404 where no source had it,
  -- as long as the result lives, and after that it answers 202 and starts a new search.
  pub query-write_result :
      (mark_fails : Bool) (now later : ℤ) (j : Job) (snap : Option (Snapshot Value)) (r : Outcome)
      (base : Text) (q : Queue)
      → IsReadable codec snap r
      → is_numeric j.pid ≡ true
      → query codec false mark_fails false later j.account j.pid base
          (write_result codec false now j snap r q)
        ≡ (if ltb_ℤ later (add64 now (lifetime q r))
            then (write_result codec false now j snap r q, answer_of codec base snap r)
            else (
              enqueue mark_fails later j.account j.pid (write_result codec false now j snap r q),
              wait,
            ))
  query-write_result mf now later j snap r base q readable num =
      answers_row mf now later j snap r base q (write_result codec false now j snap r q) readable
        num (written now j snap r q)

  -- A search leaves the rows of other images and other accounts as they were.
  pub write_result_isolation :
      (fails : Bool) (now : ℤ) (j : Job) (snap : Option (Snapshot Value)) (r : Outcome) (q : Queue)
      (account : ℕ) (pid : Text)
      → ((account ≡ j.account) → (pid ≡ j.pid) → ⊥)
      → find row_key (account, pid) (write_result codec fails now j snap r q).rows
        ≡ find row_key (account, pid) q.rows
  unfolding write_result result_row
  write_result_isolation true now j snap r q account pid ne = refl
  write_result_isolation false now j snap none q account pid ne =
      find-upsert_ne row_key (result_row codec q now j snap none) (account, pid) q.rows
        (λ e. ne (ap (λ p. p.0) e) (ap (λ p. p.1) e))
  write_result_isolation false now j snap (some r) q account pid ne =
      find-upsert_ne row_key (result_row codec q now j snap (some r)) (account, pid) q.rows
        (λ e. ne (ap (λ p. p.0) e) (ap (λ p. p.1) e))

  marked-key :
      (account : ℕ) (pid : Text) (expire : ℤ) (rows : List Row) (o : Option Row)
      → find row_key (account, pid) rows ≡ o
      → (row_key (marked account pid expire o) ≡ (account, pid))
        × ((marked account pid expire o).status ≡ fetching)
  marked-key account pid expire rows none h = (refl, refl)
  marked-key account pid expire rows (some r) h =
      (key_of_find row_key (account, pid) rows r h, refl)

  pub if_live_fetching :
      (later : ℤ) (row : Row) → row.status ≡ fetching → if_live later (some row) ≡ none
  if_live_fetching later row h = rw h

  pub mark_found :
      (account : ℕ) (pid : Text) (expire : ℤ) (rows : List Row)
      → (row : Row) × (find row_key (account, pid) (mark_fetching account pid expire rows)
          ≡ some row)
        × (row.status ≡ fetching)
  unfolding mark_fetching
  mark_found account pid expire rows =
      let row = marked account pid expire (find row_key (account, pid) rows) in
      let (key, status) =
        marked-key account pid expire rows (find row_key (account, pid) rows) refl in
      let top : find row_key (account, pid) (upsert row_key row rows) ≡ some row =
        subst (λ k. find row_key k (upsert row_key row rows) ≡ some row) key
          (find-upsert_self row_key row rows) in
      (row, top, status)

  -- A mark leaves the rows of other images as they were.
  pub mark_other :
      (account : ℕ) (pid : Text) (expire : ℤ) (rows : List Row) (i : ℕ × Text)
      → i ≢ (account, pid)
      → find row_key i (mark_fetching account pid expire rows) ≡ find row_key i rows
  unfolding mark_fetching
  mark_other account pid expire rows i ne =
      let (key, _) = marked-key account pid expire rows (find row_key (account, pid) rows) refl in
      find-upsert_ne row_key (marked account pid expire (find row_key (account, pid) rows)) i rows
        (λ e. ne (e ∙ key))

  enqueue_held :
      (fails : Bool) (now : ℤ) (account : ℕ) (pid : Text) (q : Queue)
      → any (λ k. text_beq k (job_key account pid)) q.inflight ≡ true
      → enqueue fails now account pid q ≡ q
  unfolding enqueue
  enqueue_held fails now account pid q h = rw h

  -- While a search is under way and the image has no row to answer with.
  pub query_waiting :
      (mark_fails : Bool) (later : ℤ) (account : ℕ) (pid base : Text) (q : Queue)
      → is_numeric pid ≡ true
      → if_live later (find row_key (account, pid) q.rows) ≡ none
      → any (λ k. text_beq k (job_key account pid)) q.inflight ≡ true
      → query codec false mark_fails false later account pid base q ≡ (q, wait)
  query_waiting mf later account pid base q num none_live held =
      let asked : query codec false mf false later account pid base q
          ≡ (enqueue mf later account pid q, wait) =
        query_numeric mf later account pid base q num
        ∙ (ap (λ o. answer_row codec mf later account pid base q (open_row codec o)) none_live
            ∙ answers_nothing mf later account pid base q) in
      asked ∙ ap (λ (x : Queue). (x, wait)) (enqueue_held mf later account pid q held)
