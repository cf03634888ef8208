-- ===== src/Recover/Wait.antt =====
-- What Query of internal/recover/service.go answers while a goroutine of queue.go searches.
use pixiv_relay.Prelude.Int.{ℤ}
use pixiv_relay.Prelude.Table.{find}
use pixiv_relay.Prelude.{
  ℕ, ◌≡◌, ◌≢◌, sym, ap, ◌∙◌, refl, Bool, true, false, not, List, [], ◌∷◌, some, Text, All, All-keep,
  All-Elem, Elem, text_eq, nat_eq, pair_eq, text_beq, Bool-cases, inl, inr,
}
use pixiv_relay.Recover.Lifetime.{
  mark_found, mark_other, if_live_fetching, write_result_isolation, query_waiting,
}
use pixiv_relay.Recover.Query.{query, wait, is_numeric}
use pixiv_relay.Recover.Queue.{
  Codec, Queue, Row, Job, row_key, job_key, fetching, enqueue, write_result, release, set_ttls,
  if_live, without,
}
use pixiv_relay.Recover.Single.{image_of, image-held}
use pixiv_relay.Recover.Workers.{
  Step, ask, finish, leave, retime, Leads, here, step, IsTracked, IsNamed, key_of, is_held, All-map,
  held-ne, without-ne, Leads-IsTracked,
}

-- The row of the job's image says that it is being fetched.
abbrev IsMarkedAt : List Row → Job → Type 0
IsMarkedAt rows j =
    (row : Row) × (find row_key (image_of j) rows ≡ some row) × (row.status ≡ fetching)

-- So it is with every goroutine that has not written.
abbrev pub IsMarked : Queue → Type 0
IsMarked q = All (IsMarkedAt q.rows) q.working

-- A change to the row of one image leaves the marks of jobs with other keys.
marks_kept :
    (rows rows' : List Row) (key : Text) (account : ℕ) (pid : Text) (js : List Job)
    → ((i : ℕ × Text) → i ≢ (account, pid) → find row_key i rows' ≡ find row_key i rows)
    → key ≡ job_key account pid
    → All IsNamed js
    → All (λ j. key_of j ≢ key) js
    → All (IsMarkedAt rows) js
    → All (IsMarkedAt rows') js
marks_kept rows rows' key account pid [] same e named ne h = tt
marks_kept rows rows' key account pid (j ∷ js) same e named ne h =
    let (row, found, status) = h.0 in
    let apart : image_of j ≢ (account, pid) =
      λ s. ne.0 (named.0 ∙ (ap (λ i. job_key i.0 i.1) s ∙ sym e)) in
    (
      (row, same (image_of j) apart ∙ found, status),
      marks_kept rows rows' key account pid js same e named.1 ne.1 h.1,
    )

enqueue-IsMarked :
    (codec : Codec) (now : ℤ) (account : ℕ) (pid : Text) (q : Queue)
    → IsTracked q
    → IsMarked q
    → IsMarked (enqueue false now account pid q)
unfolding enqueue
enqueue-IsMarked codec now account pid q t m =
    let key = job_key account pid in
    elim (Bool-cases (is_held q.inflight key)) [
      | inl there ↦ rw there m
      | inr free ↦ rw free (
        mark_found codec account pid _ q.rows,
        marks_kept q.rows _ key account pid q.working (mark_other codec account pid _ q.rows) refl
            t.working_named
            (All-map (λ j. is_held q.inflight j.key ≡ true) (λ j. key_of j ≢ key) q.working
              (λ j h. held-ne key j.key q.inflight h free) t.working_held)
            m,
      )
    ]

-- In such a step, the mark of a search is written.
abbrev pub WritesMark : {codec : Codec} → {q q' : Queue} → Step codec q q' → Type 0
WritesMark (ask fails now account pid q) = fails ≡ false
WritesMark (finish fails now j snap r q m) = Unit
WritesMark (leave j q m) = Unit
WritesMark (retime ttl negative q) = Unit

abbrev pub AllMarks : {codec : Codec} → {q q' : Queue} → Leads codec q q' → Type 0
AllMarks here = Unit
AllMarks (step before s) = AllMarks before × WritesMark s

Step-IsMarked :
    (codec : Codec) (q q' : Queue) (s : Step codec q q')
    → WritesMark s
    → IsTracked q
    → IsMarked q
    → IsMarked q'
unfolding write_result release set_ttls
Step-IsMarked codec q q' (ask true now account pid _) w t m = absurd (cc w)
Step-IsMarked codec q q' (ask false now account pid _) w t m =
    enqueue-IsMarked codec now account pid q t m
Step-IsMarked codec q q' (finish fails now j snap r _ found) w t m =
    marks_kept q.rows (write_result codec fails now j snap r q).rows j.key j.account j.pid
      (without j.key q.working)
      (λ i ne.
        write_result_isolation codec fails now j snap r q i.0 i.1 (λ a b. ne (rw (a, b) refl)))
      (All-Elem IsNamed j q.working t.working_named found)
      (All-keep IsNamed (λ k. not (text_beq k.key j.key)) q.working t.working_named)
      (without-ne j.key q.working)
      (All-keep (IsMarkedAt q.rows) (λ k. not (text_beq k.key j.key)) q.working m)
Step-IsMarked codec q q' (leave j _ found) w t m = m
Step-IsMarked codec q q' (retime ttl negative _) w t m = m

Leads-IsMarked :
    (codec : Codec) (q q' : Queue) (l : Leads codec q q')
    → AllMarks l
    → IsTracked q
    → IsMarked q
    → IsMarked q'
Leads-IsMarked codec q q' here w t m = m
Leads-IsMarked codec q q' (step before s) w t m =
    Step-IsMarked codec _ q' s w.1 (Leads-IsTracked codec q _ t before)
      (Leads-IsMarked codec q _ before w.0 t m)

-- In whatever order requests and goroutines take their steps, from a queue that is in order, as one
-- without goroutines: as long as a goroutine searches for an image and has not written, a query for
-- the image by the same account answers 202, starts no other search, and changes nothing. The mark of
-- each search is written, RECOVER_SHARED is off, and the query's lookup does not fail.
pub query-Leads :
    (codec : Codec) (mark_fails : Bool) (later : ℤ) (base : Text) (q q' : Queue) (j : Job)
    → IsTracked q
    → IsMarked q
    → (l : Leads codec q q') → AllMarks l
    → Elem j q'.working
    → is_numeric j.pid ≡ true
    → query codec false mark_fails false later j.account j.pid base q' ≡ (q', wait)
query-Leads codec mf later base q q' j t m l w found num =
    let t' = Leads-IsTracked codec q q' t l in
    let (row, at, status) =
      All-Elem (IsMarkedAt q'.rows) j q'.working (Leads-IsMarked codec q q' l w t m) found in
    query_waiting codec mf later j.account j.pid base q' num
      (ap (if_live later) at ∙ if_live_fetching codec later row status)
      (All-Elem (λ k. is_held q'.inflight (job_key k.account k.pid) ≡ true) j q'.working
        (image-held q'.inflight q'.working t'.working_named t'.working_held) found)
