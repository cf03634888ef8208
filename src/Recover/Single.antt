-- ===== src/Recover/Single.antt =====
-- The goroutines of internal/recover/queue.go by the images that they work for.
use mathlib.Core.Path.{subst}
use pixiv_relay.Prelude.Table.{HasDistinctKeys}
use pixiv_relay.Prelude.{
  ℕ, ◌≡◌, ◌≢◌, sym, ap, ◌∙◌, true, List, [], ◌∷◌, Text, All, text_eq, nat_eq, pair_eq,
}
use pixiv_relay.Recover.Queue.{Codec, Queue, Job, job_key}
use pixiv_relay.Recover.Workers.{Leads, IsTracked, IsNamed, key_of, is_held, Leads-IsTracked}

-- The account and the image that a job works for.
abbrev pub image_of : Job → ℕ × Text
image_of j = (j.account, j.pid)

-- The images of jobs whose keys differ differ.
image-ne :
    (j : Job) (js : List Job)
    → IsNamed j
    → All IsNamed js
    → All (λ k. key_of k ≢ j.key) js
    → All (λ k. image_of k ≢ image_of j) js
image-ne j [] named all apart = tt
image-ne j (k ∷ js) named all apart = (
  λ same. apart.0 (all.0 ∙ (ap (λ i. job_key i.0 i.1) same ∙ sym named)),
  image-ne j js named all.1 apart.1,
)

image-HasDistinctKeys :
    (js : List Job) → All IsNamed js → HasDistinctKeys key_of js → HasDistinctKeys image_of js
image-HasDistinctKeys [] named apart = tt
image-HasDistinctKeys (j ∷ js) named apart =
    (image-ne j js named.0 named.1 apart.0, image-HasDistinctKeys js named.1 apart.1)

image-apart :
    (working done : List Job)
    → All IsNamed working
    → All IsNamed done
    → All (λ i. All (λ k. key_of k ≢ i.key) done) working
    → All (λ i. All (λ k. image_of k ≢ image_of i) done) working
image-apart [] done named all apart = tt
image-apart (j ∷ working) done named all apart =
    (image-ne j done named.0 all apart.0, image-apart working done named.1 all apart.1)

-- No two goroutines, whether they still search or have just written, work for one image of one
-- account, and the key of each one's account and image is held.
pub record IsSingle (q : Queue) : Type 0 where
  pub working : HasDistinctKeys image_of q.working
  pub done : HasDistinctKeys image_of q.done
  pub apart : All (λ j. All (λ k. image_of k ≢ image_of j) q.done) q.working
  pub working_held : All (λ j. is_held q.inflight (job_key j.account j.pid) ≡ true) q.working
  pub done_held : All (λ j. is_held q.inflight (job_key j.account j.pid) ≡ true) q.done

pub image-held :
    (keys : List Text) (js : List Job)
    → All IsNamed js
    → All (λ j. is_held keys j.key ≡ true) js
    → All (λ j. is_held keys (job_key j.account j.pid) ≡ true) js
image-held keys [] named held = tt
image-held keys (j ∷ js) named held =
    (subst (λ k. is_held keys k ≡ true) named.0 held.0, image-held keys js named.1 held.1)

-- In every queue that steps lead to, from one that is in order, as a queue without goroutines, no two
-- goroutines, whether they still search or have just written, work for one image of one account, and
-- each holds the key of its account and image.
pub Leads-IsSingle : (codec : Codec) (q q' : Queue) → IsTracked q → Leads codec q q' → IsSingle q'
Leads-IsSingle codec q q' start l =
    let t = Leads-IsTracked codec q q' start l in
    record {
      working = image-HasDistinctKeys q'.working t.working_named t.working;
      done = image-HasDistinctKeys q'.done t.done_named t.done;
      apart = image-apart q'.working q'.done t.working_named t.done_named t.apart;
      working_held = image-held q'.inflight q'.working t.working_named t.working_held;
      done_held = image-held q'.inflight q'.done t.done_named t.done_held;
    }
