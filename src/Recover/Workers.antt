-- ===== src/Recover/Workers.antt =====
-- The goroutines of internal/recover/queue.go in any order of their steps: no two search for one
-- image of one account.
use mathlib.Core.Path.{subst}
use pixiv_relay.Prelude.Int.{ℤ}
use pixiv_relay.Prelude.Table.{HasDistinctKeys, keep-HasDistinctKeys}
use pixiv_relay.Prelude.{
  ℕ, ◌≡◌, ◌≢◌, refl, sym, Bool, true, false, not, List, [], ◌∷◌, Option, Text, arith, any, keep,
  text_beq, text_beq_iff, text_eq, Bool-cases, inl, inr, All, All-keep, Elem, All-Elem,
}
use pixiv_relay.Recover.Lifetime.{Outcome}
use pixiv_relay.Recover.Queue.{
  Codec, Queue, Job, job_key, enqueue, set_ttls, write_result, release, without,
}
use pixiv_relay.Recover.Sources.{Snapshot}
use pixiv_relay.Sync.Json.{Value}

-- One step of a request or of a goroutine. Which statements fail, and what a search finds, is open.
pub data Step (codec : Codec) : Queue → Queue → Type 0 where
  ask :
      (fails : Bool) (now : ℤ) (account : ℕ) (pid : Text) (q : Queue)
      → Step codec q (enqueue fails now account pid q)
  finish :
      (fails : Bool) (now : ℤ) (j : Job) (snap : Option (Snapshot Value)) (r : Outcome) (q : Queue)
      → Elem j q.working
      → Step codec q (write_result codec fails now j snap r q)
  leave : (j : Job) (q : Queue) → Elem j q.done → Step codec q (release j q)
  retime : (ttl negative : ℤ) (q : Queue) → Step codec q (set_ttls ttl negative q)

-- What steps lead to from a queue.
pub data Leads (codec : Codec) (start : Queue) : Queue → Type 0 where
  here : Leads codec start start
  step : {q q' : Queue} → Leads codec start q → Step codec q q' → Leads codec start q'

abbrev pub key_of : Job → Text
key_of j = j.key

abbrev pub is_held : List Text → Text → Bool
is_held keys key = any (λ k. text_beq k key) keys

-- The job's key is that of its account and image.
abbrev pub IsNamed : Job → Type 0
IsNamed j = j.key ≡ job_key j.account j.pid

-- Each goroutine holds its key in `inflight`, and no two hold one key.
pub record IsTracked (q : Queue) : Type 0 where
  pub working : HasDistinctKeys key_of q.working
  pub done : HasDistinctKeys key_of q.done
  pub apart : All (λ j. All (λ k. key_of k ≢ j.key) q.done) q.working
  pub working_held : All (λ j. is_held q.inflight j.key ≡ true) q.working
  pub done_held : All (λ j. is_held q.inflight j.key ≡ true) q.done
  pub working_named : All IsNamed q.working
  pub done_named : All IsNamed q.done

pub All-map {ℓ κ κ'} :
    {A : Type ℓ} (P : A → Type κ) (Q : A → Type κ') (xs : List A)
    → ((x : A) → P x → Q x)
    → All P xs
    → All Q xs
All-map P Q [] f h = tt
All-map P Q (x ∷ xs) f h = (f x h.0, All-map P Q xs f h.1)

held-more :
    (key k : Text) (keys : List Text) → is_held keys k ≡ true → is_held (key ∷ keys) k ≡ true
held-more key k keys h = ground arith

held_self : (key : Text) (keys : List Text) → is_held (key ∷ keys) key ≡ true
held_self key keys = ground (arith, text_beq_iff key key)

pub held-ne :
    (key k : Text) (keys : List Text) → is_held keys k ≡ true → is_held keys key ≡ false → k ≢ key
held-ne key k keys h free e =
    let same : is_held keys key ≡ true = subst (λ x. is_held keys x ≡ true) e h in absurd (cc same)

held-keep :
    (key k : Text) (keys : List Text)
    → k ≢ key
    → is_held keys k ≡ true
    → is_held (keep (λ x. not (text_beq x key)) keys) k ≡ true
held-keep key k [] ne h = h
held-keep key k (x ∷ keys) ne h =
    ground (arith, held-keep key k keys ne, text_beq_iff x key, text_beq_iff x k)

-- The jobs that are left have other keys.
pub without-ne : (key : Text) (js : List Job) → All (λ k. key_of k ≢ key) (without key js)
without-ne key [] = tt
without-ne key (j ∷ js) = ground (arith, without-ne key js, text_beq_iff j.key key)

-- Of two disjoint lists, a job of the first is no job of the second.
not_in_done :
    (j : Job) (working done : List Job)
    → All (λ i. All (λ k. key_of k ≢ i.key) done) working
    → Elem j done
    → All (λ i. key_of i ≢ j.key) working
not_in_done j working done a m =
    All-map (λ i. All (λ k. key_of k ≢ i.key) done) (λ i. key_of i ≢ j.key) working
      (λ i h e. All-Elem (λ k. key_of k ≢ i.key) j done h m (sym e)) a

enqueue-IsTracked :
    (fails : Bool) (now : ℤ) (account : ℕ) (pid : Text) (q : Queue)
    → IsTracked q
    → IsTracked (enqueue fails now account pid q)
unfolding enqueue
enqueue-IsTracked fails now account pid q t =
    let key = job_key account pid in
    elim (Bool-cases (is_held q.inflight key)) [
      | inl there ↦ rw there t
      | inr free ↦ rw free (record {
        working = (
          All-map (λ j. is_held q.inflight j.key ≡ true) (λ j. key_of j ≢ key) q.working
              (λ j h. held-ne key j.key q.inflight h free) t.working_held,
          t.working,
        );
        done = t.done;
        apart = (
          All-map (λ j. is_held q.inflight j.key ≡ true) (λ j. key_of j ≢ key) q.done
              (λ j h. held-ne key j.key q.inflight h free) t.done_held,
          t.apart,
        );
        working_held = (
          held_self key q.inflight,
          All-map (λ j. is_held q.inflight j.key ≡ true)
              (λ j. is_held (key ∷ q.inflight) j.key ≡ true) q.working
              (λ j. held-more key j.key q.inflight) t.working_held,
        );
        done_held =
            All-map (λ j. is_held q.inflight j.key ≡ true)
              (λ j. is_held (key ∷ q.inflight) j.key ≡ true) q.done
              (λ j. held-more key j.key q.inflight) t.done_held;
        working_named = (refl, t.working_named);
        done_named = t.done_named;
      })
    ]

apart_done :
    (j : Job) (working done : List Job)
    → All (λ i. All (λ k. key_of k ≢ i.key) done) working
    → All (λ i. key_of i ≢ j.key) working
    → All (λ i. All (λ k. key_of k ≢ i.key) (j ∷ done)) working
apart_done j [] done a ne = tt
apart_done j (i ∷ working) done a ne =
    ((λ e. ne.0 (sym e), a.0), apart_done j working done a.1 ne.1)

write_result-IsTracked :
    (codec : Codec) (fails : Bool) (now : ℤ) (j : Job) (snap : Option (Snapshot Value))
    (r : Outcome) (q : Queue)
    → Elem j q.working
    → IsTracked q
    → IsTracked (write_result codec fails now j snap r q)
unfolding write_result
write_result-IsTracked codec fails now j snap r q m t = record {
  working = keep-HasDistinctKeys key_of (λ k. not (text_beq k.key j.key)) q.working t.working;
  done = (All-Elem (λ i. All (λ k. key_of k ≢ i.key) q.done) j q.working t.apart m, t.done);
  apart =
      apart_done j (without j.key q.working) q.done
        (All-keep (λ i. All (λ k. key_of k ≢ i.key) q.done) (λ k. not (text_beq k.key j.key))
          q.working t.apart)
        (without-ne j.key q.working);
  working_held =
      All-keep (λ i. is_held q.inflight i.key ≡ true) (λ k. not (text_beq k.key j.key)) q.working
        t.working_held;
  done_held =
      (All-Elem (λ i. is_held q.inflight i.key ≡ true) j q.working t.working_held m, t.done_held);
  working_named = All-keep IsNamed (λ k. not (text_beq k.key j.key)) q.working t.working_named;
  done_named = (All-Elem IsNamed j q.working t.working_named m, t.done_named);
}

keep_held :
    (j : Job) (keys : List Text) (js : List Job)
    → All (λ i. key_of i ≢ j.key) js
    → All (λ i. is_held keys i.key ≡ true) js
    → All (λ i. is_held (keep (λ x. not (text_beq x j.key)) keys) i.key ≡ true) js
keep_held j keys [] ne h = tt
keep_held j keys (i ∷ js) ne h = (held-keep j.key i.key keys ne.0 h.0, keep_held j keys js ne.1 h.1)

release-IsTracked : (j : Job) (q : Queue) → Elem j q.done → IsTracked q → IsTracked (release j q)
unfolding release
release-IsTracked j q m t = record {
  working = t.working;
  done = keep-HasDistinctKeys key_of (λ k. not (text_beq k.key j.key)) q.done t.done;
  apart =
      All-map (λ i. All (λ k. key_of k ≢ i.key) q.done)
        (λ i. All (λ k. key_of k ≢ i.key) (without j.key q.done)) q.working
        (λ i. All-keep (λ k. key_of k ≢ i.key) (λ k. not (text_beq k.key j.key)) q.done) t.apart;
  working_held =
      keep_held j q.inflight q.working (not_in_done j q.working q.done t.apart m) t.working_held;
  done_held = keep_held j q.inflight (without j.key q.done) (without-ne j.key q.done) (
      All-keep (λ i. is_held q.inflight i.key ≡ true) (λ k. not (text_beq k.key j.key)) q.done
        t.done_held);
  working_named = t.working_named;
  done_named = All-keep IsNamed (λ k. not (text_beq k.key j.key)) q.done t.done_named;
}

set_ttls-IsTracked :
    (ttl negative : ℤ) (q : Queue) → IsTracked q → IsTracked (set_ttls ttl negative q)
unfolding set_ttls
set_ttls-IsTracked ttl negative q t = record {
  working = t.working;
  done = t.done;
  apart = t.apart;
  working_held = t.working_held;
  done_held = t.done_held;
  working_named = t.working_named;
  done_named = t.done_named;
}

Step-IsTracked : (codec : Codec) (q q' : Queue) → Step codec q q' → IsTracked q → IsTracked q'
Step-IsTracked codec q q' (ask fails now account pid _) t =
    enqueue-IsTracked fails now account pid q t
Step-IsTracked codec q q' (finish fails now j snap r _ m) t =
    write_result-IsTracked codec fails now j snap r q m t
Step-IsTracked codec q q' (leave j _ m) t = release-IsTracked j q m t
Step-IsTracked codec q q' (retime ttl negative _) t = set_ttls-IsTracked ttl negative q t

-- Steps keep the goroutines in order.
pub Leads-IsTracked : (codec : Codec) (q q' : Queue) → IsTracked q → Leads codec q q' → IsTracked q'
Leads-IsTracked codec q q' t here = t
Leads-IsTracked codec q q' t (step l s) =
    Step-IsTracked codec _ q' s (Leads-IsTracked codec q _ t l)
