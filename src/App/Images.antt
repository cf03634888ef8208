-- ===== src/App/Images.antt =====
-- The headers of an image's answer are its own.
use pixiv_relay.App.Headers.{IsForeign, get_header-set_header_ne}
use pixiv_relay.App.Member.{set_all}
use pixiv_relay.Cache.Store.{DiskLru, GetFaults, CommitFaults, Hit, get}
use pixiv_relay.Common.Errors.{ok, err}
use pixiv_relay.Common.Http.{Header, get_header, set_header}
use pixiv_relay.Img.Service.{
  Answer, served, refused, Reply, if_set, inline_header, on_hit, pass_on, fetch_upstream,
  fetch_round, enter_flight, join_flight, or_fetch,
}
use pixiv_relay.Prelude.Int.{ℤ}
use pixiv_relay.Prelude.{
  ◌≡◌, refl, ◌∙◌, Bool, true, false, Option, none, some, List, [], ◌∷◌, All, All-append, Text,
  codes, text_beq, is_empty, Bool-cases, inl, inr, nat_beq,
}

module _ (name : Text) (f : IsForeign name) where
  abbrev pub IsOther : Header → Type 0
  IsOther h = text_beq name h.0 ≡ false

  pub set_all_lem :
      (given headers : List Header)
      → All IsOther given
      → get_header name (set_all given headers) ≡ get_header name headers
  set_all_lem [] headers h = refl
  set_all_lem ((k, v) ∷ given) headers h =
      set_all_lem given (set_header k v headers) h.1 ∙ get_header-set_header_ne name k v headers h.0

  if_set-All : (n v : Text) → text_beq name n ≡ false → All IsOther (if_set n v)
  if_set-All n v h = elim (Bool-cases (is_empty v)) [
    | inl blank ↦ rw blank tt
    | inr full ↦ rw full (h, tt)
  ]

  inline_header-All : (b : Bool) → All IsOther (inline_header b)
  inline_header-All true = (f.disposition, tt)
  inline_header-All false = tt

  -- The headers of an image's answer.
  abbrev pub HasOthers : Option Answer → Type 0
  HasOthers none = Unit
  HasOthers (some (served given content)) = All IsOther given
  HasOthers (some (refused given e)) = All IsOther given

  on_hit-HasOthers : (inline : Bool) (hit : Hit) → HasOthers (on_hit inline hit)
  on_hit-HasOthers inline (err e) = tt
  on_hit-HasOthers inline (ok none) = tt
  on_hit-HasOthers inline (ok (some (content, m))) =
      All-append IsOther (if_set (codes "Content-Type") m.content_type) _
        (if_set-All (codes "Content-Type") m.content_type f.content_type)
        (f.content_length, (f.cache, inline_header-All inline))

  module _ {F : Type 0} (no_temp : Bool) (faults : CommitFaults) (now : ℤ) (c : DiskLru F)
      (key : Text) (inline : Bool) where
    pass_on-HasOthers : (r : Reply) → HasOthers (some (pass_on no_temp faults now c key inline r).1)
    unfolding pass_on
    pass_on-HasOthers r = elim (Bool-cases (nat_beq r.status 404)) [
      | inl absent ↦ rw absent (f.upstream, tt)
      | inr there ↦ elim (Bool-cases (nat_beq r.status 200)) [
        | inr odd ↦ rw (there, odd) (f.upstream, tt)
        | inl good ↦
            rw (there, good)
              (
                f.upstream,
                All-append IsOther (if_set (codes "Content-Type") r.content_type) _
                    (if_set-All (codes "Content-Type") r.content_type f.content_type)
                    (All-append IsOther (if_set (codes "Content-Length") r.length_header) _
                      (if_set-All (codes "Content-Length") r.length_header f.content_length)
                      (All-append IsOther (if_set (codes "Cache-Control") r.cache_control) _
                        (if_set-All (codes "Cache-Control") r.cache_control f.cache_control)
                        (f.cache, inline_header-All inline))),
              )
      ]
    ]

    fetch_upstream-HasOthers :
        (u : Option Reply) → HasOthers (some (fetch_upstream no_temp faults now c key inline u).1)
    unfolding fetch_upstream
    fetch_upstream-HasOthers none = tt
    fetch_upstream-HasOthers (some r) = pass_on-HasOthers r

    join_flight-HasOthers :
        (inflight : List Text) (u : Option Reply) (leads : Bool)
        → HasOthers (join_flight no_temp faults now c inflight key inline u leads).1
    join_flight-HasOthers inflight u false = tt
    join_flight-HasOthers inflight u true = fetch_upstream-HasOthers u

    or_fetch-HasOthers :
        (inflight : List Text) (u : Option Reply) (hit : Option Answer)
        → HasOthers hit
        → HasOthers (or_fetch no_temp faults now c inflight key inline u hit).1
    or_fetch-HasOthers inflight u (some answer) h = h
    or_fetch-HasOthers inflight u none h =
        join_flight-HasOthers (enter_flight key inflight).0 u (enter_flight key inflight).1

  pub fetch_round-HasOthers :
      {F : Type 0} (get_faults : GetFaults) (no_temp : Bool) (faults : CommitFaults) (now : ℤ)
      (c : DiskLru F) (inflight : List Text) (key : Text) (inline : Bool) (u : Option Reply)
      → HasOthers (fetch_round get_faults no_temp faults now c inflight key inline u).1
  unfolding fetch_round
  fetch_round-HasOthers get_faults no_temp faults now c inflight key inline u =
      or_fetch-HasOthers no_temp faults now (get get_faults now c key).0 key inline inflight u
        (on_hit inline (get get_faults now c key).1)
        (on_hit-HasOthers inline (get get_faults now c key).1)
