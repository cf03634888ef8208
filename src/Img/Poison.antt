-- ===== src/Img/Poison.antt =====
-- What a fetch leaves in the cache for the requests after it.
use pixiv_relay.Cache.Store.{DiskLru, CommitFaults}
use pixiv_relay.Img.Service.{Reply, pass_on, fetch_upstream}
use pixiv_relay.Prelude.Int.{ℤ}
use pixiv_relay.Prelude.{
  List, ◌≡◌, ◌≢◌, refl, Bool, false, none, some, Text, nat_beq, arith, Bool-cases, inl, inr,
}

module _ {F : Type 0} where
  -- A fetch that fails, by an upstream that does not answer or answers with another status than 200,
  -- leaves the cache as it was.
  pub fetch_error_keeps_cache :
      (no_temp : Bool) (faults : CommitFaults) (now : ℤ) (c : DiskLru F) (key : Text)
      (inline : Bool) (r : Reply)
      → r.status ≢ 200
      → ((fetch_upstream no_temp faults now c key inline none).0 ≡ c)
        × ((fetch_upstream no_temp faults now c key inline (some r)).0 ≡ c)
  unfolding fetch_upstream pass_on
  fetch_error_keeps_cache no_temp faults now c key inline r ne =
      let other : nat_beq r.status 200 ≡ false = ground (arith, ne) in
      elim (Bool-cases (nat_beq r.status 404)) [
        | inl missing ↦ (refl, rw missing)
        | inr present ↦ (refl, rw (present, other))
      ]
