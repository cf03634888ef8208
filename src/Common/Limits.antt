-- ===== src/Common/Limits.antt =====
-- internal/common/ratelimit.go. The bucket of golang.org/x/time/rate and floating point are
-- arguments; a limiter keeps one bucket per key.
use pixiv_relay.Prelude.Int.{ℤ, pos, sub64, ltb_ℤ}
use pixiv_relay.Prelude.Table.{find, upsert}
use pixiv_relay.Prelude.{
  ℕ, ◌*◌, Bool, true, false, ◌||◌, not, List, [], Option, none, some, Text, ltb, length, keep, map,
  any, is_empty, cut, if◌then◌else◌, text_eq,
}

-- The library's bucket `B` and rate `R`: a new one, Allow at a moment, SetLimit with SetBurst, and
-- the conversions of the numbers.
pub record Buckets (F R B : Type 0) : Type 0 where
  pub per_second : F → R
  pub fresh : R → ℕ → B
  pub allow : B → ℤ → B × Bool
  pub set : R → ℕ → B → B
  pub seconds : R → ℤ

pub record Bucket (B : Type 0) : Type 0 where
  pub key : Text
  pub limit : B
  pub last : ℤ

pub record Limiter (R B : Type 0) : Type 0 where
  pub buckets : List (Bucket B)
  pub rate : R
  pub burst : ℕ
  pub ttl : ℤ

module _ {F R B : Type 0} (lib : Buckets F R B) where
  abbrev pub bucket_key : Bucket B → Text
  bucket_key b = b.key

  -- The ttl is ten minutes in milliseconds.
  unfoldable pub new_limiter : F → ℕ → Limiter R B
  new_limiter per_minute burst = record {
    buckets = [];
    rate = lib.per_second per_minute;
    burst = burst;
    ttl = pos (10 * 60 * 1000);
  }

  unfoldable pub sweep : ℤ → Limiter R B → Limiter R B
  sweep now l = record l { buckets = keep (λ b. not (ltb_ℤ b.last (sub64 now l.ttl))) l.buckets }

  abbrev pub limit_of : Limiter R B → Option (Bucket B) → B
  limit_of l none = lib.fresh l.rate l.burst
  limit_of l (some b) = b.limit

  abbrev pub at_least_one : ℤ → ℤ
  at_least_one n = if ltb_ℤ n (pos 1) then pos 1 else n

  unfoldable pub take_token : ℤ → Text → Limiter R B → Limiter R B × (Bool × ℤ)
  take_token now key l =
      let (limit, passes) = lib.allow (limit_of l (find bucket_key key l.buckets)) now in
      (
        record l {
          buckets = upsert bucket_key (record { key = key; limit = limit; last = now }) l.buckets;
        },
        if passes then (true, pos 0) else (false, at_least_one (lib.seconds l.rate)),
      )

  -- allow: whether the request passes, and else the seconds to wait.
  unfoldable pub allow : ℤ → Text → Limiter R B → Limiter R B × (Bool × ℤ)
  unfolding take_token sweep
  allow now key l = take_token now key (if ltb 1024 (length l.buckets) then sweep now l else l)

  unfoldable pub set_rate : F → ℕ → Limiter R B → Limiter R B
  set_rate per_minute burst l =
      let rate = lib.per_second per_minute in
      record l {
        rate = rate;
        burst = burst;
        buckets = map (λ (b : Bucket B). record b { limit = lib.set rate burst b.limit }) l.buckets;
      }

-- The package net: the address without its port, whether it parses, is loopback, and lies in a net.
pub record Net (Ip : Type 0) : Type 0 where
  pub split_host : Text → Option Text
  pub parse_ip : Text → Option Ip
  pub is_loopback : Ip → Bool
  pub trim_space : Text → Text

module _ {Ip : Type 0} (net : Net Ip) (trusted : List (Ip → Bool)) where
  unfoldable pub is_trusted_proxy : Ip → Bool
  is_trusted_proxy ip = net.is_loopback ip || any (λ contains. contains ip) trusted

  -- strings.Cut, of which the part before the comma is used.
  abbrev pub before_comma : Text → Text
  before_comma s = elim (cut b',' s) [ none ↦ s | some (first, rest) ↦ first ]

  abbrev pub or_else : Text → Text → Text
  or_else s t = if is_empty s then t else s

  abbrev pub is_proxied : Option Ip → Bool
  is_proxied none = false
  is_proxied (some ip) = is_trusted_proxy ip

  -- ClientIP, of the peer's address and the two headers.
  unfoldable pub client_ip : Text → Text → Text → Text
  unfolding is_trusted_proxy
  client_ip remote forwarded_for real_ip =
      let host : Text = elim (net.split_host remote) [ none ↦ remote | some h ↦ h ] in
      if is_proxied (net.parse_ip host)
      then or_else
          (if is_empty forwarded_for then [] else net.trim_space (before_comma forwarded_for))
          (or_else (net.trim_space real_ip) host)
      else host
