-- ===== src/Common/Clients.antt =====
-- Rate limits by client: who counts as one, and that they do not use up each other's tokens.
use pixiv_relay.Common.Limits.{
  Buckets, limit_of, at_least_one, Limiter, bucket_key, sweep, take_token, allow, Net, client_ip,
  is_trusted_proxy,
}
use pixiv_relay.Prelude.Int.{ℤ, pos, sub64, ltb_ℤ, ◌≤ℤ◌}
use pixiv_relay.Prelude.Table.{find, find-upsert_ne, find-keep, keep_if, HasDistinctKeys}
use pixiv_relay.Prelude.{
  ◌⊎◌, ◌≡◌, ◌≢◌, ◌∙◌, Bool, true, false, not, List, some, Text, ltb, length, Bool-cases, inl, inr,
  arith, text_eq, keep, if◌then◌else◌,
}

module _ {F R B : Type 0} (lib : Buckets F R B) where
  take_token_ne :
      (now : ℤ) (key other : Text) (l : Limiter R B)
      → other ≢ key
      → find (bucket_key lib) other (take_token lib now key l).0.buckets
        ≡ find (bucket_key lib) other l.buckets
  unfolding take_token
  take_token_ne now key other l ne = find-upsert_ne (bucket_key lib) _ other l.buckets ne

  at_least_one_bounds : (n : ℤ) → pos 1 ≤ℤ at_least_one lib n
  at_least_one_bounds n = ground arith

  take_token_denied :
      (now : ℤ) (key : Text) (l : Limiter R B)
      → ((take_token lib now key l).1.0 ≡ true) ⊎ (pos 1 ≤ℤ (take_token lib now key l).1.1)
  unfolding take_token
  take_token_denied now key l =
      elim (Bool-cases (lib.allow (limit_of lib l (find (bucket_key lib) key l.buckets)) now).1) [
        | inl passes ↦ inl (rw passes)
        | inr stays ↦ inr (rw stays (at_least_one_bounds (lib.seconds l.rate)))
      ]

  -- A client's requests leave the bucket of any other client as it was, unless there are more than
  -- 1024 buckets and that one was idle for longer than the limiter's time; and a client who is
  -- turned away is told to wait a second at least.
  pub allow_isolation :
      (now : ℤ) (key other : Text) (l : Limiter R B)
      → HasDistinctKeys (bucket_key lib) l.buckets
      → other ≢ key
      → (find (bucket_key lib) other (allow lib now key l).0.buckets ≡ (
          if ltb 1024 (length l.buckets)
          then keep_if
              (bucket_key lib)
              (λ b. not (ltb_ℤ b.last (sub64 now l.ttl)))
              (find (bucket_key lib) other l.buckets)
          else find (bucket_key lib) other l.buckets))
        × (((allow lib now key l).1.0 ≡ true) ⊎ (pos 1 ≤ℤ (allow lib now key l).1.1))
  unfolding allow sweep
  allow_isolation now key other l d ne =
      let swept : Limiter R B = record l {
        buckets = keep (λ b. not (ltb_ℤ b.last (sub64 now l.ttl))) l.buckets;
      } in
      elim (Bool-cases (ltb 1024 (length l.buckets))) [
        | inl many ↦ rw many (
          take_token_ne now key other swept ne
              ∙ find-keep (bucket_key lib) (λ b. not (ltb_ℤ b.last (sub64 now l.ttl))) other
                  l.buckets d,
          take_token_denied now key swept,
        )
        | inr few ↦ rw few (take_token_ne now key other l ne, take_token_denied now key l)
      ]

module _ {Ip : Type 0} (net : Net Ip) (trusted : List (Ip → Bool)) where
  -- The headers of a peer that is no trusted proxy count for nothing: whatever it sends, the client
  -- is the peer's own address.
  client_ip_direct :
      (remote host : Text) (ip : Ip) (forwarded_for real_ip : Text)
      → net.split_host remote ≡ some host
      → net.parse_ip host ≡ some ip
      → is_trusted_proxy net trusted ip ≡ false
      → client_ip net trusted remote forwarded_for real_ip ≡ host
  unfolding client_ip
  client_ip_direct remote host ip xff xri s p t = rw (s, p, t)
