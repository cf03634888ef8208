-- ===== src/Relay/Checks.antt =====
-- The requests that internal/relay/service.go sends.
use mathlib.Core.Path.{subst}
use pixiv_relay.Common.Errors.{Result, ok, err, bad_request, >>=-eq-ok, refuse-eq-ok, ok_injective}
use pixiv_relay.Prelude.Int.{ℤ, pos, ◌<ℤ◌, ◌≤ℤ◌}
use pixiv_relay.Prelude.Table.{upsert, remove}
use pixiv_relay.Prelude.{
  ◌≡◌, ◌≤◌, refl, sym, Bool, true, false, not, List, [], ◌∷◌, Option, none, some, Text, arith,
  length, ltb, text_beq, text_eq, is_empty, to_lower, to_upper, equal_fold, codes, All, All-keep,
  Bool-cases, inl, inr, if◌then◌else◌,
}
use pixiv_relay.Relay.Service.{
  Tools, Request, Upstream, Header, header_name, Url, is_in, forward_headers, allowed_methods,
  filter_headers, with_ua, user_agent, default_ua, clamp_timeout, max_body_bytes, max_timeout_ms,
  decode_body, check_url, check_parsed, prepare,
}

abbrev pub IsForwarded : Header → Type 0
IsForwarded h = is_in forward_headers h.0 ≡ true

upsert-All :
    (P : Header → Type 0) (h : Header) (acc : List Header)
    → P h
    → All P acc
    → All P (upsert header_name h acc)
unfolding upsert remove
upsert-All P h acc p a = (p, All-keep P (λ r. not (text_beq r.0 h.0)) acc a)

filter_headers-All :
    (headers : List (Text × Text)) (acc : List Header) (has_ua : Bool)
    → All IsForwarded acc
    → All IsForwarded (filter_headers headers acc has_ua).0
unfolding filter_headers
filter_headers-All [] acc has_ua a = a
filter_headers-All ((k, v) ∷ headers) acc has_ua a =
    elim (Bool-cases (is_in forward_headers (to_lower k))) [
      | inl listed ↦ rw listed (
          filter_headers-All headers (upsert header_name (to_lower k, v) acc) _
            (upsert-All IsForwarded (to_lower k, v) acc listed a))
      | inr other ↦ rw other (filter_headers-All headers acc has_ua a)
    ]

with_ua-All : (r : List Header × Bool) → All IsForwarded r.0 → All IsForwarded (with_ua r)
with_ua-All (headers, true) a = a
with_ua-All (headers, false) a = upsert-All IsForwarded (user_agent, default_ua) headers refl a

clamp_timeout_bounds : (ms : ℤ) → (pos 0 <ℤ clamp_timeout ms) × (clamp_timeout ms ≤ℤ max_timeout_ms)
unfolding clamp_timeout
clamp_timeout_bounds ms = ground arith

-- What may be sent.
pub record IsSafe (tools : Tools) (hosts : List Text) (up : Upstream) : Type 0 where
  pub method : is_in allowed_methods up.method ≡ true
  pub target : Url
  pub parsed : tools.parse_url up.url ≡ some target
  pub https : equal_fold target.scheme (codes "https") ≡ true
  pub same_host : up.host ≡ to_lower target.hostname
  pub host : is_in hosts up.host ≡ true
  pub headers : All IsForwarded up.headers
  pub body : length up.body ≤ max_body_bytes
  pub starts : pos 0 <ℤ up.timeout_ms
  pub ends : up.timeout_ms ≤ℤ max_timeout_ms

not-false : (b : Bool) → not b ≡ false → b ≡ true
not-false true h = refl
not-false false h = absurd (cc h)

module _ (tools : Tools) (hosts : List Text) where
  decode_body_bounds :
      (given raw : Text) → decode_body tools hosts given ≡ ok raw → length raw ≤ max_body_bytes
  unfolding decode_body
  decode_body_bounds given raw h = elim (Bool-cases (is_empty given)) [
    | inl nothing ↦ ground arith
    | inr something ↦ go (tools.decode given) (rw something at h)
  ]
    where
      go :
          (o : Option Text)
          → (let r : Result Text = elim o [
            | none ↦ err (bad_request (codes "bodyBase64 decode failed"))
            | some raw ↦
                if ltb max_body_bytes (length raw)
                then err (bad_request (codes "body exceeds 1MB limit"))
                else ok raw
          ] in
              r ≡ ok raw)
          → length raw ≤ max_body_bytes
      go none e = absurd (cc e)
      go (some given') e = elim (Bool-cases (ltb max_body_bytes (length given'))) [
        | inl long ↦ absurd (ground arith)
        | inr short ↦
            let same : ◌≡◌ {A = Result Text} (ok given') (ok raw) = rw short at e in
            subst (λ x. length x ≤ max_body_bytes) (ok_injective same) (ground arith)
      ]

  check_parsed_ok :
      (o : Option Url) (host : Text)
      → check_parsed tools hosts o ≡ ok host
      → (u : Url) × (o ≡ some u)
        × (equal_fold u.scheme (codes "https") ≡ true)
        × (host ≡ to_lower u.hostname)
        × (is_in hosts host ≡ true)
  unfolding check_parsed
  check_parsed_ok none host h = absurd (cc h)
  check_parsed_ok (some u) host h =
      let (_, h1) = refuse-eq-ok (is_empty u.host) _ _ h in
      let (https, h2) = refuse-eq-ok (not (equal_fold u.scheme (codes "https"))) _ _ h1 in
      let (listed, h3) = refuse-eq-ok (not (is_in hosts (to_lower u.hostname))) _ _ h2 in
      let same : to_lower u.hostname ≡ host = ok_injective h3 in
      (
        u,
        refl,
        not-false _ https,
        sym same,
        subst (λ x. is_in hosts x ≡ true) same (not-false _ listed),
      )

  -- Every request that the relay hands to its HTTP client has an allowed method, names an allowed host
  -- over https, carries listed headers only and at most 1 MB, and waits for more than 0 and at most 60
  -- seconds. (The client follows redirects, whose hosts nothing checks.)
  pub prepare-IsSafe :
      (req : Request) (up : Upstream) → prepare tools hosts req ≡ ok up → IsSafe tools hosts up
  unfolding prepare
  prepare-IsSafe req up h =
      let (method, h1) = refuse-eq-ok (not (is_in allowed_methods (to_upper req.method))) _ _ h in
      let (host, checked, h2) = >>=-eq-ok (check_url tools hosts req.url) _ h1 in
      let (body, decoded, h3) = >>=-eq-ok (decode_body tools hosts req.body_base64) _ h2 in
      let (_, h4) = refuse-eq-ok (not (tools.builds (to_upper req.method) req.url)) _ _ h3 in
      let (u, parsed, https, same, listed) =
        check_parsed_ok (tools.parse_url req.url) host (unfold check_url in checked) in
      let (starts, ends) = clamp_timeout_bounds req.timeout_ms in
      subst (IsSafe tools hosts) (ok_injective h4) (record {
        method = not-false _ method;
        target = u;
        parsed = parsed;
        https = https;
        same_host = same;
        host = listed;
        headers = with_ua-All _ (filter_headers-All req.headers [] false tt);
        body = decode_body_bounds req.body_base64 body decoded;
        starts = starts;
        ends = ends;
      })
