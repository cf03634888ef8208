-- ===== src/Common/Examples.antt =====
-- The theorems on internal/common, applied to two clients and to one log line.
use pixiv_relay.Common.Redact.{
  Attrs, attr, nil, text, group, redact_attrs, redact_attrs_lem, IsBlank, secrets, is_plain, leaves,
}
use pixiv_relay.Prelude.{All, keep}
use pixiv_relay.Common.Clients.{allow_isolation}
use pixiv_relay.Common.Limits.{Buckets, Bucket, Limiter, bucket_key, allow}
use pixiv_relay.Prelude.Int.{pos, ◌≤ℤ◌}
use pixiv_relay.Prelude.Table.{find}
use pixiv_relay.Prelude.{
  ◌⊎◌, ℕ, zero, suc, ◌≡◌, ◌≢◌, Bool, true, false, [], ◌∷◌, codes, text_eq, text_beq_iff,
}

-- A bucket that counts its tokens and is never filled up.
abbrev take_one : ℕ → ℕ × Bool
take_one zero = (0, false)
take_one (suc n) = (n, true)

abbrev buckets : Buckets ℕ ℕ ℕ
buckets = record {
  per_second = λ n. n;
  fresh = λ rate burst. burst;
  allow = λ n now. take_one n;
  set = λ rate burst n. n;
  seconds = λ rate. pos 0;
}

abbrev bob_bucket : Bucket ℕ
bob_bucket = record { key = codes "bob"; limit = 2; last = pos 5 }

abbrev limiter : Limiter ℕ ℕ
limiter = record { buckets = bob_bucket ∷ []; rate = 1; burst = 0; ttl = pos 600000 }

bob-ne-eve : codes "bob" ≢ codes "eve"
bob-ne-eve e =
    let same : false ≡ true = (text_beq_iff (codes "bob") (codes "eve")).1 e in absurd (cc same)

allow_isolation_example :
    (find (bucket_key buckets) (codes "bob") (allow buckets (pos 9) (codes "eve") limiter).0.buckets
      ≡ find (bucket_key buckets) (codes "bob") limiter.buckets)
    × (((allow buckets (pos 9) (codes "eve") limiter).1.0 ≡ true)
        ⊎ (pos 1 ≤ℤ (allow buckets (pos 9) (codes "eve") limiter).1.1))
allow_isolation_example =
    allow_isolation buckets (pos 9) (codes "eve") (codes "bob") limiter (tt, tt) bob-ne-eve

-- A line with a token of its own and one in a group.
abbrev line : Attrs
line = attr (codes "Token") (text (codes "s")) (
    attr (codes "req")
      (group (attr (codes "body") (group nil) (attr (codes "path") (text (codes "/")) nil))) nil)

redact_attrs_lem_example :
    All IsBlank (secrets (redact_attrs line))
    × (keep is_plain (leaves (redact_attrs line)) ≡ keep is_plain (leaves line))
redact_attrs_lem_example = redact_attrs_lem line
