-- ===== src/Sync/Token/Monotone.antt =====
-- Next moves the cursor of its domain forward, and no other cursor.
use pixiv_relay.Prelude.Int.{ℤ, pos, negsuc, add64, add64-pos, two63}
use pixiv_relay.Prelude.Table.{find-upsert_self, find-upsert_ne}
use pixiv_relay.Prelude.{
  byte_length, ℕ, ◌+◌, ◌-◌, ◌<◌, ◌≤◌, ◌≡◌, Text, arith, ltb, if◌then◌else◌, text_eq,
}
use pixiv_relay.Sync.Token.RoundTrip.{parse_token-format_token, token_key_injective}
use pixiv_relay.Sync.Token.{
  TokenStore, slot, token_key, current?, previous, first_seq, last_seq, next, format_token,
}

-- The numbers that Next computes, where no sum overflows.
abbrev pub start_of : ℕ → ℕ → ℕ
start_of p t = if ltb (p + 1) t then t else p + 1

abbrev pub end_of : ℕ → ℕ → ℕ
end_of s n = s + (n - 1)

pub first_seq_lem : (p t : ℕ) → p + 1 < two63 → first_seq (pos p) (pos t) ≡ pos (start_of p t)
unfolding first_seq
first_seq_lem p t h = rw (add64-pos p 1 h) (ground arith)

minus_one : (m : ℕ) → m < two63 → 0 < m → add64 (pos m) (negsuc 0) ≡ pos (m - 1)
unfolding add64
minus_one m h k = ground arith

pub last_seq_lem : (s n : ℕ) → s + n < two63 → last_seq (pos s) n ≡ pos (end_of s n)
unfolding last_seq
last_seq_lem s n h = rw (add64-pos s n h) (ground (arith, minus_one (s + n) h))

pub previous-next :
    (cur : TokenStore) (a : ℕ) (d : Text) (n : ℕ) (now : ℤ) (hex : Text) (m : ℕ)
    → last_seq (first_seq (previous cur a d) now) n ≡ pos m
    → m < two63
    → byte_length hex ≡ 6
    → previous (next cur a d n now hex).store a d ≡ pos m
unfolding previous current? next
previous-next cur a d n now hex m e h six =
    rw
      (
        find-upsert_self slot
            (token_key a d, format_token (last_seq (first_seq (previous cur a d) now) n) hex) cur,
        e,
      )
      (rw (parse_token-format_token m hex h six))

-- A batch of n items at time t in a domain whose last token carries p starts above p and not below
-- t, and the new token carries the number of the batch's last item, as long as these fit an int64.
pub next_advances :
    (cur : TokenStore) (a : ℕ) (d : Text) (n p t : ℕ) (hex : Text)
    → previous cur a d ≡ pos p
    → p + n + 1 < two63
    → t + n < two63
    → byte_length hex ≡ 6
    → ((next cur a d n (pos t) hex).seq_base ≡ pos (start_of p t))
      × (previous (next cur a d n (pos t) hex).store a d ≡ pos (end_of (start_of p t) n))
      × (p < start_of p t)
      × (t ≤ start_of p t)
      × (start_of p t ≤ end_of (start_of p t) n)
next_advances cur a d n p t hex e h k six = (
  seq_base_lem,
  previous-next cur a d n (pos t) hex (end_of (start_of p t) n) ends (ground arith) six,
  ground arith,
  ground arith,
  omega arith,
)
  where
    starts : first_seq (previous cur a d) (pos t) ≡ pos (start_of p t)
    starts = rw e (first_seq_lem p t (omega arith))

    ends : last_seq (first_seq (previous cur a d) (pos t)) n ≡ pos (end_of (start_of p t) n)
    ends = rw starts (last_seq_lem (start_of p t) n (ground arith))

    seq_base_lem : (next cur a d n (pos t) hex).seq_base ≡ pos (start_of p t)
    seq_base_lem = unfold next in starts

-- The cursors of other domains, and of other accounts, stay.
current?-next_ne :
    (cur : TokenStore) (a b : ℕ) (d e : Text) (n : ℕ) (now : ℤ) (hex : Text)
    → ((b ≡ a) → (e ≡ d) → ⊥)
    → current? (next cur a d n now hex).store b e ≡ current? cur b e
unfolding current? next
current?-next_ne cur a b d e n now hex other = ground (
  arith,
  find-upsert_ne slot
      (token_key a d, format_token (last_seq (first_seq (previous cur a d) now) n) hex)
      (token_key b e) cur (λ same. let (p, q) = token_key_injective b a e d same in other p q),
)
