-- ===== src/Auth/Examples.antt =====
-- The theorems on internal/auth, applied to one device whose tokens are rotated. The hash of a text
-- stands for the text itself.
use pixiv_relay.Auth.Session.{IsLater, rotation_ends_old_tokens, rotation_keeps_identity}
use pixiv_relay.Auth.Store.{
  Device, Db, TokenPair, Env, Statement, commit, Middleware, register, refresh_tokens, check_token,
  first, has_refresh,
}
use pixiv_relay.Common.Errors.{ok, err, unauthorized}
use pixiv_relay.Prelude.Int.{ℤ, pos}
use pixiv_relay.Prelude.{
  ℕ, zero, suc, ◌≡◌, ◌≢◌, refl, Bool, true, false, ◌&&◌, not, List, [], ◌∷◌, Option, none, some,
  Text, codes, text_beq_iff, is_empty, arith, text_eq, nat_eq,
}

abbrev device : Device
device = record {
  id = 7;
  account_id = 3;
  device_name = codes "phone";
  access_token_hash = codes "rl_at_old";
  refresh_token_hash = codes "rl_rt_old";
  invite_code = none;
  created_at = pos 0;
  access_expires_at = pos 100;
  refresh_expires_at = pos 1000;
}

abbrev db : Db
db = record {
  accounts = record { id = 3; account_key_hash = codes "rk_a"; created_at = pos 0 } ∷ [];
  devices = device ∷ [];
}

abbrev draws : ℕ → Option Text
draws zero = some (codes "x")
draws (suc i) = some (codes "y")

abbrev works : Statement → Bool
works st = false

abbrev fails_commit : Statement → Bool
fails_commit commit = true
fails_commit st = false

abbrev env : (Statement → Bool) → ℤ → Env
env fails now = record { now = now; draw = draws; hash = λ t. t; fails = fails }

abbrev old_refresh : Text
old_refresh = codes "rl_rt_old"

abbrev pair : TokenPair
pair = record {
  access_token = codes "rl_at_x";
  refresh_token = codes "rl_rt_y";
  account_key = [];
  expires_in = 2592000;
}

abbrev after : Db
after = (refresh_tokens (env works (pos 50)) db old_refresh).0

rotated_pair : refresh_tokens (env works (pos 50)) db old_refresh ≡ (after, ok pair)
unfolding refresh_tokens first
rotated_pair = refl

found : first (has_refresh old_refresh (pos 50)) db.devices ≡ some device
unfolding first
found = refl

env-IsLater : IsLater (env works (pos 50)) (env works (pos 60))
env-IsLater = record { same_hash = refl; begins = refl; answers = refl }

abbrev no_static : Middleware
no_static = record { static_tokens = []; static_account_id = 0 }

new-ne-old : codes "rl_at_x" ≢ codes "rl_at_old"
new-ne-old e =
    let same : false ≡ true = (text_beq_iff (codes "rl_at_x") (codes "rl_at_old")).1 e in
    absurd (cc same)

new_refresh-ne-old : codes "rl_rt_y" ≢ codes "rl_rt_old"
new_refresh-ne-old e =
    let same : false ≡ true = (text_beq_iff (codes "rl_rt_y") (codes "rl_rt_old")).1 e in
    absurd (cc same)

rotation_ends_old_tokens_example :
    (check_token no_static (env works (pos 60)) after (codes "rl_at_old")
      ≡ err (unauthorized (codes "access token invalid or expired")))
    × (refresh_tokens (env works (pos 60)) after old_refresh
        ≡ (after, err (unauthorized (codes "refresh token invalid or expired"))))
rotation_ends_old_tokens_example =
    rotation_ends_old_tokens (env works (pos 50)) (env works (pos 60)) no_static db after
      old_refresh (codes "rl_at_old") pair device rotated_pair found refl new-ne-old
      new_refresh-ne-old (tt, tt) (tt, tt) refl env-IsLater

rotation_keeps_identity_example :
    check_token no_static (env works (pos 60)) after (codes "rl_at_x")
    ≡ ok (record { account_id = 3; device_id = 7 })
unfolding pixiv_relay.Prelude.Int.add64
rotation_keeps_identity_example =
    rotation_keeps_identity (env works (pos 50)) (env works (pos 60)) no_static db after old_refresh
      pair device rotated_pair found (tt, tt) refl env-IsLater (omega arith)

abbrev invites : List Text
invites = codes "welcome" ∷ []

abbrev registered : Db
registered = (register (env works (pos 50)) invites db (codes "pc") (codes "welcome") []).0

abbrev new_pair : TokenPair
new_pair = record {
  access_token = codes "rl_at_y";
  refresh_token = codes "rl_rt_y";
  account_key = codes "rk_x";
  expires_in = 2592000;
}
