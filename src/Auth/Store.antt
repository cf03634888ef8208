-- ===== src/Auth/Store.antt =====
-- The tables of migration 0002 and the operations of internal/auth: service.go, tokens.go and
-- middleware.go. Random draws, the hash and base64 are arguments; `none` is a failed draw.
use pixiv_relay.Common.Errors.{
  Result, ok, err, Error, internal, bad_request, unauthorized, forbidden, refuse, ◌>>=◌, ◌>>◌,
}
use pixiv_relay.Prelude.Int.{ℤ, pos, add64, ltb_ℤ}
use pixiv_relay.Prelude.{
  ℕ, suc, ◌*◌, Bool, true, false, ◌&&◌, ◌||◌, not, ltb, List, [], ◌∷◌, ◌++◌, Option, none, some,
  Text, codes, text_beq, nat_beq, any, cut, equal_fold, is_empty, if◌then◌else◌,
}

pub record Account : Type 0 where
  pub id : ℕ
  pub account_key_hash : Text
  pub created_at : ℤ

pub record Device : Type 0 where
  pub id : ℕ
  pub account_id : ℕ
  pub device_name : Text
  pub access_token_hash : Text
  pub refresh_token_hash : Text
  pub invite_code : Option Text
  pub created_at : ℤ
  pub access_expires_at : ℤ
  pub refresh_expires_at : ℤ

pub record Db : Type 0 where
  pub accounts : List Account
  pub devices : List Device

pub record TokenPair : Type 0 where
  pub access_token : Text
  pub refresh_token : Text
  pub account_key : Text
  pub expires_in : ℕ

-- 30 and 180 days in milliseconds, and 30 days in seconds.
abbrev pub access_token_ttl : ℤ
access_token_ttl = pos (30 * 24 * 3600 * 1000)

abbrev pub refresh_token_ttl : ℤ
refresh_token_ttl = pos (180 * 24 * 3600 * 1000)

abbrev pub expires_in_seconds : ℕ
expires_in_seconds = 30 * 24 * 3600

-- The first row that passes a test: what QueryRow scans.
unfoldable pub first {ℓ} : {R : Type ℓ} → (R → Bool) → List R → Option R
first p [] = none
first p (r ∷ rs) = if p r then some r else first p rs

abbrev pub or_err {ℓ} : {A : Type ℓ} → Error → Option A → Result A
or_err e none = err e
or_err e (some a) = ok a

-- INTEGER PRIMARY KEY: one more than the greatest id.
unfoldable pub next_id {ℓ} : {R : Type ℓ} → (R → ℕ) → List R → ℕ
next_id id [] = 1
next_id id (r ∷ rs) = let rest = next_id id rs in if ltb (id r) rest then rest else suc (id r)

abbrev pub account_no : Account → ℕ
account_no a = a.id

abbrev pub device_no : Device → ℕ
device_no d = d.id

pub data Statement : Type 0 where
  begin lookup create insert rotate commit : Statement

-- What a request brings: the clock in milliseconds, the random texts in the order they are drawn
-- (already in base64url; `none` where the source of randomness fails), and the faults. `hash` is
-- SHA-256 in hex.
pub record Env : Type 0 where
  pub now : ℤ
  pub draw : ℕ → Option Text
  pub hash : Text → Text
  pub fails : Statement → Bool

pub record Opened : Type 0 where
  pub account_id : ℕ
  pub key : Text
  pub accounts : List Account

abbrev pub has_key_hash : Text → Account → Bool
has_key_hash h a = text_beq a.account_key_hash h

abbrev pub has_refresh : Text → ℤ → Device → Bool
has_refresh h now d = text_beq d.refresh_token_hash h && ltb_ℤ now d.refresh_expires_at

abbrev pub has_access : Text → ℤ → Device → Bool
has_access h now d = text_beq d.access_token_hash h && ltb_ℤ now d.access_expires_at

-- A UNIQUE column of devices holds one of the hashes already.
abbrev pub is_taken : Text → Text → Device → Bool
is_taken access refresh d =
    text_beq d.access_token_hash access || text_beq d.refresh_token_hash refresh

abbrev pub is_nil {ℓ} : {A : Type ℓ} → List A → Bool
is_nil [] = true
is_nil (x ∷ xs) = false

-- NULLIF(?, '')
abbrev pub null_if_empty : Text → Option Text
null_if_empty t = if is_empty t then none else some t

-- Whether the code of a request opens a new account.
unfoldable pub is_invited : List Text → Text → Bool
is_invited codes code = is_nil codes || any (λ c. text_beq c code) codes

module _ (env : Env) where
  unfoldable pub new_opaque_token : ℕ → Text → Result Text
  new_opaque_token i prefix = elim (env.draw i) [
    | none ↦ err (internal (codes "generate token"))
    | some r ↦ ok (prefix ++ r)
  ]

  unfoldable pub find_account : List Account → Text → Result Opened
  find_account accounts key = do
    refuse (env.fails lookup) (internal (codes "lookup account"))
    a ←
        or_err (bad_request (codes "invalid accountKey"))
          (first (has_key_hash (env.hash key)) accounts)
    ok (record { account_id = a.id; key = key; accounts = accounts })

  unfoldable pub create_account : List Account → Result Opened
  unfolding new_opaque_token next_id
  create_account accounts = do
    key ← new_opaque_token 0 (codes "rk_")
    refuse (env.fails create || any (has_key_hash (env.hash key)) accounts)
        (internal (codes "create account"))
    let id = next_id account_no accounts
    ok (record {
      account_id = id;
      key = key;
      accounts =
          record { id = id; account_key_hash = env.hash key; created_at = env.now } ∷ accounts;
    })

  abbrev pub new_device : ℕ → ℕ → Text → Text → Text → Text → Device
  new_device id account name invite access refresh = record {
    id = id;
    account_id = account;
    device_name = name;
    access_token_hash = env.hash access;
    refresh_token_hash = env.hash refresh;
    invite_code = null_if_empty invite;
    created_at = env.now;
    access_expires_at = add64 env.now access_token_ttl;
    refresh_expires_at = add64 env.now refresh_token_ttl;
  }

  unfoldable pub issue_tokens : Db → Opened → Text → Text → Result (Db × TokenPair)
  unfolding new_opaque_token next_id
  issue_tokens db o name invite = do
    access ← new_opaque_token 1 (codes "rl_at_")
    refresh ← new_opaque_token 2 (codes "rl_rt_")
    refuse (env.fails insert || any (is_taken (env.hash access) (env.hash refresh)) db.devices)
        (internal (codes "create device"))
    let d = new_device (next_id device_no db.devices) o.account_id name invite access refresh
    ok (
      record { accounts = o.accounts; devices = d ∷ db.devices },
      record {
        access_token = access;
        refresh_token = refresh;
        account_key = o.key;
        expires_in = expires_in_seconds;
      },
    )

  -- What a transaction leaves: its tables if it came to the end and could commit, else the old ones.
  unfoldable pub settle : Db → Error → Result (Db × TokenPair) → Db × Result TokenPair
  settle db e (err f) = (db, err f)
  settle db e (ok (db', pair)) = if env.fails commit then (db, err e) else (db', ok pair)

  unfoldable pub open_account : Db → Text → Result Opened
  unfolding find_account create_account
  open_account db key =
      if is_empty key then create_account db.accounts else find_account db.accounts key

  unfoldable pub register : List Text → Db → Text → Text → Text → Db × Result TokenPair
  unfolding is_invited open_account issue_tokens settle
  register invites db name invite key = settle db (internal (codes "commit register tx")) (do
    refuse (is_empty key && not (is_invited invites invite))
        (forbidden (codes "invalid invite code"))
    refuse (env.fails begin) (internal (codes "begin register tx"))
    o ← open_account db key
    issue_tokens db o name invite)

  abbrev pub rotated : Text → Text → Device → Device
  rotated access refresh d = record d {
    access_token_hash = env.hash access;
    refresh_token_hash = env.hash refresh;
    access_expires_at = add64 env.now access_token_ttl;
    refresh_expires_at = add64 env.now refresh_token_ttl;
  }

  -- UPDATE devices SET … WHERE id = ?
  unfoldable pub rotate_device : ℕ → Text → Text → List Device → List Device
  rotate_device id access refresh [] = []
  rotate_device id access refresh (d ∷ ds) =
      (if nat_beq d.id id then rotated access refresh d else d) ∷ rotate_device id access refresh ds

  unfoldable pub rotate_tokens : Db → Device → Result (Db × TokenPair)
  unfolding new_opaque_token rotate_device
  rotate_tokens db d = do
    access ← new_opaque_token 0 (codes "rl_at_")
    refresh ← new_opaque_token 1 (codes "rl_rt_")
    refuse
        (env.fails rotate
          || any (λ x. not (nat_beq x.id d.id) && is_taken (env.hash access) (env.hash refresh) x)
              db.devices)
        (internal (codes "rotate tokens"))
    ok (
      record db { devices = rotate_device d.id access refresh db.devices },
      record {
        access_token = access;
        refresh_token = refresh;
        account_key = [];
        expires_in = expires_in_seconds;
      },
    )

  unfoldable pub refresh_tokens : Db → Text → Db × Result TokenPair
  unfolding rotate_tokens settle
  refresh_tokens db token = settle db (internal (codes "commit refresh tx")) (do
    refuse (env.fails begin) (internal (codes "begin refresh tx"))
    refuse (env.fails lookup) (internal (codes "lookup refresh token"))
    d ←
        or_err (unauthorized (codes "refresh token invalid or expired"))
          (first (has_refresh (env.hash token) env.now) db.devices)
    rotate_tokens db d)

-- The Authorization header; an absent one is empty.
unfoldable pub bearer_token : Text → Option Text
bearer_token header = elim (cut b' ' header) [
  | none ↦ none
  | some (scheme, token) ↦
      if equal_fold scheme (codes "Bearer") && not (is_empty token) then some token else none
]

pub record Identity : Type 0 where
  pub account_id : ℕ
  pub device_id : ℕ

pub record Middleware : Type 0 where
  pub static_tokens : List Text
  pub static_account_id : ℕ

unfoldable pub check_token : Middleware → Env → Db → Text → Result Identity
check_token m env db token =
    if any (λ t. text_beq t token) m.static_tokens
    then ok (record { account_id = m.static_account_id; device_id = 0 })
    else do
      refuse (env.fails lookup) (internal (codes "lookup access token"))
      d ←
          or_err (unauthorized (codes "access token invalid or expired"))
            (first (has_access (env.hash token) env.now) db.devices)
      ok (record { account_id = d.account_id; device_id = d.id })

-- Wrap, up to the handler that it guards: who asks, or the refusal.
unfoldable pub wrap : Middleware → Env → Db → Text → Result Identity
unfolding bearer_token check_token
wrap m env db header = elim (bearer_token header) [
  | none ↦ err (unauthorized (codes "missing bearer token"))
  | some token ↦ check_token m env db token
]

-- INSERT OR IGNORE of the shared account, and its id.
unfoldable pub ensure_static_account : Env → Text → Db → Db × Result ℕ
unfolding next_id
ensure_static_account env sentinel db =
    let h = env.hash sentinel in
    if env.fails create
    then (db, err (internal (codes "ensure static account")))
    else let accounts =
        if any (has_key_hash h) db.accounts
        then db.accounts
        else record {
          id = next_id account_no db.accounts;
          account_key_hash = h;
          created_at = env.now;
        }
          ∷ db.accounts in
      (
        record db { accounts = accounts },
        do
          refuse (env.fails lookup) (internal (codes "lookup static account"))
          a ← or_err (internal (codes "lookup static account")) (first (has_key_hash h) accounts)
          ok a.id,
      )
