-- ===== src/Auth/Outcome.antt =====
-- What a registration or a rotation that succeeds has done, and that a failed one did nothing.
use mathlib.Core.Path.{subst}
use pixiv_relay.Auth.Store.{
  Device, Db, TokenPair, Env, begin, lookup, insert, rotate, commit, Opened, first, has_refresh,
  is_taken, is_invited, or_err, new_opaque_token, open_account, issue_tokens, new_device, next_id,
  device_no, settle, register, rotate_device, rotate_tokens, refresh_tokens,
}
use pixiv_relay.Common.Errors.{Result, ok, err, Error, >>=-eq-ok, refuse-eq-ok, ok_injective}
use pixiv_relay.Prelude.{
  ◌≡◌, refl, ap, Bool, true, false, ◌&&◌, ◌||◌, not, List, ◌∷◌, Option, none, some, Text,
  Bool-cases, inl, inr, any, nat_beq, is_empty, arith, codes,
}

pub or_err-eq-ok {ℓ} :
    {A : Type ℓ} (e : Error) (o : Option A) {a : A} → or_err e o ≡ ok a → o ≡ some a
or_err-eq-ok e none h = absurd (cc h)
or_err-eq-ok e (some b) h = cc h

right_false : (a b : Bool) → (a || b) ≡ false → b ≡ false
right_false true b h = absurd (cc h)
right_false false b h = h

module _ (env : Env) where
  settle_error :
      (db : Db) (e : Error) (r : Result (Db × TokenPair)) {f : Error}
      → (settle env db e r).1 ≡ err f
      → (settle env db e r).0 ≡ db
  unfolding settle
  settle_error db e (err g) h = refl
  settle_error db e (ok (db', pair)) h = ground arith

  settle_ok :
      (db db' : Db) (e : Error) (r : Result (Db × TokenPair)) (pair : TokenPair)
      → settle env db e r ≡ (db', ok pair)
      → r ≡ ok (db', pair)
  unfolding settle
  settle_ok db db' e (err g) pair h = absurd (cc (ap (λ p. p.1) h))
  settle_ok db db' e (ok (db'', q)) pair h = elim (Bool-cases (env.fails commit)) [
    | inl bad ↦ absurd (ground arith)
    | inr good ↦
        let same : ◌≡◌ {A = Db × Result TokenPair} (db'', ok q) (db', ok pair) = rw good at h in
        let tables : db'' ≡ db' = ap (λ p. p.0) same in
        let pairs : ok q ≡ ok pair = ap (λ p. p.1) same in cc (tables, pairs)
  ]

  -- A registration that fails, at whichever statement, leaves both tables as they were.
  register_error_keeps_tables :
      (invites : List Text) (db : Db) (name invite key : Text) {f : Error}
      → (register env invites db name invite key).1 ≡ err f
      → (register env invites db name invite key).0 ≡ db
  unfolding register
  register_error_keeps_tables invites db name invite key h = settle_error db _ _ h

  -- A rotation that fails, at whichever statement, leaves both tables as they were.
  refresh_error_keeps_tables :
      (db : Db) (token : Text) {f : Error}
      → (refresh_tokens env db token).1 ≡ err f
      → (refresh_tokens env db token).0 ≡ db
  unfolding refresh_tokens
  refresh_error_keeps_tables db token h = settle_error db _ _ h

  -- A rotation that succeeds.
  pub record Rotated (db db' : Db) (token : Text) (pair : TokenPair) : Type 0 where
    pub device : Device
    pub found : first (has_refresh (env.hash token) env.now) db.devices ≡ some device
    pub fresh :
        any
          (λ x.
            not (nat_beq x.id device.id)
            && is_taken (env.hash pair.access_token) (env.hash pair.refresh_token) x)
          db.devices
        ≡ false
    pub devices_lem :
        db'.devices ≡ rotate_device env device.id pair.access_token pair.refresh_token db.devices
    pub accounts_lem : db'.accounts ≡ db.accounts

  rotate_tokens_ok :
      (db db' : Db) (token : Text) (d : Device) (pair : TokenPair)
      → first (has_refresh (env.hash token) env.now) db.devices ≡ some d
      → rotate_tokens env db d ≡ ok (db', pair)
      → Rotated db db' token pair
  unfolding rotate_tokens
  rotate_tokens_ok db db' token d pair found h =
      let (access, _, h1) = >>=-eq-ok (new_opaque_token env 0 (codes "rl_at_")) _ h in
      let (refresh, _, h2) = >>=-eq-ok (new_opaque_token env 1 (codes "rl_rt_")) _ h1 in
      let (free, h3) =
        refuse-eq-ok
          (env.fails rotate
            || any (λ x. not (nat_beq x.id d.id) && is_taken (env.hash access) (env.hash refresh) x)
                db.devices)
          _ _ h2 in
      subst (λ (r : Db × TokenPair). Rotated db r.0 token r.1) (ok_injective h3)
        (record {
          device = d;
          found = found;
          fresh = right_false _ _ free;
          devices_lem = refl;
          accounts_lem = refl;
        })

  pub refresh_tokens-Rotated :
      (db db' : Db) (token : Text) (pair : TokenPair)
      → refresh_tokens env db token ≡ (db', ok pair)
      → Rotated db db' token pair
  unfolding refresh_tokens
  refresh_tokens-Rotated db db' token pair h =
      let h0 = settle_ok db db' _ _ pair h in
      let (_, h1) = refuse-eq-ok (env.fails begin) _ _ h0 in
      let (_, h2) = refuse-eq-ok (env.fails lookup) _ _ h1 in
      let (d, found, h3) =
        >>=-eq-ok (or_err _ (first (has_refresh (env.hash token) env.now) db.devices)) _ h2 in
      rotate_tokens_ok db db' token d pair (or_err-eq-ok _ _ found) h3

  -- A registration that succeeds.
  pub record Registered (invites : List Text) (db db' : Db) (name invite key : Text)
      (pair : TokenPair) : Type 0 where
    pub opened : Opened
    pub invited : is_empty key && not (is_invited invites invite) ≡ false
    pub open_ok : open_account env db key ≡ ok opened
    pub key_lem : pair.account_key ≡ opened.key
    pub fresh :
        any (is_taken (env.hash pair.access_token) (env.hash pair.refresh_token)) db.devices ≡ false
    pub devices_lem :
        db'.devices
        ≡ new_device env
            (next_id device_no db.devices)
            opened.account_id
            name
            invite
            pair.access_token
            pair.refresh_token
          ∷ db.devices
    pub accounts_lem : db'.accounts ≡ opened.accounts

  pub register-Registered :
      (invites : List Text) (db db' : Db) (name invite key : Text) (pair : TokenPair)
      → register env invites db name invite key ≡ (db', ok pair)
      → Registered invites db db' name invite key pair
  unfolding register issue_tokens
  register-Registered invites db db' name invite key pair h =
      let h0 = settle_ok db db' _ _ pair h in
      let (invited, h1) = refuse-eq-ok (is_empty key && not (is_invited invites invite)) _ _ h0 in
      let (_, h2) = refuse-eq-ok (env.fails begin) _ _ h1 in
      let (o, open_ok, h3) = >>=-eq-ok (open_account env db key) _ h2 in
      let (access, _, h4) = >>=-eq-ok (new_opaque_token env 1 (codes "rl_at_")) _ h3 in
      let (refresh, _, h5) = >>=-eq-ok (new_opaque_token env 2 (codes "rl_rt_")) _ h4 in
      let (free, h6) =
        refuse-eq-ok
          (env.fails insert || any (is_taken (env.hash access) (env.hash refresh)) db.devices) _ _
          h5 in
      subst (λ (r : Db × TokenPair). Registered invites db r.0 name invite key r.1)
        (ok_injective h6)
        (record {
          opened = o;
          invited = invited;
          open_ok = open_ok;
          key_lem = refl;
          fresh = right_false _ _ free;
          devices_lem = refl;
          accounts_lem = refl;
        })
