-- ===== src/Auth/Session.antt =====
-- Rotation: the old tokens of a device end, and the new ones speak for the same device.
use mathlib.Core.Path.{subst}
use pixiv_relay.Auth.Outcome.{refresh_tokens-Rotated}
use pixiv_relay.Auth.Store.{
  Device, Db, TokenPair, Env, Middleware, begin, lookup, first, has_access, has_refresh, is_taken,
  device_no, rotated, rotate_device, refresh_tokens, access_token_ttl, check_token, is_invited,
  settle,
}
use pixiv_relay.Common.Errors.{ok, err, unauthorized}
use pixiv_relay.Prelude.Int.{ℤ, add64, ◌<ℤ◌}
use pixiv_relay.Prelude.Table.{HasDistinctKeys}
use pixiv_relay.Prelude.{
  ℕ, ◌≡◌, ◌≢◌, ◌⊎◌, refl, ap, ◌∙◌, sym, Bool, true, false, ◌&&◌, not, List, [], ◌∷◌, some, none,
  Text, All, Bool-cases, inl, inr, any, nat_beq, nat_beq_iff, text_beq, text_beq_iff, text_eq,
  nat_eq, is_empty, arith, codes, Elem, All-Elem,
}

abbrev pub access_hash : Device → Text
access_hash d = d.access_token_hash

abbrev pub refresh_hash : Device → Text
refresh_hash d = d.refresh_token_hash

first-Elem :
    (p : Device → Bool) (ds : List Device) (d : Device)
    → first p ds ≡ some d
    → Elem d ds × (p d ≡ true)
unfolding first
first-Elem p [] d h = absurd (cc h)
first-Elem p (x ∷ ds) d h = elim (Bool-cases (p x)) [
  | inl hit ↦ let e : x ≡ d = ground arith in (inl (sym e), subst (λ y. p y ≡ true) e hit)
  | inr miss ↦ let (m, q) = first-Elem p ds d (rw miss at h) in (inr m, q)
]

-- A test that holds only of devices with the hash `h` in a column.
abbrev Reads : (Device → Text) → Text → (Device → Bool) → Type 0
Reads field h p = (d : Device) → p d ≡ true → field d ≡ h

misses :
    (field : Device → Text) (h : Text) (p : Device → Bool) (d : Device)
    → Reads field h p
    → field d ≢ h
    → p d ≡ false
misses field h p d reads ne = elim (Bool-cases (p d)) [
  | inl hit ↦ absurd (ne (reads d hit))
  | inr miss ↦ miss
]

access-Reads : (h : Text) (now : ℤ) → Reads access_hash h (has_access h now)
access-Reads h now d e = ground (arith, text_beq_iff d.access_token_hash h)

refresh-Reads : (h : Text) (now : ℤ) → Reads refresh_hash h (has_refresh h now)
refresh-Reads h now d e = ground (arith, text_beq_iff d.refresh_token_hash h)

Elem-any :
    (code : Text) (invites : List Text)
    → any (λ c. text_beq c code) invites ≡ true
    → Elem code invites
Elem-any code [] h = absurd (cc h)
Elem-any code (c ∷ invites) h = elim (Bool-cases (text_beq c code)) [
  | inl same ↦ inl (sym ((text_beq_iff c code).0 same))
  | inr other ↦ inr (Elem-any code invites (rw other at h))
]

-- A registration without an account key is invited, or none has to be.
abbrev pub MayRegister : Text → List Text → Text → Type 0
MayRegister key invites invite = (key ≢ []) ⊎ ((invites ≡ []) ⊎ Elem invite invites)

shown :
    (key : Text) (invites : List Text) (invite : Text)
    → (is_empty key && not (is_invited invites invite)) ≡ false
    → MayRegister key invites invite
unfolding is_invited
shown (c ∷ key) invites invite h = inl (λ e. absurd (cc e))
shown [] [] invite h = inr (inl refl)
shown [] (c ∷ invites) invite h = inr (inr (Elem-any invite (c ∷ invites) (ground (arith, h))))

module _ (env : Env) (access refresh : Text) where
  -- A hash that a column no longer holds is found no more.
  absent :
      (field : Device → Text) (h : Text) (p : Device → Bool) (id : ℕ) (ds : List Device)
      → Reads field h p
      → ((d : Device) → field (rotated env access refresh d) ≢ h)
      → All (λ s. (s.id ≡ id) ⊎ (field s ≢ h)) ds
      → first p (rotate_device env id access refresh ds) ≡ none
  unfolding first rotate_device
  absent field h p id [] reads new a = refl
  absent field h p id (d ∷ ds) reads new a =
      let ih = absent field h p id ds reads new a.1 in
      let gone = misses field h p (rotated env access refresh d) reads (new d) in
      elim (Bool-cases (nat_beq d.id id)) [
        | inl same ↦ rw (same, gone) ih
        | inr other ↦ elim a.0 [
          | inl eq ↦ absurd (ground arith)
          | inr ne ↦ rw (other, misses field h p d reads ne) ih
        ]
      ]

  -- The holder of a hash is the only one, so every other row differs.
  others :
      (field : Device → Text) (ds : List Device) (d : Device)
      → HasDistinctKeys field ds
      → Elem d ds
      → All (λ s. (s.id ≡ d.id) ⊎ (field s ≢ field d)) ds
  others field [] d k m = tt
  others field (x ∷ ds) d k (inl e) = (
    inl (ap device_no (sym e)),
    subst (λ y. All (λ s. (s.id ≡ y.id) ⊎ (field s ≢ field y)) ds) (sym e) (tail ds k.0),
  )
    where
      tail :
          (rows : List Device)
          → All (λ s. field s ≢ field x) rows
          → All (λ s. (s.id ≡ x.id) ⊎ (field s ≢ field x)) rows
      tail [] h = tt
      tail (y ∷ rows) h = (inr h.0, tail rows h.1)
  others field (x ∷ ds) d k (inr m) =
      (inr (λ e. All-Elem (λ s. field s ≢ field x) d ds k.0 m (sym e)), others field ds d k.1 m)

  -- The rotated row is found by its new hash.
  found_new :
      (ds : List Device) (d : Device) (later : ℤ)
      → Elem d ds
      → HasDistinctKeys device_no ds
      → any (λ x. not (nat_beq x.id d.id) && is_taken (env.hash access) (env.hash refresh) x) ds
        ≡ false
      → later <ℤ add64 env.now access_token_ttl
      → first (has_access (env.hash access) later) (rotate_device env d.id access refresh ds)
        ≡ some (rotated env access refresh d)
  unfolding first rotate_device
  found_new [] d later m k free young = elim m [ ]
  found_new (x ∷ ds) d later (inl e) k free young =
      let same : nat_beq x.id d.id ≡ true = (nat_beq_iff x.id d.id).1 (ap device_no (sym e)) in
      let eq : rotated env access refresh x ≡ rotated env access refresh d =
        ap (rotated env access refresh) (sym e) in
      rw same (ground (arith, text_beq_iff (env.hash access) (env.hash access), eq))
  found_new (x ∷ ds) d later (inr m) k free young =
      let ne : x.id ≢ d.id = λ e. All-Elem (λ s. device_no s ≢ device_no x) d ds k.0 m (sym e) in
      let other : nat_beq x.id d.id ≡ false = ground (arith, ne) in
      let rest : any
            (λ y. not (nat_beq y.id d.id) && is_taken (env.hash access) (env.hash refresh) y) ds
          ≡ false =
        ground arith in
      let ih = found_new ds d later m k.1 rest young in
      let clear : text_beq x.access_token_hash (env.hash access) ≡ false = ground arith in
      rw (other, clear) ih

-- A later request, with the same hash and no failing statement.
pub record IsLater (env later : Env) : Type 0 where
  pub same_hash : later.hash ≡ env.hash
  pub begins : later.fails begin ≡ false
  pub answers : later.fails lookup ≡ false

module _ (env later : Env) (m : Middleware) where
  -- After a rotation that succeeds, the access token and the refresh token that the device had are
  -- refused with 401, at any time, where the hashes in each column differ, the new tokens do not
  -- collide with the old, and the old access token is no static one.
  pub rotation_ends_old_tokens :
      (db db' : Db) (token old : Text) (pair : TokenPair) (d : Device)
      → refresh_tokens env db token ≡ (db', ok pair)
      → first (has_refresh (env.hash token) env.now) db.devices ≡ some d
      → env.hash old ≡ d.access_token_hash
      → env.hash pair.access_token ≢ env.hash old
      → env.hash pair.refresh_token ≢ env.hash token
      → HasDistinctKeys access_hash db.devices
      → HasDistinctKeys refresh_hash db.devices
      → any (λ t. text_beq t old) m.static_tokens ≡ false
      → IsLater env later
      → (check_token m later db' old ≡ err (unauthorized (codes "access token invalid or expired")))
        × (refresh_tokens later db' token
            ≡ (db', err (unauthorized (codes "refresh token invalid or expired"))))
  unfolding check_token refresh_tokens settle
  rotation_ends_old_tokens db db' token old pair d h found held ne ne' ka kr plain l =
      let r = refresh_tokens-Rotated env db db' token pair h in
      let same : r.device ≡ d = cc (r.found, found) in
      let (member, hit) = first-Elem _ db.devices d found in
      let held' : d.refresh_token_hash ≡ env.hash token =
        refresh-Reads (env.hash token) env.now d hit in
      let rows : db'.devices
          ≡ rotate_device env d.id pair.access_token pair.refresh_token db.devices =
        r.devices_lem
        ∙ ap
            (λ (x : Device). rotate_device env x.id pair.access_token pair.refresh_token db.devices)
            same in
      let dead_access : first (has_access (env.hash old) later.now) db'.devices ≡ none = rw rows (
        absent env pair.access_token pair.refresh_token access_hash (env.hash old) _ d.id db.devices
          (access-Reads (env.hash old) later.now) (λ x. ne)
          (rw held (
            others env pair.access_token pair.refresh_token access_hash db.devices d ka member))) in
      let dead_refresh : first (has_refresh (env.hash token) later.now) db'.devices ≡ none =
        rw rows (
          absent env pair.access_token pair.refresh_token refresh_hash (env.hash token) _ d.id
            db.devices (refresh-Reads (env.hash token) later.now) (λ x. ne')
            (subst (λ z. All (λ s. (s.id ≡ d.id) ⊎ (refresh_hash s ≢ z)) db.devices) held'
              (others env pair.access_token pair.refresh_token refresh_hash db.devices d kr
                member))) in
      (
        rw (plain, l.answers, l.same_hash, dead_access),
        rw (l.begins, l.answers, l.same_hash, dead_refresh),
      )

  -- After a rotation that succeeds, the new access token speaks for the same account and device
  -- until 30 days have passed.
  pub rotation_keeps_identity :
      (db db' : Db) (token : Text) (pair : TokenPair) (d : Device)
      → refresh_tokens env db token ≡ (db', ok pair)
      → first (has_refresh (env.hash token) env.now) db.devices ≡ some d
      → HasDistinctKeys device_no db.devices
      → any (λ t. text_beq t pair.access_token) m.static_tokens ≡ false
      → IsLater env later
      → later.now <ℤ add64 env.now access_token_ttl
      → check_token m later db' pair.access_token
        ≡ ok (record { account_id = d.account_id; device_id = d.id })
  unfolding check_token
  rotation_keeps_identity db db' token pair d h found k plain l young =
      let r = refresh_tokens-Rotated env db db' token pair h in
      let same : r.device ≡ d = cc (r.found, found) in
      let (member, hit) = first-Elem _ db.devices d found in
      let live : first (has_access (env.hash pair.access_token) later.now) db'.devices
          ≡ some (rotated env pair.access_token pair.refresh_token d) =
        rw r.devices_lem (
          rw same (
            found_new env pair.access_token pair.refresh_token db.devices d later.now member k
              (rw same at r.fresh) young)) in
      rw (plain, l.answers, l.same_hash, live)
