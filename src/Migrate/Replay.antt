-- ===== src/Migrate/Replay.antt =====
-- What a run of the migrations leaves.
use mathlib.Core.Path.{subst}
use pixiv_relay.Common.Errors.{
  >>=-eq-ok, refuse-eq-ok, ok_injective, Result, ok, err, Error, Result-cases,
}
use pixiv_relay.Migrate.{
  Database, DirEntry, Scripts, Call, check, begin, insert, commit, migration_names, is_applied,
  or_fail, apply_migration, round, run, migrate,
}
use pixiv_relay.Migrate.Order.{IsListing, migration_names-IsListing}
use pixiv_relay.Prelude.{
  ◌≡◌, refl, ap, ◌∙◌, sym, Bool, true, false, List, [], ◌∷◌, ◌++◌, All, Option, none, some, Text,
  codes, text_eq, Bool-cases, inl, inr, ◌⊎◌, arith, if◌then◌else◌,
}

-- The names that are still to be applied, in order and once each.
unfoldable pub pending : List Text → List Text → List Text
pending applied [] = []
pending applied (name ∷ names) =
    let old = pending applied names in
    let new = pending (name ∷ applied) names in if is_applied name applied then old else name ∷ new

or_fail_ok {ℓ} :
    {A : Type ℓ} (text : Text) (o : Option A) (a : A) → or_fail text o ≡ ok a → o ≡ some a
or_fail_ok text none a h = absurd (cc h)
or_fail_ok text (some b) a h = ap some (ok_injective h)

module _ {S : Type 0} (scripts : Scripts S) where
  -- The scripts of the names, run in turn, each with its name recorded.
  pub data Replays : Database S → List Text → Database S → Type 0 where
    done : {db : Database S} → Replays db [] db
    applies :
        {db last : Database S} {name content : Text} {names : List Text} {schema : S}
        → scripts.content name ≡ some content
        → scripts.exec content db.schema ≡ some schema
        → Replays (record { schema = schema; applied = name ∷ db.applied }) names last
        → Replays db (name ∷ names) last

  -- A name that is recorded stays recorded.
  Replays-keeps :
      {db last : Database S} {names : List Text} (name : Text)
      → Replays db names last
      → is_applied name db.applied ≡ true
      → is_applied name last.applied ≡ true
  Replays-keeps name done h = h
  Replays-keeps name (applies {name = n} a b rest) h = Replays-keeps name rest (ground arith)

  module _ (fails : Text → Call → Bool) where
    -- How a run ends: at the end of the list, or with an error before the names that are left.
    abbrev pub EndsWith : List Text → Result (Unit {0}) → Type 0
    EndsWith left (ok u) = left ≡ []
    EndsWith left (err e) = Unit

    apply_migration_ok :
        (name : Text) (db next : Database S)
        → apply_migration scripts fails name db ≡ ok next
        → (content : Text) × (schema : S) × (scripts.content name ≡ some content)
          × (scripts.exec content db.schema ≡ some schema)
          × (next ≡ record { schema = schema; applied = name ∷ db.applied })
    unfolding apply_migration
    apply_migration_ok name db next h =
        let (content, a, h1) =
          >>=-eq-ok (or_fail (codes "read migration " ++ name) (scripts.content name)) _ h in
        let (_, h2) = refuse-eq-ok (fails name begin) _ _ h1 in
        let (schema, b, h3) =
          >>=-eq-ok (or_fail (codes "apply migration " ++ name) (scripts.exec content db.schema)) _
            h2 in
        let (_, h4) = refuse-eq-ok (fails name insert) _ _ h3 in
        let (_, h5) = refuse-eq-ok (fails name commit) _ _ h4 in
        (
          content,
          schema,
          or_fail_ok _ (scripts.content name) content a,
          or_fail_ok _ (scripts.exec content db.schema) schema b,
          sym (ok_injective h5),
        )

    round_ok :
        (name : Text) (db next : Database S)
        → round scripts fails name db ≡ ok next
        → ((is_applied name db.applied ≡ true) × (next ≡ db))
          ⊎ ((is_applied name db.applied ≡ false)
              × ((content : Text) × (schema : S) × (scripts.content name ≡ some content)
                  × (scripts.exec content db.schema ≡ some schema)
                  × (next ≡ record { schema = schema; applied = name ∷ db.applied })))
    unfolding round
    round_ok name db next h =
        let (_, g) = refuse-eq-ok (fails name check) _ _ h in
        elim (Bool-cases (is_applied name db.applied)) [
          | inl old ↦ inl (old, sym (ok_injective (skipped old g)))
          | inr new ↦ inr (new, apply_migration_ok name db next (tried new g))
        ]
      where
        skipped :
            is_applied name db.applied ≡ true
            → (if is_applied name db.applied then ok db else apply_migration scripts fails name db)
              ≡ ok next
            → ok db ≡ ok next
        skipped old g =
            subst (λ b. (if b then ok db else apply_migration scripts fails name db) ≡ ok next) old
              g

        tried :
            is_applied name db.applied ≡ false
            → (if is_applied name db.applied then ok db else apply_migration scripts fails name db)
              ≡ ok next
            → apply_migration scripts fails name db ≡ ok next
        tried new g =
            subst (λ b. (if b then ok db else apply_migration scripts fails name db) ≡ ok next) new
              g

    run_ok :
        (name : Text) (names : List Text) (db next : Database S)
        → round scripts fails name db ≡ ok next
        → run scripts fails (name ∷ names) db ≡ run scripts fails names next
    unfolding run
    run_ok name names db next h = rw (h, run) refl

    run_err :
        (name : Text) (names : List Text) (db : Database S) {e : Error}
        → round scripts fails name db ≡ err e
        → run scripts fails (name ∷ names) db ≡ (db, err e)
    unfolding run
    run_err name names db h = rw (h, run) refl

    -- Ended in this way, a run has played a part of the list, and stopped there.
    abbrev pub Plays : List Text → Database S → Database S × Result (Unit {0}) → Type 0
    Plays names db (last, result) =
        (played : List Text) × (left : List Text) × (pending db.applied names ≡ played ++ left)
        × Replays db played last
        × EndsWith left result

    Plays-skip :
        (name : Text) (names : List Text) (db : Database S) (end : Database S × Result (Unit {0}))
        → is_applied name db.applied ≡ true
        → Plays names db end
        → Plays (name ∷ names) db end
    unfolding pending
    Plays-skip name names db end old h = rw old h

    Plays-play :
        (name : Text) (names : List Text) (db : Database S) (end : Database S × Result (Unit {0}))
        (content : Text) (schema : S)
        → is_applied name db.applied ≡ false
        → scripts.content name ≡ some content
        → scripts.exec content db.schema ≡ some schema
        → Plays names (record { schema = schema; applied = name ∷ db.applied }) end
        → Plays (name ∷ names) db end
    unfolding pending
    Plays-play name names db end content schema new a b (played, left, p, replays, ends) =
        (name ∷ played, left, rw new (ap (λ l. name ∷ l) p), applies a b replays, ends)

    pub run-Plays :
        (names : List Text) (db : Database S) → Plays names db (run scripts fails names db)
    unfolding run pending
    run-Plays [] db = ([], [], refl, done, refl)
    run-Plays (name ∷ names) db = elim (Result-cases (round scripts fails name db)) [
      | inr (e, bad) ↦
          subst (Plays (name ∷ names) db) (sym (run_err name names db bad))
            ([], pending db.applied (name ∷ names), refl, done, tt)
      | inl (next, good) ↦
          subst (Plays (name ∷ names) db) (sym (run_ok name names db next good))
            (elim (round_ok name db next good) [
              | inl (old, same) ↦
                  subst (λ d. Plays (name ∷ names) db (run scripts fails names d)) (sym same)
                    (Plays-skip name names db _ old (run-Plays names db))
              | inr (new, (content, schema, a, b, same)) ↦
                  subst (λ d. Plays (name ∷ names) db (run scripts fails names d)) (sym same)
                    (Plays-play name names db _ content schema new a b
                      (run-Plays names (record { schema = schema; applied = name ∷ db.applied })))
            ])
    ]

    run_stays :
        (names : List Text) (db : Database S)
        → All (λ n. is_applied n db.applied ≡ true) names
        → (run scripts fails names db).0 ≡ db
    unfolding run
    run_stays [] db h = refl
    run_stays (name ∷ names) db h = elim (Result-cases (round scripts fails name db)) [
      | inr (e, bad) ↦ ap (λ p. p.0) (run_err name names db bad)
      | inl (next, good) ↦ elim (round_ok name db next good) [
        | inl (old, same) ↦
            ap (λ p. p.0) (run_ok name names db next good)
            ∙ (ap (λ d. (run scripts fails names d).0) same ∙ run_stays names db h.1)
        | inr (new, rest) ↦ absurd (cc (new, h.0))
      ]
    ]

    recorded :
        (name : Text) (db next : Database S)
        → round scripts fails name db ≡ ok next
        → is_applied name next.applied ≡ true
    recorded name db next h = elim (round_ok name db next h) [
      | inl (old, same) ↦ subst (λ d. is_applied name d.applied ≡ true) (sym same) old
      | inr (new, (content, schema, a, b, same)) ↦
          subst (λ d. is_applied name d.applied ≡ true) (sym same)
            (rw ((text_eq.beq_iff name name).1 refl) refl)
    ]

    run_applies :
        (names : List Text) (db : Database S)
        → (run scripts fails names db).1 ≡ ok tt
        → All (λ n. is_applied n (run scripts fails names db).0.applied ≡ true) names
    run_applies [] db h = tt
    run_applies (name ∷ names) db h = elim (Result-cases (round scripts fails name db)) [
      | inr (e, bad) ↦ absurd (cc (ap (λ p. p.1) (run_err name names db bad), h))
      | inl (next, good) ↦
          let same = run_ok name names db next good in
          let (played, left, p, replays, ends) = run-Plays names next in
          subst (λ end. All (λ n. is_applied n end.0.applied ≡ true) (name ∷ names)) (sym same)
            (
              Replays-keeps name replays (recorded name db next good),
              run_applies names next (sym (ap (λ p. p.1) same) ∙ h),
            )
    ]

    -- Migrate runs the scripts of all files whose name ends in .sql, and no others, that are not
    -- recorded yet, in the order of their names, and records each. Where it fails it has run the first
    -- of them, each whole, and the rest not at all.
    pub migrate-Plays :
        (entries : List DirEntry) (db : Database S)
        → Plays (migration_names entries) db (migrate scripts fails true (some entries) db)
          × IsListing entries (migration_names entries)
    unfolding migrate
    migrate-Plays entries db =
        (run-Plays (migration_names entries) db, migration_names-IsListing entries)

  -- Once Migrate has succeeded, running it again changes nothing, whatever then fails.
  pub migrate_again :
      (fails again : Text → Call → Bool) (creates : Bool) (entries : List DirEntry)
      (db : Database S)
      → (migrate scripts fails true (some entries) db).1 ≡ ok tt
      → (migrate scripts again creates
          (some entries)
          (migrate scripts fails true (some entries) db).0).0
        ≡ (migrate scripts fails true (some entries) db).0
  unfolding migrate
  migrate_again fails again false entries db h = refl
  migrate_again fails again true entries db h =
      run_stays again (migration_names entries) (run scripts fails (migration_names entries) db).0
        (run_applies fails (migration_names entries) db h)
