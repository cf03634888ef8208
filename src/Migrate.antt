-- ===== src/Migrate.antt =====
-- Migrate of internal/db/migrate.go. The schema and the script of a migration are arguments; SQLite runs
-- a script in a transaction.
pub mod Order
pub mod Replay
mod Examples
use pixiv_relay.Common.Errors.{Result, ok, err, Error, internal, refuse, ◌>>=◌, ◌>>◌}
use pixiv_relay.Prelude.{
  ℕ, Bool, true, false, ◌&&◌, ◌||◌, not, List, [], ◌∷◌, ◌++◌, Option, none, some, Text, codes, any,
  is_empty, ltb, nat_beq, text_beq, if◌then◌else◌,
}

-- The schema, and the names in schema_migrations.
pub record Database (S : Type 0) : Type 0 where
  pub schema : S
  pub applied : List Text

-- An entry of the embedded directory.
pub record DirEntry : Type 0 where
  pub name : Text
  pub is_dir : Bool

-- The calls of a migration that can fail besides its script.
pub data Call : Type 0 where
  check begin insert commit : Call

-- `content` is ReadFile, and `exec` runs a script on a schema; none where they fail.
pub record Scripts (S : Type 0) : Type 0 where
  pub content : Text → Option Text
  pub exec : Text → S → Option S

-- The order of sort.Strings.
unfoldable pub text_leb : Text → Text → Bool
text_leb [] t = true
text_leb (c ∷ s) [] = false
text_leb (c ∷ s) (d ∷ t) = ltb c d || (nat_beq c d && text_leb s t)

unfoldable pub insert_name : Text → List Text → List Text
insert_name n [] = n ∷ []
insert_name n (m ∷ ms) = if text_leb n m then n ∷ (m ∷ ms) else m ∷ insert_name n ms

unfoldable pub has_suffix : Text → Text → Bool
has_suffix suffix [] = is_empty suffix
has_suffix suffix (c ∷ s) = text_beq (c ∷ s) suffix || has_suffix suffix s

-- The names of the migrations, in order.
unfoldable pub migration_names : List DirEntry → List Text
unfolding insert_name has_suffix
migration_names [] = []
migration_names (e ∷ entries) =
    let rest = migration_names entries in
    if not e.is_dir && has_suffix (codes ".sql") e.name then insert_name e.name rest else rest

abbrev pub or_fail {ℓ} : {A : Type ℓ} → Text → Option A → Result A
or_fail text none = err (internal text)
or_fail text (some a) = ok a

abbrev pub is_applied : Text → List Text → Bool
is_applied name applied = any (λ a. text_beq a name) applied

module _ {S : Type 0} (scripts : Scripts S) (fails : Text → Call → Bool) where
  -- One migration, in its transaction.
  unfoldable pub apply_migration : Text → Database S → Result (Database S)
  apply_migration name db = do
    content ← or_fail (codes "read migration " ++ name) (scripts.content name)
    refuse (fails name begin) (internal (codes "begin migration " ++ name))
    schema ← or_fail (codes "apply migration " ++ name) (scripts.exec content db.schema)
    refuse (fails name insert) (internal (codes "record migration " ++ name))
    refuse (fails name commit) (internal (codes "commit migration " ++ name))
    ok (record { schema = schema; applied = name ∷ db.applied })

  -- One round of the loop.
  unfoldable pub round : Text → Database S → Result (Database S)
  unfolding apply_migration
  round name db = do
    refuse (fails name check) (internal (codes "check migration " ++ name))
    if is_applied name db.applied then ok db else apply_migration name db

  -- The loop over the names.
  unfoldable pub run : List Text → Database S → Database S × Result (Unit {0})
  unfolding round
  run [] db = (db, ok tt)
  run (name ∷ names) db = elim (round name db) [ err e ↦ (db, err e) | ok next ↦ run names next ]

  -- Migrate. `creates` says whether the table of the names could be created, if it was not there.
  unfoldable pub migrate :
      Bool → Option (List DirEntry) → Database S → Database S × Result (Unit {0})
  unfolding run migration_names
  migrate creates entries db =
      elim (do
        refuse (not creates) (internal (codes "create schema_migrations"))
        or_fail (codes "read migrations dir") entries) [
          | err e ↦ (db, err e)
          | ok es ↦ run (migration_names es) db
        ]
