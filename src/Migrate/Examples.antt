-- ===== src/Migrate/Examples.antt =====
-- The theorems on internal/db, applied to three entries, of which one is recorded already. A schema is
-- the list of the scripts that were run.
use pixiv_relay.Common.Errors.{ok}
use pixiv_relay.Migrate.{Database, DirEntry, Scripts, Call, insert, migration_names, migrate}
use pixiv_relay.Migrate.Replay.{Plays, migrate-Plays, migrate_again}
use pixiv_relay.Migrate.Order.{IsListing}
use pixiv_relay.Prelude.{◌≡◌, refl, Bool, true, false, List, [], ◌∷◌, some, Text, codes}

abbrev scripts : Scripts (List Text)
scripts = record { content = some; exec = λ script schema. some (script ∷ schema) }

abbrev works : Text → Call → Bool
works name call = false

abbrev fails_insert : Text → Call → Bool
fails_insert name insert = true
fails_insert name _ = false

abbrev entry : Text → DirEntry
entry name = record { name = name; is_dir = false }

abbrev entries : List DirEntry
entries =
    entry (codes "0002.sql")
    ∷ entry (codes "0001.sql")
    ∷ entry (codes "0003.sql")
    ∷ entry (codes "notes")
    ∷ []

abbrev database : Database (List Text)
database = record { schema = codes "0001.sql" ∷ []; applied = codes "0001.sql" ∷ [] }

in_order : migration_names entries ≡ codes "0001.sql" ∷ codes "0002.sql" ∷ codes "0003.sql" ∷ []
unfolding migration_names pixiv_relay.Migrate.text_leb
in_order = refl

migrate-Plays_example :
    Plays scripts fails_insert
      (migration_names entries)
      database
      (migrate scripts fails_insert true (some entries) database)
    × IsListing entries (migration_names entries)
migrate-Plays_example = migrate-Plays scripts fails_insert entries database

succeeds : (migrate scripts works true (some entries) database).1 ≡ ok tt
unfolding migrate pixiv_relay.Migrate.text_leb
succeeds = refl

migrate_again_example :
    (migrate scripts fails_insert true
      (some entries)
      (migrate scripts works true (some entries) database).0).0
    ≡ (migrate scripts works true (some entries) database).0
migrate_again_example = migrate_again scripts works fails_insert true entries database succeeds
