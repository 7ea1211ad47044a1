-- ===== src/Tests/Migrations.antt =====
-- The migration in a database that has other objects.
use civio.Base.{◌≡◌, refl, false, true, List, [], ◌∷◌, ◌++◌}
use civio.Errors.Classes.{other}
use civio.Errors.Outcome.{ok, err}
use civio.Schema.Catalog.{Object, extension, table, execute, run}
use civio.Schema.Catalog.Scripts.{extensions, upgrade, downgrade}
use civio.Schema.Catalog.RoundTrip.{upgraded, ensured, downgrade-upgrade}

abbrev before : List Object
before = table "alembic_version" [] [] false ∷ extension "pgcrypto" ∷ []

downgrade-upgrade_example :
    (run upgrade before ≡ ok (upgraded ++ ensured extensions before))
    × (run downgrade (upgraded ++ ensured extensions before) ≡ ok (ensured extensions before))
    × (run upgrade (ensured extensions before) ≡ ok (upgraded ++ ensured extensions before))
unfolding downgrade
downgrade-upgrade_example = downgrade-upgrade before refl refl

-- Another table with a column `updated_at` gets the trigger as well, which keeps the function.
other_table :
    run (upgrade ++ downgrade) (table "edge_nodes" [] [] true ∷ [])
    ≡ err (other "DependentObjectsStillExist")
unfolding run execute upgrade downgrade
other_table = refl
