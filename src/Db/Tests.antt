-- ===== src/Db/Tests.antt =====
-- The migration on an empty database.
use self_spawn_agents.Prelude.{◌≡◌, refl, true, false, [], ◌∷◌, ok, codes, text_eq}
use self_spawn_agents.Db.{Table, Database}
use self_spawn_agents.Db.Migration.{upgrade, downgrade, created}
use self_spawn_agents.Db.Append.{Fresh}
use self_spawn_agents.Db.Upgrade.{downgrade-upgrade}

abbrev other : Table
other = record { columns = []; features = [] }

abbrev database : Database
database = record {
  postgres = true;
  tables = (codes "alembic_version", other) ∷ [];
  vector_available = true;
  vector_extension = false;
  reject_function = false;
}

fresh : Fresh database.tables created
fresh = (
  refl,
  (
    refl,
    (
      refl,
      (refl, (refl, (refl, (refl, (refl, (refl, (refl, (refl, (refl, (refl, (refl, tt))))))))))),
    ),
  ),
)

downgrade-upgrade_example :
    ((upgrade database).0 ≡ ok tt) × ((downgrade (upgrade database).1).tables ≡ database.tables)
downgrade-upgrade_example = downgrade-upgrade database fresh
