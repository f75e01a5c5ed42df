-- ===== src/Db/Upgrade.antt =====
-- The two directions of the migration on any database.
use self_spawn_agents.Prelude.{
  ◌≡◌, ◌⊎◌, refl, subst, ap, ◌∙◌, Bool, true, false, Option, none, some, List, [], ◌∷◌, ◌++◌, Text,
  text_eq, if◌then◌else◌, Result, ok, All, ◌>>=◌, err, not, ◌||◌, operational_error,
}
use mathlib.Core.List.{append-nil}
use self_spawn_agents.Prelude.Dict.{Dict, lookup}
use self_spawn_agents.Db.{Column, Table, TableDef, Database}
use self_spawn_agents.Db.Migration.{
  created, upgrade_with, upgrade, dropped, drop_all, downgrade, postgres_part, postgres_statements,
  execute_all,
}
use self_spawn_agents.Db.Rows.{no_stricter}
use self_spawn_agents.Db.Append.{
  Fresh, create_listed, create_all_returns, drop_all-append, Spares, behind, execute_all-behind,
}

-- The server can make the extension, or is no Postgres.
abbrev pub can_migrate : Database → Bool
can_migrate db = not db.postgres || db.vector_extension || db.vector_available

-- The migration on a database with no table at all.
abbrev alone : Bool → Bool → Bool → Bool → Result (Unit {0}) × Database
alone pg a v r = postgres_part (record {
  postgres = pg;
  tables = create_listed created [];
  vector_available = a;
  vector_extension = v;
  reject_function = r;
})

spared : (xs : Dict Text Table) → Fresh xs created → All (Spares xs) postgres_statements
spared xs h =
    let ledger = h.1.1.1.0 in
    let memory = h.1.1.1.1.0 in (tt, (memory, (memory, (ledger, (ledger, (tt, (h.0, tt)))))))

upgrade_behind :
    (pg a v r : Bool) (xs : Dict Text Table)
    → Fresh xs created
    → upgrade_with created (record {
      postgres = pg;
      tables = xs ++ [];
      vector_available = a;
      vector_extension = v;
      reject_function = r;
    })
      ≡ ((alone pg a v r).0, behind xs (alone pg a v r).1)
unfolding upgrade_with ◌>>=◌
upgrade_behind true a v r xs h =
    rw (create_all_returns created xs [] true a v r h refl)
      (execute_all-behind postgres_statements xs _ (spared xs h))
upgrade_behind false a v r xs h = rw (create_all_returns created xs [] false a v r h refl) refl

with_tables : Database → Dict Text Table → Database
with_tables db ts = record db { tables = ts }

-- The migration does with other tables what it does alone.
abbrev alone_on : Database → Result (Unit {0}) × Database
alone_on db = alone db.postgres db.vector_available db.vector_extension db.reject_function

upgrade-alone :
    (db : Database)
    → Fresh db.tables created
    → upgrade db ≡ ((alone_on db).0, behind db.tables (alone_on db).1)
unfolding upgrade with_tables
upgrade-alone db h =
    subst
      (λ ts.
        upgrade_with created (with_tables db ts)
        ≡ ((alone_on db).0, behind db.tables (alone_on db).1))
      (append-nil db.tables)
      (upgrade_behind db.postgres db.vector_available db.vector_extension db.reject_function
        db.tables h)

alone_returns :
    (pg a v r : Bool)
    → (alone pg a v r).0 ≡ (if not pg || v || a then ok tt else err operational_error)
unfolding execute_all ◌>>=◌
alone_returns false a v r = refl
alone_returns true true true r = refl
alone_returns true true false r = refl
alone_returns true false true r = refl
alone_returns true false false r = refl

dropped_of_Fresh : (xs : Dict Text Table) → Fresh xs created → All (λ n. lookup n xs ≡ none) dropped
dropped_of_Fresh xs
      (
        prereg,
        (
          proposals,
          (
            verdicts,
            (
              ledger,
              (
                memory,
                (
                  requests,
                  (
                    artifacts,
                    (runs, (calls, (health, (events, (hashes, (digests, (messages, _))))))),
                  ),
                ),
              ),
            ),
          ),
        ),
      ) =
    (
      messages,
      (
        digests,
        (
          hashes,
          (
            events,
            (
              health,
              (
                calls,
                (
                  runs,
                  (
                    artifacts,
                    (requests, (memory, (ledger, (verdicts, (proposals, (prereg, tt)))))),
                  ),
                ),
              ),
            ),
          ),
        ),
      ),
    )

drop_alone : (pg a v r : Bool) → drop_all dropped (alone pg a v r).1.tables ≡ []
unfolding execute_all ◌>>=◌
drop_alone false a v r = refl
drop_alone true true true r = refl
drop_alone true true false r = refl
drop_alone true false true r = refl
drop_alone true false false r = refl

-- On a database that has none of the fourteen tables: the migration returns on SQLite, and on
-- Postgres if the extension vector is there or can be made, and raises otherwise; and a downgrade
-- after it leaves exactly the tables that were there before.
pub downgrade-upgrade :
    (db : Database)
    → Fresh db.tables created
    → ((upgrade db).0 ≡ (if can_migrate db then ok tt else err operational_error))
      × ((downgrade (upgrade db).1).tables ≡ db.tables)
unfolding downgrade
downgrade-upgrade db h = rw (upgrade-alone db h) (
  alone_returns db.postgres db.vector_available db.vector_extension db.reject_function,
  drop_all-append dropped db.tables _ (dropped_of_Fresh db.tables h)
      ∙ ap (λ x. db.tables ++ x)
          (drop_alone db.postgres db.vector_available db.vector_extension db.reject_function)
      ∙ append-nil db.tables,
)

abbrev covers : List Column → Option Table → Bool
covers cs none = false
covers cs (some t) = no_stricter cs t.columns

abbrev pub Listed : TableDef → List TableDef → Type 0
Listed m [] = ⊥
Listed m (x ∷ xs) = (m ≡ x) ⊎ Listed m xs
