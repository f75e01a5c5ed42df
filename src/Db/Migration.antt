-- ===== src/Db/Migration.antt =====
-- aae/db/migrations/versions/0001_initial.py: its two directions. The tables are in the child module.
mod Tables
use self_spawn_agents.Prelude.{
  true, List, [], ◌∷◌, ◌++◌, codes, Text, ok, err, Action, ℕ, Bool, false, Option, none, some, any,
  ◌&&◌, ◌||◌, not, ◌==◌, operational_error, pure, ◌>>◌, if◌then◌else◌, text_eqb, text_eq,
}
use self_spawn_agents.Prelude.Dict.{Dict, lookup}
pub use self_spawn_agents.Db.Migration.Tables.{created}
use self_spawn_agents.Db.{
  TableDef, Table, Feature, Database, create_table, remove_table, embedding_vec, hnsw_index,
  row_level_security, mother_only_write, prereg_lock,
}

-- The calls of `create_table`, up to the first that raises.
unfoldable pub create_all : List TableDef → Action Database (Unit {0})
create_all [] = pure tt
create_all (t ∷ ts) = create_table t >> create_all ts

abbrev pub attach : Text → Feature → Dict Text Table → Dict Text Table
attach name f [] = []
attach name f ((n, t) ∷ ts) =
    let rest = attach name f ts in
    if text_eqb n name
    then (n, record t { features = t.features ++ f ∷ [] }) ∷ rest
    else (n, t) ∷ rest

-- A statement of `op.execute`: one of the two that alter no table, or one that alters a table.
pub data Statement : Type 0 where
  create_extension create_function : Statement
  alter : Text → Feature → Statement

abbrev feature_number : Feature → ℕ
feature_number embedding_vec = 0
feature_number hnsw_index = 1
feature_number row_level_security = 2
feature_number mother_only_write = 3
feature_number prereg_lock = 4

abbrev has : Feature → Table → Bool
has f t = any (λ g. feature_number f == feature_number g) t.features

-- What Postgres asks for: the type of a column, the column of an index, the function of a trigger,
-- and a name that is not taken.
abbrev pub can_attach : Database → Feature → Table → Bool
can_attach db embedding_vec t = db.vector_extension && not (has embedding_vec t)
can_attach db hnsw_index t = has embedding_vec t && not (has hnsw_index t)
can_attach db row_level_security t = true
can_attach db mother_only_write t = not (has mother_only_write t)
can_attach db prereg_lock t = db.reject_function && not (has prereg_lock t)

abbrev pub can_alter : Database → Feature → Option Table → Bool
can_alter db f none = false
can_alter db f (some t) = can_attach db f t

abbrev pub execute : Statement → Action Database (Unit {0})
execute create_extension db =
    if db.vector_extension || db.vector_available
    then (ok tt, record db { vector_extension = true })
    else (err operational_error, db)
execute create_function db = (ok tt, record db { reject_function = true })
execute (alter name f) db =
    if can_alter db f (lookup name db.tables)
    then (ok tt, record db { tables = attach name f db.tables })
    else (err operational_error, db)

-- The statements under `if _pg()`, in their order.
abbrev pub postgres_statements : List Statement
postgres_statements =
    create_extension
    ∷ alter (codes "agent_memory") embedding_vec
    ∷ alter (codes "agent_memory") hnsw_index
    ∷ alter (codes "cashflow_ledger") row_level_security
    ∷ alter (codes "cashflow_ledger") mother_only_write
    ∷ create_function
    ∷ alter (codes "preregistrations") prereg_lock
    ∷ []

-- Up to the first that raises.
unfoldable pub execute_all : List Statement → Action Database (Unit {0})
execute_all [] = pure tt
execute_all (s ∷ ss) = execute s >> execute_all ss

abbrev pub postgres_part : Action Database (Unit {0})
postgres_part db = if db.postgres then execute_all postgres_statements db else (ok tt, db)

unfoldable pub upgrade_with : List TableDef → Action Database (Unit {0})
upgrade_with ts = create_all ts >> postgres_part

unfoldable pub upgrade : Action Database (Unit {0})
upgrade = upgrade_with created

abbrev pub dropped : List Text
dropped =
    codes "operator_messages"
    ∷ codes "weekly_digests"
    ∷ codes "frozen_hashes"
    ∷ codes "security_events"
    ∷ codes "channel_health"
    ∷ codes "tool_invocations"
    ∷ codes "child_runs"
    ∷ codes "tool_artifacts"
    ∷ codes "build_requests"
    ∷ codes "agent_memory"
    ∷ codes "cashflow_ledger"
    ∷ codes "ethics_verdicts"
    ∷ codes "vertical_proposals"
    ∷ codes "preregistrations"
    ∷ []

abbrev pub drop_all : List Text → Dict Text Table → Dict Text Table
drop_all [] ts = ts
drop_all (n ∷ ns) ts = drop_all ns (remove_table n ts)

-- The loop of `downgrade`; on Postgres each statement has CASCADE.
unfoldable pub downgrade : Database → Database
downgrade db = record db { tables = drop_all dropped db.tables }
