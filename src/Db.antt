-- ===== src/Db.antt =====
-- aae/db: the tables as data. A column is what `mapped_column` and `sa.Column` say of it; the
-- defaults, which fill in a value before a row is written, are left out.
pub mod Models
pub mod Migration
pub mod Rows
pub mod Append
pub mod Upgrade
pub mod Session
mod Tests
use self_spawn_agents.Prelude.{
  ℕ, Bool, true, false, ◌&&◌, ◌||◌, not, Option, none, some, List, [], ◌∷◌, Text, codes, text_eq,
  text_eqb, all, any, Result, ok, err, Action, if◌then◌else◌, operational_error,
}
use self_spawn_agents.Prelude.Dict.{Dict, contains, insert, keys}

-- A type of SQLAlchemy with its arguments, as in `Numeric(12, 4)`.
pub record ColumnType : Type 0 where
  pub type_name : Text
  pub arguments : List ℕ

abbrev pub varchar : ℕ → ColumnType
varchar n = record { type_name = codes "String"; arguments = n ∷ [] }

abbrev pub numeric : ℕ → ℕ → ColumnType
numeric p s = record { type_name = codes "Numeric"; arguments = p ∷ s ∷ [] }

abbrev plain : Text → ColumnType
plain name = record { type_name = name; arguments = [] }

abbrev pub timestamp : ColumnType
timestamp = plain (codes "DateTime")

abbrev pub integer : ColumnType
integer = plain (codes "Integer")

abbrev pub boolean : ColumnType
boolean = plain (codes "Boolean")

abbrev pub json : ColumnType
json = plain (codes "JSON")

abbrev pub binary : ColumnType
binary = plain (codes "LargeBinary")

abbrev pub long_text : ColumnType
long_text = plain (codes "Text")

abbrev pub float_number : ColumnType
float_number = plain (codes "Float")

pub record Column : Type 0 where
  pub name : Text
  pub kind : ColumnType
  pub nullable : Bool
  pub primary_key : Bool
  pub unique : Bool
  pub index : Bool
  -- the table and the column of `ForeignKey`
  pub foreign_key : Option (Text × Text)

-- `nullable=False`
abbrev pub required : Text → ColumnType → Column
required name kind = record {
  name = name;
  kind = kind;
  nullable = false;
  primary_key = false;
  unique = false;
  index = false;
  foreign_key = none;
}

-- `nullable=True`, which is also what `sa.Column` takes where nothing is said.
abbrev pub optional : Text → ColumnType → Column
optional name kind = record (required name kind) { nullable = true }

abbrev pub primary : Text → ColumnType → Column
primary name kind = record (required name kind) { primary_key = true }

abbrev pub indexed : Column → Column
indexed c = record c { index = true }

abbrev pub unique_one : Column → Column
unique_one c = record c { unique = true }

abbrev pub references : Text → Column → Column
references table c = record c { foreign_key = some (table, codes "id") }

-- A table with its name.
abbrev pub TableDef : Type 0
TableDef = Text × List Column

-- What Postgres attaches to a table.
pub data Feature : Type 0 where
  embedding_vec hnsw_index row_level_security mother_only_write prereg_lock : Feature

pub record Table : Type 0 where
  pub columns : List Column
  pub features : List Feature

pub record Database : Type 0 where
  pub postgres : Bool
  pub tables : Dict Text Table
  -- pgvector is installed on the server, and the role may create the extension.
  pub vector_available : Bool
  pub vector_extension : Bool
  pub reject_function : Bool

abbrev pub key_exists : Dict Text Table → Option (Text × Text) → Bool
key_exists tables none = true
key_exists tables (some (t, k)) = contains t tables

abbrev pub target_exists : Dict Text Table → Column → Bool
target_exists tables c = key_exists tables c.foreign_key

abbrev pub empty_table : List Column → Table
empty_table columns = record { columns = columns; features = [] }

-- `op.create_table`: a name can be taken once, and a foreign key wants its table.
abbrev pub create_table : TableDef → Action Database (Unit {0})
create_table (name, columns) db =
    if contains name db.tables || not (all (target_exists db.tables) columns)
    then (err operational_error, db)
    else (ok tt, record db { tables = insert name (empty_table columns) db.tables })

-- `DROP TABLE IF EXISTS`: the table is gone, with what is attached to it.
abbrev pub remove_table : Text → Dict Text Table → Dict Text Table
remove_table name [] = []
remove_table name ((n, t) ∷ ts) =
    let rest = remove_table name ts in if text_eqb n name then rest else (n, t) ∷ rest
