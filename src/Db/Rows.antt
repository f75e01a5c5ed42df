-- ===== src/Db/Rows.antt =====
-- When the columns of one table are as loose as those of another.
use self_spawn_agents.Prelude.{
  Bool, true, false, ◌&&◌, ◌||◌, not, Option, none, some, List, [], ◌∷◌, Text, text_eqb,
}
use self_spawn_agents.Db.{Column}

abbrev same_target : Text × Text → Option (Text × Text) → Bool
same_target (t, k) none = false
same_target (t, k) (some (u, l)) = text_eqb t u && text_eqb k l

-- The second foreign key is none, or the first.
abbrev key_implied : Option (Text × Text) → Option (Text × Text) → Bool
key_implied o none = true
key_implied o (some target) = same_target target o

abbrev pub no_stricter_column : Column → Column → Bool
no_stricter_column c d =
    text_eqb c.name d.name
    && text_eqb c.kind.type_name d.kind.type_name
    && text_eqb c.kind.arguments d.kind.arguments
    && (not c.nullable || d.nullable)
    && (not d.primary_key || c.primary_key)
    && (not d.unique || c.unique)
    && key_implied c.foreign_key d.foreign_key

-- The same columns in the same order, each of the second as loose as that of the first.
abbrev pub no_stricter : List Column → List Column → Bool
no_stricter [] [] = true
no_stricter [] (d ∷ ds) = false
no_stricter (c ∷ cs) [] = false
no_stricter (c ∷ cs) (d ∷ ds) = no_stricter_column c d && no_stricter cs ds
