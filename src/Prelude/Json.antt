-- ===== src/Prelude/Json.antt =====
-- What Python's `json` module reads and writes, as data.
use mathlib.Core.Bool.{Bool}
use mathlib.Core.Option.{Option}
use mathlib.Core.List.{[], ◌∷◌}
use self_spawn_agents.Prelude.{Text}
use self_spawn_agents.Prelude.Dict.{Dict}

mutual
  pub data Json : Type 0 where
    null : Json
    boolean : Bool → Json
    -- a number, as it is written
    number : Text → Json
    string : Text → Json
    array : JsonList → Json
    object : JsonFields → Json

  pub data JsonList : Type 0 where
    empty : JsonList
    item : Json → JsonList → JsonList

  pub data JsonFields : Type 0 where
    no_fields : JsonFields
    field : Text → Json → JsonFields → JsonFields

-- A `dict` of JSON as a list of its pairs, and back.
abbrev pub fields_of : JsonFields → Dict Text Json
fields_of no_fields = []
fields_of (field k v rest) = (k, v) ∷ fields_of rest

abbrev pub to_fields : Dict Text Json → JsonFields
to_fields [] = no_fields
to_fields ((k, v) ∷ d) = field k v (to_fields d)

abbrev pub dict : Dict Text Json → Json
dict d = object (to_fields d)

-- The library's `json.loads`, without a value where it raises, and `str`.
pub record JsonLibrary : Type 0 where
  pub loads : Text → Option Json
  pub str : Json → Text
