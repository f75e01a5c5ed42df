-- ===== src/Preregistration/Canonical.antt =====
-- aae/preregistration/canonical.py.
use self_spawn_agents.Prelude.{
  ℕ, ◌+◌, ◌/◌, ◌%◌, Bool, true, false, ◌&&◌, ◌||◌, [], ◌∷◌, ◌++◌, Text, codes, text_eq, ltb, ◌==◌,
  if◌then◌else◌, Result, ok, err, type_error,
}
use self_spawn_agents.Prelude.Int.{ℤ}
use self_spawn_agents.Prelude.Digits.{print_int}
use self_spawn_agents.Prelude.Dict.{Dict}

-- What the dump is given: a Python value whose dictionaries have texts as keys. Decimals, UUIDs,
-- dates and times come with what `str` or `isoformat` gives for them.
mutual
  pub data PyValue : Type 0 where
    none_value : PyValue
    boolean : Bool → PyValue
    int : ℤ → PyValue
    float : PyValue
    string : Text → PyValue
    decimal uuid moment : Text → PyValue
    sequence : PyItems → PyValue
    dict : PyFields → PyValue
    other : PyValue

  pub data PyItems : Type 0 where
    no_items : PyItems
    item : PyValue → PyItems → PyItems

  pub data PyFields : Type 0 where
    no_fields : PyFields
    field : Text → PyValue → PyFields → PyFields

abbrev pub to_fields : Dict Text PyValue → PyFields
to_fields [] = no_fields
to_fields ((k, v) ∷ d) = field k v (to_fields d)

-- Whether `_ban_floats` raises.
unfoldable mutual
  pub bans : PyValue → Bool
  bans float = true
  bans (sequence xs) = bans_items xs
  bans (dict fs) = bans_fields fs
  bans _ = false

  pub bans_items : PyItems → Bool
  bans_items no_items = false
  bans_items (item v xs) = bans v || bans_items xs

  pub bans_fields : PyFields → Bool
  bans_fields no_fields = false
  bans_fields (field k v fs) = bans v || bans_fields fs

-- Whether `_default` raises for some value.
unfoldable mutual
  pub unserializable : PyValue → Bool
  unserializable other = true
  unserializable (sequence xs) = unserializable_items xs
  unserializable (dict fs) = unserializable_fields fs
  unserializable _ = false

  pub unserializable_items : PyItems → Bool
  unserializable_items no_items = false
  unserializable_items (item v xs) = unserializable v || unserializable_items xs

  pub unserializable_fields : PyFields → Bool
  unserializable_fields no_fields = false
  unserializable_fields (field k v fs) = unserializable v || unserializable_fields fs

-- The escapes of `json.dumps` with `ensure_ascii=False`.
abbrev pub hex_digit : ℕ → ℕ
hex_digit d = if ltb d 10 then 48 + d else 87 + d

abbrev pub escape_char : ℕ → Text
escape_char c =
    if c == 34
    then 92 ∷ 34 ∷ []
    else if c == 92
    then 92 ∷ 92 ∷ []
    else if c == 10
    then 92 ∷ 110 ∷ []
    else if c == 13
    then 92 ∷ 114 ∷ []
    else if c == 9
    then 92 ∷ 116 ∷ []
    else if c == 12
    then 92 ∷ 102 ∷ []
    else if c == 8
    then 92 ∷ 98 ∷ []
    else if ltb c 32
    then 92 ∷ 117 ∷ 48 ∷ 48 ∷ hex_digit (c / 16) ∷ hex_digit (c % 16) ∷ []
    else c ∷ []

abbrev pub escape : Text → Text
escape [] = []
escape (c ∷ s) = escape_char c ++ escape s

abbrev pub quote : Text → Text
quote s = 34 ∷ escape s ++ 34 ∷ []

abbrev pub bool_text : Bool → Text
bool_text true = codes "true"
bool_text false = codes "false"

-- The order of texts by code points.
abbrev pub text_ltb : Text → Text → Bool
text_ltb [] [] = false
text_ltb [] (d ∷ t) = true
text_ltb (c ∷ s) [] = false
text_ltb (c ∷ s) (d ∷ t) = ltb c d || ((c == d) && text_ltb s t)

-- `sort_keys=True`: a stable sort.
abbrev pub insert_sorted {ℓ} : {V : Type ℓ} → Text × V → Dict Text V → Dict Text V
insert_sorted m [] = m ∷ []
insert_sorted m (n ∷ d) =
    let rest = insert_sorted m d in if text_ltb n.0 m.0 then n ∷ rest else m ∷ n ∷ d

abbrev pub sort_keys {ℓ} : {V : Type ℓ} → Dict Text V → Dict Text V
sort_keys [] = []
sort_keys (m ∷ d) = insert_sorted m (sort_keys d)

abbrev pub member_text : Text × Text → Text
member_text (k, text) = quote k ++ 58 ∷ text

-- The members of an object from behind the first one on.
abbrev pub join_rest : Dict Text Text → Text
join_rest [] = []
join_rest (m ∷ d) = 44 ∷ member_text m ++ join_rest d

abbrev pub join_members : Dict Text Text → Text
join_members [] = []
join_members (m ∷ d) = member_text m ++ join_rest d

unfoldable mutual
  -- The body that `json.dumps` gives; a value that raises has no text.
  pub body_text : PyValue → Text
  body_text none_value = codes "null"
  body_text (boolean b) = bool_text b
  body_text (int n) = print_int n
  body_text float = []
  body_text (string s) = quote s
  body_text (decimal s) = quote s
  body_text (uuid s) = quote s
  body_text (moment s) = quote s
  body_text (sequence no_items) = codes "[]"
  body_text (sequence (item v xs)) = 91 ∷ body_text v ++ items_text xs ++ 93 ∷ []
  body_text (dict fs) = 123 ∷ join_members (sort_keys (member_texts fs)) ++ 125 ∷ []
  body_text other = []

  pub items_text : PyItems → Text
  items_text no_items = []
  items_text (item v xs) = 44 ∷ body_text v ++ items_text xs

  pub member_texts : PyFields → Dict Text Text
  member_texts no_fields = []
  member_texts (field k v fs) = (k, body_text v) ∷ member_texts fs

unfoldable pub canonical_dumps : PyValue → Result Text
unfolding bans unserializable body_text
canonical_dumps v =
    if bans v || unserializable v then err type_error else ok (body_text v ++ 10 ∷ [])

abbrev pub hash_result : (Text → Text) → Result Text → Result Text
hash_result sha256 (ok t) = ok (sha256 t)
hash_result sha256 (err x) = err x

-- `canonical_hash`, over the SHA-256 in hexadecimal of a text in UTF-8.
unfoldable pub canonical_hash : (Text → Text) → PyValue → Result Text
unfolding canonical_dumps
canonical_hash sha256 v = hash_result sha256 (canonical_dumps v)
