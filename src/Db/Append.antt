-- ===== src/Db/Append.antt =====
-- The steps of the migration on tables behind other tables.
use self_spawn_agents.Prelude.{
  ◌≡◌, refl, ◌∙◌, Bool, true, false, ◌&&◌, not, Option, none, some, List, [], ◌∷◌, ◌++◌, Text,
  text_eq, is_some, arith, ok, All, all, ◌>>=◌, err, Result, resume, Action, operational_error,
  if◌then◌else◌,
}
use mathlib.Core.List.{append_assoc}
use self_spawn_agents.Prelude.Dict.{Dict, lookup, contains, insert}
use self_spawn_agents.Db.{
  Column, Table, TableDef, Feature, empty_table, create_table, key_exists, target_exists,
  remove_table, Database,
}
use self_spawn_agents.Db.Migration.{
  create_all, attach, drop_all, Statement, create_extension, create_function, alter, can_alter,
  execute, execute_all,
}

-- No table of the migration is there yet.
abbrev pub Fresh : Dict Text Table → List TableDef → Type 0
Fresh ts defs = All (λ t. lookup t.0 ts ≡ none) defs

module _ {ℓ} {V : Type ℓ} where
  pub lookup-append_none :
      (k : Text) (xs ys : Dict Text V) → lookup k xs ≡ none → lookup k (xs ++ ys) ≡ lookup k ys
  lookup-append_none k [] ys h = refl
  lookup-append_none k ((j, v) ∷ xs) ys h = ground (arith, lookup-append_none k xs ys)

  insert-append_none :
      (k : Text) (v : V) (xs : Dict Text V) → lookup k xs ≡ none → insert k v xs ≡ xs ++ (k, v) ∷ []
  insert-append_none k v [] h = refl
  insert-append_none k v ((j, w) ∷ xs) h = ground (arith, insert-append_none k v xs)

  contains-append :
      (k : Text) (xs ys : Dict Text V) → contains k ys ≡ true → contains k (xs ++ ys) ≡ true
  contains-append k [] ys h = h
  contains-append k ((j, v) ∷ xs) ys h = ground (arith, contains-append k xs ys h)

target-append :
    (c : Column) (xs ys : Dict Text Table)
    → target_exists ys c ≡ true
    → target_exists (xs ++ ys) c ≡ true
target-append c xs ys = of_key c.foreign_key
  where
    of_key : (o : Option (Text × Text)) → key_exists ys o ≡ true → key_exists (xs ++ ys) o ≡ true
    of_key none h = refl
    of_key (some (t, k)) h = contains-append t xs ys h

targets-append :
    (cs : List Column) (xs ys : Dict Text Table)
    → all (target_exists ys) cs ≡ true
    → all (target_exists (xs ++ ys)) cs ≡ true
targets-append [] xs ys h = refl
targets-append (c ∷ cs) xs ys h = ground (arith, target-append c xs ys, targets-append cs xs ys)

-- Each name is new among those before it, and each foreign key has its table among them.
abbrev pub buildable : List TableDef → Dict Text Table → Bool
buildable [] done = true
buildable (t ∷ ts) done =
    not (contains t.0 done)
    && all (target_exists done) t.1
    && buildable ts (done ++ (t.0, empty_table t.1) ∷ [])

abbrev pub create_listed : List TableDef → Dict Text Table → Dict Text Table
create_listed [] done = done
create_listed (t ∷ ts) done = create_listed ts (done ++ (t.0, empty_table t.1) ∷ [])

not_contained {ℓ} : {V : Type ℓ} (o : Option V) → is_some o ≡ false → o ≡ none
not_contained none h = refl
not_contained (some v) h = cc

three : (a b c : Bool) → (not a && b && c) ≡ true → (a ≡ false) × (b ≡ true) × (c ≡ true)
three a b c h = ground arith

create_table_returns :
    (t : TableDef) (xs done : Dict Text Table) (pg a v r : Bool)
    → lookup t.0 xs ≡ none
    → contains t.0 done ≡ false
    → all (target_exists done) t.1 ≡ true
    → create_table t (record {
      postgres = pg;
      tables = xs ++ done;
      vector_available = a;
      vector_extension = v;
      reject_function = r;
    })
      ≡ (
        ok tt,
        record {
          postgres = pg;
          tables = xs ++ (done ++ (t.0, empty_table t.1) ∷ []);
          vector_available = a;
          vector_extension = v;
          reject_function = r;
        },
      )
create_table_returns (name, cols) xs done pg a v r fresh new targets =
    let absent : lookup name (xs ++ done) ≡ none =
      lookup-append_none name xs done fresh ∙ not_contained (lookup name done) new in
    rw (absent, targets-append cols xs done targets)
      (rw (insert-append_none name (empty_table cols) (xs ++ done) absent, append_assoc) refl)

pub create_all_returns :
    (ts : List TableDef) (xs done : Dict Text Table) (pg a v r : Bool)
    → Fresh xs ts
    → buildable ts done ≡ true
    → create_all ts (record {
      postgres = pg;
      tables = xs ++ done;
      vector_available = a;
      vector_extension = v;
      reject_function = r;
    })
      ≡ (
        ok tt,
        record {
          postgres = pg;
          tables = xs ++ create_listed ts done;
          vector_available = a;
          vector_extension = v;
          reject_function = r;
        },
      )
unfolding create_all ◌>>=◌
create_all_returns [] xs done pg a v r h b = refl
create_all_returns (t ∷ ts) xs done pg a v r h b =
    let more = done ++ (t.0, empty_table t.1) ∷ [] in
    let p = three (contains t.0 done) (all (target_exists done) t.1) (buildable ts more) b in
    rw (create_table_returns t xs done pg a v r h.0 p.0 p.1)
      (create_all_returns ts xs more pg a v r h.1 p.2)

pub attach-append :
    (n : Text) (f : Feature) (xs ys : Dict Text Table)
    → lookup n xs ≡ none
    → attach n f (xs ++ ys) ≡ xs ++ attach n f ys
attach-append n f [] ys h = refl
attach-append n f ((j, t) ∷ xs) ys h = ground (arith, attach-append n f xs ys)

remove_table-append :
    (n : Text) (xs ys : Dict Text Table)
    → lookup n xs ≡ none
    → remove_table n (xs ++ ys) ≡ xs ++ remove_table n ys
remove_table-append n [] ys h = refl
remove_table-append n ((j, t) ∷ xs) ys h = ground (arith, remove_table-append n xs ys)

pub drop_all-append :
    (ns : List Text) (xs ys : Dict Text Table)
    → All (λ n. lookup n xs ≡ none) ns
    → drop_all ns (xs ++ ys) ≡ xs ++ drop_all ns ys
drop_all-append [] xs ys h = refl
drop_all-append (n ∷ ns) xs ys h =
    rw (remove_table-append n xs ys h.0) (drop_all-append ns xs (remove_table n ys) h.1)

-- The database with other tables before its own.
abbrev pub behind : Dict Text Table → Database → Database
behind xs db = record db { tables = xs ++ db.tables }

-- The statement alters none of the tables.
abbrev pub Spares : Dict Text Table → Statement → Type 0
Spares xs (alter n f) = lookup n xs ≡ none
Spares xs _ = Unit

-- A statement answers, and changes the tables behind others, as it does without the others.
execute-behind :
    (st : Statement) (xs : Dict Text Table) (db : Database)
    → Spares xs st
    → execute st (behind xs db) ≡ ((execute st db).0, behind xs (execute st db).1)
execute-behind create_extension xs db h = ground arith
execute-behind create_function xs db h = refl
execute-behind (alter n f) xs db h =
    rw (lookup-append_none n xs db.tables h, attach-append n f xs db.tables h)
      (altered_behind (can_alter db f (lookup n db.tables)))
  where
    altered_behind :
        (b : Bool)
        → let q : Result (Unit {0}) × Database =
            if b
            then (ok tt, record db { tables = attach n f db.tables })
            else (err operational_error, db) in
          ◌≡◌ {A = Result (Unit {0}) × Database}
            (if b
              then (ok tt, record db { tables = xs ++ attach n f db.tables })
              else (err operational_error, behind xs db))
            (q.0, behind xs q.1)
    altered_behind true = refl
    altered_behind false = refl

resumed_behind :
    (m : Action Database (Unit {0})) (xs : Dict Text Table) (r : Result (Unit {0})) (d : Database)
    → ((e : Database) → m (behind xs e) ≡ ((m e).0, behind xs (m e).1))
    → resume r (λ _. m) (behind xs d) ≡ ((resume r (λ _. m) d).0, behind xs (resume r (λ _. m) d).1)
resumed_behind m xs (ok _) d h = h d
resumed_behind m xs (err x) d h = refl

pub execute_all-behind :
    (sts : List Statement) (xs : Dict Text Table) (db : Database)
    → All (Spares xs) sts
    → execute_all sts (behind xs db) ≡ ((execute_all sts db).0, behind xs (execute_all sts db).1)
unfolding execute_all ◌>>=◌
execute_all-behind [] xs db h = refl
execute_all-behind (st ∷ sts) xs db h = rw (execute-behind st xs db h.0) (
    resumed_behind (execute_all sts) xs (execute st db).0 (execute st db).1
      (λ e. execute_all-behind sts xs e h.1))
