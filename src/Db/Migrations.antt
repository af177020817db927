-- ===== src/Db/Migrations.antt =====
-- The statements that backend/app/db/migrations/versions issues through Alembic, and what Postgres
-- does with a schema when it runs them: a statement that it refuses ends the migration.
pub mod Initial
pub mod Env
mod Declared
mod Laws
mod Tests
use llm_inference_logger.Prelude.{
  ℕ, String, Bool, true, false, not, ◌&&◌, ◌||◌, Option, none, some, List, [], ◌∷◌, ◌++◌, map,
  str_eq, if◌then◌else◌, keep,
}

-- The column types that the models and the migration use. `enum_text` is a VARCHAR(32) with a CHECK
-- on its values: `native_enum=False`.
pub data ColumnType : Type 0 where
  uuid : ColumnType
  text : ColumnType
  string : ℕ → ColumnType
  integer : ColumnType
  boolean : ColumnType
  timestamp : ColumnType
  jsonb : ColumnType
  enum_text : String → List String → ColumnType

pub record Column : Type 0 where
  pub name : String
  pub kind : ColumnType
  pub nullable : Bool
  pub server_default : Option String

pub data OnDelete : Type 0 where
  cascade : OnDelete
  set_null : OnDelete

pub record ForeignKey : Type 0 where
  pub name : String
  pub column : String
  pub target : String
  pub target_column : String
  pub on_delete : OnDelete

pub record Check : Type 0 where
  pub name : String
  pub condition : String

pub record Unique : Type 0 where
  pub name : String
  pub columns : List String

pub data Key : Type 0 where
  asc : String → Key
  desc : String → Key

-- The condition of a partial index: a column is, or is not, a value.
pub data Where : Type 0 where
  equals : String → String → Where
  differs : String → String → Where

pub record Index : Type 0 where
  pub name : String
  pub keys : List Key
  pub unique : Bool
  pub only : Option Where

pub record Table : Type 0 where
  pub name : String
  pub columns : List Column
  pub primary_key : String × String
  pub foreign_keys : List ForeignKey
  pub checks : List Check
  pub uniques : List Unique
  pub indexes : List Index

-- The tables, the last one created first.
abbrev pub Schema : Type 0
Schema = List Table

-- An argument of `op`: what is created, or the name of what is dropped.
pub data Statement : Type 0 where
  create_table : Table → Statement
  create_index : String → Index → Statement
  drop_index : String → Statement
  drop_table : String → Statement

abbrev pub any {ℓ} : {A : Type ℓ} → (A → Bool) → List A → Bool
any p [] = false
any p (x ∷ xs) = p x || any p xs

abbrev pub all {ℓ} : {A : Type ℓ} → (A → Bool) → List A → Bool
all p [] = true
all p (x ∷ xs) = p x && all p xs

-- Tables, indexes and the indexes behind keys share their names.
abbrev owns : String → Table → Bool
owns n t =
    str_eq n t.name
    || str_eq n t.primary_key.0
    || any (λ u. str_eq n u.name) t.uniques
    || any (λ i. str_eq n i.name) t.indexes

abbrev pub taken : String → Schema → Bool
taken n s = any (owns n) s

abbrev pub references : String → Table → Bool
references n t = any (λ k. str_eq n k.target) t.foreign_keys

abbrev has_column : String → Table → Bool
has_column c t = any (λ x. str_eq c x.name) t.columns

abbrev key_column : Key → String
key_column (asc c) = c
key_column (desc c) = c

abbrev resolves : Schema → ForeignKey → Bool
resolves s k = any (λ t. str_eq k.target t.name && has_column k.target_column t) s

-- The names that a new table brings.
abbrev new_names : Table → List String
new_names t = t.name ∷ t.primary_key.0 ∷ map (λ u. u.name) t.uniques

abbrev or_refuse {ℓ} : {A : Type ℓ} → Bool → Option A → Option A
or_refuse true o = o
or_refuse false o = none

abbrev pub on_some {ℓ κ} : {A : Type ℓ} {B : Type κ} → Option A → (A → Option B) → Option B
on_some none f = none
on_some (some a) f = f a

abbrev add_index : String → Index → Schema → Option Schema
add_index n i [] = none
add_index n i (t ∷ ts) =
    let rest = on_some (add_index n i ts) (λ us. some (t ∷ us)) in
    if str_eq n t.name
    then or_refuse (all (λ k. has_column (key_column k) t) i.keys)
        (some (record t { indexes = t.indexes ++ i ∷ [] } ∷ ts))
    else rest

abbrev remove_index : String → Schema → Option Schema
remove_index n [] = none
remove_index n (t ∷ ts) =
    let rest = on_some (remove_index n ts) (λ us. some (t ∷ us)) in
    if any (λ i. str_eq n i.name) t.indexes
    then some (record t { indexes = keep (λ i. not (str_eq n i.name)) t.indexes } ∷ ts)
    else rest

-- A table that another one references stays.
abbrev remove_table : String → Schema → Option Schema
remove_table n [] = none
remove_table n (t ∷ ts) =
    let rest =
      on_some (remove_table n ts) (λ us. or_refuse (not (references n t)) (some (t ∷ us))) in
    if str_eq n t.name then or_refuse (not (any (references n) ts)) (some ts) else rest

unfoldable pub exec : Statement → Schema → Option Schema
exec (create_table t) s =
    or_refuse (all (λ n. not (taken n s)) (new_names t) && all (resolves s) t.foreign_keys)
      (some (t ∷ s))
exec (create_index n i) s = or_refuse (not (taken i.name s)) (add_index n i s)
exec (drop_index n) s = remove_index n s
exec (drop_table n) s = remove_table n s

-- A migration, which Alembic runs in one transaction: `none` leaves the schema as it was.
unfoldable pub run : List Statement → Schema → Option Schema
unfolding exec
run [] s = some s
run (d ∷ ds) s = on_some (exec d s) (run ds)
