-- ===== src/Db/Schema.antt =====
-- The tables as alembic makes them: what the calls of `op` do to a schema, and what fits in a column.
pub mod Migration
pub mod Laws
pub mod Stored
use global_payments_observab.Base.{
  ℕ, String, str_eq, Bool, true, false, not, ◌&&◌, ◌||◌, Option, none, some, List, [], ◌∷◌, leb,
  max, if◌then◌else◌,
}
use global_payments_observab.Base.Exec.{Outcome, ok, err}
use global_payments_observab.Api.Validation.{char_count}

-- The types of the columns; an `Enum(…, native_enum=False)` is a VARCHAR as long as its longest value.
pub data ColumnType : Type 0 where
  varchar : ℕ → ColumnType
  enum : List String → ColumnType
  numeric : (precision scale : ℕ) → ColumnType
  integer uuid jsonb timestamp : ColumnType

pub data Default : Type 0 where
  no_default : Default
  literal : String → Default
  now : Default

pub record Column : Type 0 where
  pub name : String
  pub column_type : ColumnType
  pub nullable : Bool
  pub server_default : Default

abbrev pub column : String → ColumnType → Bool → Default → Column
column name column_type nullable server_default = record {
  name = name;
  column_type = column_type;
  nullable = nullable;
  server_default = server_default;
}

-- The constraints beside the primary key: a unique one, and a reference to columns of a table.
pub data Constraint : Type 0 where
  unique : (name : String) (columns : List String) → Constraint
  foreign_key : (columns : List String) (table : String) (references : List String) → Constraint

pub record Table : Type 0 where
  pub name : String
  pub columns : List Column
  pub primary_key : String
  pub constraints : List Constraint

pub record Index : Type 0 where
  pub name : String
  pub table : String
  pub columns : List String

pub data Operation : Type 0 where
  create_table : Table → Operation
  create_index : (name table : String) (columns : List String) → Operation
  drop_index : (name table : String) → Operation
  drop_table : String → Operation

-- A schema, the latest first.
pub record Schema : Type 0 where
  pub tables : List Table
  pub indexes : List Index

abbrev pub is_table : String → Table → Bool
is_table name t = str_eq name t.name

abbrev pub is_index : String → Index → Bool
is_index name i = str_eq name i.name

module _ {A : Type 0} (p : A → Bool) where
  abbrev pub any : List A → Bool
  any [] = false
  any (x ∷ xs) = p x || any xs

  abbrev pub remove : List A → List A
  remove [] = []
  remove (x ∷ xs) = let rest = remove xs in if p x then xs else x ∷ rest

  abbrev pub every : List A → Bool
  every [] = true
  every (x ∷ xs) = p x && every xs

  abbrev pub remove_all : List A → List A
  remove_all [] = []
  remove_all (x ∷ xs) = let rest = remove_all xs in if p x then rest else x ∷ rest

-- a constraint whose table is there, or is the one that it stands in
abbrev pub is_resolved : String → List Table → Constraint → Bool
is_resolved name ts (unique n columns) = true
is_resolved name ts (foreign_key columns table references) =
    str_eq table name || any (is_table table) ts

abbrev pub is_reference_to : String → Constraint → Bool
is_reference_to name (unique n columns) = false
is_reference_to name (foreign_key columns table references) = str_eq name table

abbrev pub refers_to : String → Table → Bool
refers_to name t = any (is_reference_to name) t.constraints

abbrev pub is_index_of : String → Index → Bool
is_index_of name i = str_eq name i.table

-- One call of `op`, as PostgreSQL answers it. A name that is taken, or that is missing, raises; so do a
-- foreign key to a table that is not there, and a drop of a table to which a foreign key of another
-- refers. With a table its indexes go.
unfoldable pub apply : Operation → Schema → Option Schema
apply (create_table t) s =
    if any (is_table t.name) s.tables || not (every (is_resolved t.name s.tables) t.constraints)
    then none
    else some (record s { tables = t ∷ s.tables })
apply (create_index name table columns) s =
    if any (is_index name) s.indexes || not (any (is_table table) s.tables)
    then none
    else some (record s {
      indexes = record { name = name; table = table; columns = columns } ∷ s.indexes;
    })
apply (drop_index name table) s =
    if any (is_index name) s.indexes
    then some (record s { indexes = remove (is_index name) s.indexes })
    else none
apply (drop_table name) s =
    let others = remove (is_table name) s.tables in
    if any (is_table name) s.tables && not (any (refers_to name) others)
    then some (record s { tables = others; indexes = remove_all (is_index_of name) s.indexes })
    else none

abbrev pub and_then : Option Schema → (Schema → Option Schema) → Option Schema
and_then none f = none
and_then (some s) f = f s

-- the body of a revision
unfoldable pub apply_all : List Operation → Schema → Option Schema
unfolding apply
apply_all [] s = some s
apply_all (o ∷ os) s = and_then (apply o s) (apply_all os)

abbrev pub longest : List String → ℕ
longest [] = 0
longest (x ∷ xs) = max (char_count x) (longest xs)

-- A text in a column of PostgreSQL; no check constraint restricts an enum's.
unfoldable pub fits : ColumnType → String → Bool
unfolding char_count
fits (varchar n) text = leb (char_count text) n
fits (enum values) text = leb (char_count text) (longest values)
fits _ text = false
