-- ===== src/Moderation/Rows.antt =====
-- Rows of the database as libpqxx hands them out. `none` is an exception.
use reactaio.Prelude.{
  Bool, true, false, ℕ, List, [], ◌∷◌, Option, none, some, if◌then◌else◌, Text, length,
}
use reactaio.Decimal.{to_string}
use reactaio.Moderation.World.{number, text, Row, World}
use reactaio.Moderation.Roles.{◌>>=◌}
use reactaio.Moderation.Statements.{exec_prepared, has_column}

-- A row, with the columns that it has.
pub record Fetched : Type 0 where
  pub columns : List Text
  pub row : Row

-- `exec_prepared`, for a statement with rows.
unfoldable pub query : World → Text → List Text → Option (List Text × List Row)
query w name parameters = do
  columns ← exec_prepared name (length parameters)
  some (columns, w.rows name parameters)

unfoldable pub only : List Text → List Row → Option Fetched
only columns [] = none
only columns (row ∷ []) = some (record { columns = columns; row = row })
only columns (_ ∷ _ ∷ _) = none

-- `exec_prepared1`: any number of rows but one is an exception.
unfoldable pub query_one : World → Text → List Text → Option Fetched
unfolding query only
query_one w name parameters = query w name parameters >>= λ (columns, rows). only columns rows

-- `row[name].is_null()`; a column that the row has not is an exception.
unfoldable pub is_null : Fetched → Text → Option Bool
is_null f name =
    if has_column f.columns name
    then elim (f.row name) [ none ↦ some true | some v ↦ some false ]
    else none

-- `row[name].as<std::uint64_t>()`
unfoldable pub as_number : Fetched → Text → Option ℕ
as_number f name =
    if has_column f.columns name
    then elim (f.row name) [ none ↦ none | some (number n) ↦ some n | some (text t) ↦ none ]
    else none

-- `row[name].as<std::string>()`
unfoldable pub as_text : Fetched → Text → Option Text
as_text f name =
    if has_column f.columns name
    then elim (f.row name) [
      | none ↦ none
      | some (number n) ↦ some (to_string n)
      | some (text t) ↦ some t
    ]
    else none
