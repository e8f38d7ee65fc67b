-- ===== src/Scan/Query.antt =====
-- src/postgres_scanner.cpp: the query of a task.
use duckdb_postgres.Common.{
  ℕ, Bool, true, false, not, ◌&&◌, ◌||◌, List, [], ◌∷◌, ◌++◌, none, some, ltb, if◌then◌else◌, Bytes,
  codes, Result, ok, err, ◌>>=◌, not_implemented, internal, get_elem?, decimal_text, ◌≡◌, refl, ap,
  ◌∙◌, append_assoc,
}
use duckdb_postgres.Types.Data.{
  LogicalType, type_of, list_of, PostgresType, Children, postgres_type, no_children, child,
  PostgresTypeAnnotation, standard, cast_to_varchar,
}

-- One column of the bind data: its name, its type in the server, and in DuckDB.
pub record Column : Type 0 where
  pub name : Bytes
  pub pg_type : PostgresType
  pub type : LogicalType

-- The fields of `PostgresBindData` that the query is made of.
pub record QueryData : Type 0 where
  pub schema_name : Bytes
  pub table_name : Bytes
  pub sql : Bytes
  pub columns : List Column
  pub pages_approx : ℕ
  pub emit_ctid : Bool
  pub use_text_protocol : Bool
  pub order_by_clause : Bytes
  pub limit_clause : Bytes

-- A `column_t`: `COLUMN_IDENTIFIER_ROW_ID`, or the number of a column.
pub data ColumnId : Type 0 where
  row_id : ColumnId
  column : ℕ → ColumnId

abbrev pub is_empty : Bytes → Bool
is_empty [] = true
is_empty (c ∷ r) = false

abbrev pub is_cast : PostgresTypeAnnotation → Bool
is_cast cast_to_varchar = true
is_cast _ = false

abbrev pub is_standard : PostgresTypeAnnotation → Bool
is_standard standard = true
is_standard _ = false

unfoldable mutual
  pub contains_cast_to_varchar : PostgresType → Bool
  contains_cast_to_varchar (postgres_type oid info children) =
      is_cast info || any_contains_cast_to_varchar children

  pub any_contains_cast_to_varchar : Children → Bool
  any_contains_cast_to_varchar no_children = false
  any_contains_cast_to_varchar (child c cs) =
      contains_cast_to_varchar c || any_contains_cast_to_varchar cs

-- The cast of a list's column; `children[0]` of an empty vector throws.
unfoldable pub list_cast : PostgresTypeAnnotation → Children → Result Bytes
list_cast info no_children = if is_standard info then err internal else ok []
list_cast info (child (postgres_type _ child_info _) _) =
    if is_standard info && is_cast child_info then ok (codes "::VARCHAR[]") else ok []

-- The cast of a column, by its two types.
unfoldable pub column_cast : PostgresType → LogicalType → Result Bytes
column_cast (postgres_type oid info children) (type_of a (list_of t)) =
    if is_cast info then ok (codes "::VARCHAR") else list_cast info children
column_cast (postgres_type oid info children) t =
    if is_cast info
    then ok (codes "::VARCHAR")
    else if contains_cast_to_varchar (postgres_type oid info children)
    then err not_implemented
    else ok []

-- `write_identifier` is `PostgresUtils::WriteIdentifier`, and `filter_string` what `TransformFilters` gave.
module _ (write_identifier : Bytes → Bytes) (filter_string : Bytes) where
  unfoldable pub column_text : QueryData → ColumnId → Result Bytes
  column_text d row_id =
      if is_empty d.table_name || not d.emit_ctid then ok (codes "NULL") else ok (codes "ctid")
  column_text d (column n) = elim (get_elem? d.columns n) [
    | none ↦ err internal
    | some c ↦ column_cast c.pg_type c.type >>= λ cast. ok (write_identifier c.name ++ cast)
  ]

  -- The loop over the columns.
  unfoldable pub select_list : QueryData → Bytes → List ColumnId → Result Bytes
  select_list d col_names [] = ok col_names
  select_list d col_names (c ∷ cs) = column_text d c >>= λ text.
      select_list d ((if is_empty col_names then [] else col_names ++ codes ", ") ++ text) cs

  abbrev pub tid_filter : ℕ → ℕ → Bytes
  tid_filter task_min task_max =
      codes "WHERE ctid BETWEEN '("
      ++ (decimal_text task_min
          ++ (codes ",0)'::tid AND '(" ++ (decimal_text task_max ++ codes ",0)'::tid")))

  unfoldable pub filter_text : QueryData → ℕ → ℕ → Bytes
  filter_text d task_min task_max =
      let filter = if ltb 0 d.pages_approx then tid_filter task_min task_max else [] in
      if is_empty filter_string
      then filter
      else if is_empty filter
      then codes "WHERE " ++ filter_string
      else filter ++ (codes " AND " ++ filter_string)

  unfoldable pub from_text : QueryData → Bytes
  from_text d =
      if is_empty d.table_name
      then codes "(" ++ (d.sql ++ codes ") AS __unnamed_subquery")
      else write_identifier d.schema_name ++ (codes "." ++ write_identifier d.table_name)

  -- The query before the COPY is put around it.
  unfoldable pub select_text : QueryData → ℕ → ℕ → Bytes → Bytes
  select_text d task_min task_max col_names =
      codes "SELECT "
      ++ (col_names
          ++ (codes " FROM "
              ++ (from_text d
                  ++ (codes " "
                      ++ (filter_text d task_min task_max
                          ++ ((if is_empty d.order_by_clause
                                then []
                                else d.order_by_clause ++ codes " NULLS LAST")
                              ++ d.limit_clause))))))

  -- `PostgresInitInternal`: what it sets `lstate.sql` to.
  unfoldable pub init_internal : QueryData → List ColumnId → ℕ → ℕ → Result Bytes
  init_internal d column_ids task_min task_max = select_list d [] column_ids >>= λ col_names. ok (
      if d.use_text_protocol
      then select_text d task_min task_max col_names ++ codes ";"
      else codes "COPY ("
        ++ (select_text d task_min task_max col_names ++ codes ") TO STDOUT (FORMAT \"binary\");"))

  -- The texts with a comma between them.
  abbrev pub join : Bytes → List Bytes → Bytes
  join text [] = text
  join text (t ∷ ts) = text ++ (codes ", " ++ join t ts)

  abbrev pub Texts : QueryData → List ColumnId → List Bytes → Type 0
  Texts d [] [] = Unit
  Texts d [] (t ∷ ts) = ⊥
  Texts d (c ∷ cs) [] = ⊥
  Texts d (c ∷ cs) (t ∷ ts) = (column_text d c ≡ ok t) × (is_empty t ≡ false) × Texts d cs ts

  is_empty-append : (a b : Bytes) → is_empty a ≡ false → is_empty (a ++ b) ≡ false
  is_empty-append [] b h = cc
  is_empty-append (x ∷ a) b h = refl

  select_list-rest :
      (d : QueryData) (text : Bytes) (cs : List ColumnId) (ts : List Bytes)
      → is_empty text ≡ false
      → Texts d cs ts
      → select_list d text cs ≡ ok (join text ts)
  unfolding select_list
  select_list-rest d text [] [] h k = refl
  select_list-rest d text [] (t ∷ ts) h k = absurd k
  select_list-rest d text (c ∷ cs) [] h k = absurd k
  select_list-rest d text (c ∷ cs) (t ∷ ts) h (e, some_text, k) = rw e (
      rw h (
        select_list-rest d ((text ++ codes ", ") ++ t) cs ts
          (is_empty-append (text ++ codes ", ") t (is_empty-append text (codes ", ") h)) k
        ∙ ap (λ x. ok x) (join-append text t ts)))
    where
      join-append :
          (text t : Bytes) (ts : List Bytes)
          → join ((text ++ codes ", ") ++ t) ts ≡ text ++ (codes ", " ++ join t ts)
      join-append text t [] = append_assoc text (codes ", ") t
      join-append text t (u ∷ us) =
          append_assoc (text ++ codes ", ") t (codes ", " ++ join u us)
          ∙ append_assoc text (codes ", ") (t ++ (codes ", " ++ join u us))

  -- If every column has a text and none is empty, the select list is the columns' texts in their order
  -- with a comma between them.
  pub select_list-join :
      (d : QueryData) (c : ColumnId) (cs : List ColumnId) (t : Bytes) (ts : List Bytes)
      → Texts d (c ∷ cs) (t ∷ ts)
      → select_list d [] (c ∷ cs) ≡ ok (join t ts)
  unfolding select_list
  select_list-join d c cs t ts (e, some_text, k) = rw e (select_list-rest d t cs ts some_text k)
