-- ===== src/TextFormat/StructRows.antt =====
-- Consequences for struct columns: complete rows, omitted fields, and NULL rows.
use duckdb_postgres.Common.{
  ℕ, suc, zero, ◌+◌, ◌≤◌, ◌<◌, ◌≢◌, Bool, true, false, ◌||◌, List, [], ◌∷◌, ◌++◌, ◌==◌, Bytes, ok,
  err, ◌≡◌, refl, arith, Bool-cases, inl, inr, Ok, Ok-bind, Ok-elim, Option, none, some, length,
  leb, All, ◌∙◌, sym, ap, codes, get_elem?, invalid_input,
}
use duckdb_postgres.TextReader.Parsers.{
  StructParser, new_struct_parser, struct_ops, struct_add_string, struct_finish, parse_struct,
}
use duckdb_postgres.TextReader.Convert.{set_null_row, convert_struct_rows}
use duckdb_postgres.CopyTo.Quoting.{needs_quotes, cast_struct}
use duckdb_postgres.TextFormat.Scanning.{IsNotNull}
use duckdb_postgres.TextFormat.StructRoundTrip.{
  put, put_all, put_all-offsets, seen, parse_struct-cast_struct,
}
use duckdb_postgres.TextFormat.Preserved.{parse_nested-keeps}

abbrev pub present : List Bytes → List (Option Bytes)
present [] = []
present (x ∷ xs) = some x ∷ present xs

seen-present : (w : Bool) (xs : List Bytes) → seen w (present xs) ≡ xs
seen-present w [] = refl
seen-present w (x ∷ xs) = ap (◌∷◌ x) (seen-present (needs_quotes x || w) xs)

put_all-before :
    (p : StructParser) (xs : List Bytes) (c : ℕ)
    → c < p.column_offset
    → (put_all p xs).cells c p.row_offset ≡ p.cells c p.row_offset
put_all-before p [] c h = refl
put_all-before p (x ∷ xs) c h = ground (arith, put_all-before (put p x) xs c)

put_all-cells :
    (p : StructParser) (xs : List Bytes) (i c : ℕ) (x : Bytes)
    → c ≡ p.column_offset + i
    → get_elem? xs i ≡ some x
    → (put_all p xs).cells c p.row_offset
      ≡ record { valid = (p.cells c p.row_offset).valid; text = some x }
put_all-cells p [] i c x e h = cc
put_all-cells p (y ∷ xs) zero c x e h = ground (arith, put_all-before (put p y) xs c)
put_all-cells p (y ∷ xs) (suc i) c x e h =
    put_all-cells (put p y) xs i c x (omega arith) h ∙ ground arith

-- A row of texts, as many as there are columns and none of them the text NULL, is read back by
-- ParsePostgresStruct as CastStructToPostgres wrote it: the cell of each column at the current
-- row holds its text and is as valid as it was before, and the parser moves on to the next row.
pub parse_struct-cast_struct-present :
    (p : StructParser) (xs : List Bytes) (c : ℕ) (x : Bytes)
    → All IsNotNull (present xs)
    → length xs ≡ p.column_count
    → get_elem? xs c ≡ some x
    → (q : StructParser) × (parse_struct p (cast_struct (present xs)) ≡ ok q)
      × (q.row_offset ≡ p.row_offset + 1)
      × (q.cells c p.row_offset ≡ record { valid = (p.cells c p.row_offset).valid; text = some x })
parse_struct-cast_struct-present p xs column x h full at =
    let p' = record p { column_offset = 0 } in
    let q = put_all p' xs in
    let (a, b, c) = put_all-offsets p' xs in
    let lengths : length (seen false (present xs)) ≡ length xs =
      ap length (seen-present false xs) in
    (
      record q { row_offset = p.row_offset + 1 },
      parse_struct-cast_struct p (present xs) h (omega arith)
          ∙ rw (seen-present false xs) (ground arith),
      refl,
      put_all-cells p' xs column column x (omega arith) at,
    )

-- Fields that are NULL, or texts that the writer does not quote.
abbrev pub IsBare : Option Bytes → Type 0
IsBare none = Unit
IsBare (some str) = needs_quotes str ≡ false

abbrev pub count_present : List (Option Bytes) → ℕ
count_present [] = 0
count_present (none ∷ xs) = count_present xs
count_present (some x ∷ xs) = suc (count_present xs)

length-seen : (xs : List (Option Bytes)) → All IsBare xs → length (seen false xs) ≡ count_present xs
length-seen [] h = refl
length-seen (none ∷ xs) h = length-seen xs h.1
length-seen (some x ∷ xs) h = rw h.0 (ap suc (length-seen xs h.1))

-- A row with no field that the writer quotes and no text NULL, and with fewer texts than there
-- are columns, is written and then refused: the reader does not count a NULL field, which is
-- omitted.
pub parse_struct-null_refused :
    (p : StructParser) (xs : List (Option Bytes))
    → All IsNotNull xs
    → All IsBare xs
    → count_present xs < p.column_count
    → parse_struct p (cast_struct xs) ≡ err invalid_input
parse_struct-null_refused p xs h bare short =
    let n = length-seen xs bare in parse_struct-cast_struct p xs h (omega arith) ∙ ground (arith, n)

-- Behind a quoted field, a NULL field is read as the empty text: the two rows give the same parser.
pub parse_struct-null_as_empty :
    (p : StructParser) (str : Bytes)
    → needs_quotes str ≡ true
    → str ≢ codes "NULL"
    → p.column_count ≡ 2
    → parse_struct p (cast_struct (some str ∷ none ∷ []))
      ≡ parse_struct p (cast_struct (some str ∷ some [] ∷ []))
parse_struct-null_as_empty p str q h two =
    let nil_ne : [] ≢ codes "NULL" = λ e. cc in
    parse_struct-cast_struct p (some str ∷ none ∷ []) (h, (tt, tt)) (rw q (omega arith))
    ∙ rw q refl
    ∙ sym (parse_struct-cast_struct p (some str ∷ some [] ∷ []) (h, (nil_ne, tt)) (omega arith))

-- One row of text: all that was written stands in the parser's current row.
record AtRow (p : StructParser) (row : ℕ) (q : StructParser) : Type 0 where
  row_is : q.row_offset ≡ row
  others : (c r : ℕ) → r ≢ row → (q.cells c r).text ≡ (p.cells c r).text

struct_add_string-AtRow :
    (p : StructParser) (row : ℕ) (q : StructParser) (str : Bytes) (w : Bool)
    → AtRow p row q
    → Ok (λ (r : StructParser × Bool). AtRow p row r.0) (struct_add_string q str w)
unfolding struct_add_string
struct_add_string-AtRow p row q str w h = elim (Bool-cases (leb q.column_count q.column_offset)) [
  | inl e ↦ rw e tt
  | inr e ↦
      rw e
        (record { row_is = h.row_is; others = λ c r ne. ground (arith, h.row_is, h.others c r ne) })
]

abbrev Moved : StructParser → StructParser → Type 0
Moved p q =
    (q.row_offset ≡ p.row_offset + 1)
    × ((c r : ℕ) → r ≢ p.row_offset → (q.cells c r).text ≡ (p.cells c r).text)

parse_struct-Moved : (p : StructParser) (str : Bytes) → Ok (Moved p) (parse_struct p str)
unfolding parse_struct struct_finish
parse_struct-Moved p str =
    parse_nested-keeps struct_ops (AtRow p p.row_offset) (struct_add_string-AtRow p p.row_offset)
      (Moved p) p b'(' b')' str
      (λ q h. elim (Bool-cases (q.column_offset == q.column_count)) [
        | inl e ↦ rw e (omega (arith, h.row_is), h.others)
        | inr e ↦ rw e tt
      ])
      (record { row_is = refl; others = λ c r ne. refl })

abbrev pub count_valid : List (Option Bytes) → ℕ
count_valid [] = 0
count_valid (none ∷ rows) = count_valid rows
count_valid (some str ∷ rows) = suc (count_valid rows)

abbrev Unwritten : StructParser → List (Option Bytes) → List Bool × StructParser → Type 0
Unwritten p rows r =
    (c k : ℕ) → p.row_offset + count_valid rows ≤ k → (r.1.cells c k).text ≡ (p.cells c k).text

convert_struct_rows-Unwritten :
    (p : StructParser) (i : ℕ) (rows : List (Option Bytes))
    → Ok (Unwritten p rows) (convert_struct_rows p i rows)
unfolding convert_struct_rows set_null_row
convert_struct_rows-Unwritten p i [] = λ c k h. refl
convert_struct_rows-Unwritten p i (none ∷ rows) =
    Ok-bind (Unwritten (set_null_row p i) rows) (Unwritten p (none ∷ rows))
      (convert_struct_rows (set_null_row p i) (suc i) rows) _
      (convert_struct_rows-Unwritten (set_null_row p i) (suc i) rows)
      (λ r h c k le. ground (arith, h c k le))
convert_struct_rows-Unwritten p i (some str ∷ rows) =
    Ok-bind (Moved p) (Unwritten p (some str ∷ rows)) (parse_struct p str) _
      (parse_struct-Moved p str)
      (λ q moved.
        Ok-bind (Unwritten q rows) (Unwritten p (some str ∷ rows))
          (convert_struct_rows q (suc i) rows) _ (convert_struct_rows-Unwritten q (suc i) rows)
          (λ r h c k le. h c k (omega (arith, moved.0)) ∙ moved.1 c k (λ e. omega arith)))

-- The validity of the target's rows.
abbrev pub validity : List (Option Bytes) → List Bool
validity [] = []
validity (none ∷ rows) = false ∷ validity rows
validity (some str ∷ rows) = true ∷ validity rows

convert_struct_rows-validity :
    (p : StructParser) (i : ℕ) (rows : List (Option Bytes))
    → Ok (λ (r : List Bool × StructParser). r.0 ≡ validity rows) (convert_struct_rows p i rows)
unfolding convert_struct_rows
convert_struct_rows-validity p i [] = refl
convert_struct_rows-validity p i (none ∷ rows) =
    Ok-bind _ _ (convert_struct_rows (set_null_row p i) (suc i) rows) _
      (convert_struct_rows-validity (set_null_row p i) (suc i) rows) (λ r e. ap (◌∷◌ false) e)
convert_struct_rows-validity p i (some str ∷ rows) =
    Ok-bind (Moved p) _ (parse_struct p str) _ (parse_struct-Moved p str) (λ q moved.
      Ok-bind _ _ (convert_struct_rows q (suc i) rows) _
        (convert_struct_rows-validity q (suc i) rows) (λ r e. ap (◌∷◌ true) e))

get_elem?-validity :
    (rows : List (Option Bytes)) (str : Bytes)
    → get_elem? (validity (rows ++ some str ∷ [])) (length rows) ≡ some true
get_elem?-validity [] str = refl
get_elem?-validity (none ∷ rows) str = get_elem?-validity rows str
get_elem?-validity (some x ∷ rows) str = get_elem?-validity rows str

count_valid-concat :
    (rows : List (Option Bytes)) (str : Bytes)
    → count_valid (rows ++ some str ∷ []) ≡ suc (count_valid rows)
count_valid-concat [] str = refl
count_valid-concat (none ∷ rows) str = count_valid-concat rows str
count_valid-concat (some x ∷ rows) str = ap suc (count_valid-concat rows str)

-- Where a column of structs has a NULL row before its last row, the last row is not NULL and the
-- conversion of the column returns, the last row of the target is valid and no text was ever
-- written to any of its cells.
pub convert_struct_rows-unwritten_last :
    (n : ℕ) (rows : List (Option Bytes)) (str : Bytes) (vs : List Bool) (q : StructParser)
    → count_valid rows < length rows
    → convert_struct_rows (new_struct_parser n) 0 (rows ++ some str ∷ []) ≡ ok (vs, q)
    → (get_elem? vs (length rows) ≡ some true) × ((c : ℕ) → (q.cells c (length rows)).text ≡ none)
convert_struct_rows-unwritten_last n rows str vs q short e =
    let all = rows ++ some str ∷ [] in
    (
      rw
          (Ok-elim _ (convert_struct_rows (new_struct_parser n) 0 all)
            (convert_struct_rows-validity (new_struct_parser n) 0 all) e)
          (get_elem?-validity rows str),
      λ c.
          Ok-elim (Unwritten (new_struct_parser n) all)
            (convert_struct_rows (new_struct_parser n) 0 all)
            (convert_struct_rows-Unwritten (new_struct_parser n) 0 all) e c (length rows)
            (omega (arith, count_valid-concat rows str)),
    )
