-- ===== src/TextFormat/StructRoundTrip.antt =====
-- `ParsePostgresStruct` after `CastStructToPostgres`.
use duckdb_postgres.Common.{
  ◌+◌, ◌≤◌, ◌<◌, ◌≢◌, Bool, true, false, ◌||◌, List, [], ◌∷◌, ◌++◌, if◌then◌else◌, Bytes, codes,
  Result, ok, err, invalid_input, ◌&&◌, ◌==◌, ℕ, ◌≡◌, refl, ◌>>=◌, Option, none, some, arith, ◌∙◌,
  All, equal_iff, length,
}
use duckdb_postgres.TextReader.Nested.{scan, flush}
use duckdb_postgres.TextReader.Parsers.{
  StructParser, struct_ops, struct_add_string, struct_finish, parse_struct,
}
use duckdb_postgres.CopyTo.Quoting.{
  needs_quotes, struct_field, struct_tail, struct_fields, cast_struct,
}
use duckdb_postgres.TextFormat.Scanning.{
  plain, scan-comma, scan_text, needs_quotes-empty, parse_nested-brackets, IsNotNull,
}

-- What the scanner holds after one field.
abbrev text_of : Option Bytes → Bytes
text_of none = []
text_of (some str) = str

abbrev quotes_of : Option Bytes → Bool → Bool
quotes_of none w = w
quotes_of (some str) w = needs_quotes str || w

-- The texts that the parser is given: a NULL field is passed over, or taken for the empty text where
-- some field before it was quoted, since the parser leaves `was_quoted` set.
abbrev pub seen : Bool → List (Option Bytes) → List Bytes
seen w [] = []
seen w (none ∷ xs) = if w then [] ∷ seen w xs else seen w xs
seen w (some str ∷ xs) = str ∷ seen (needs_quotes str || w) xs

-- A text stored in the next column.
abbrev pub put : StructParser → Bytes → StructParser
put p str = record p {
  cells = λ c r.
      if p.column_offset == c && p.row_offset == r
      then record { valid = (p.cells c r).valid; text = some str }
      else p.cells c r;
  column_offset = p.column_offset + 1;
}

abbrev pub put_all : StructParser → List Bytes → StructParser
put_all p [] = p
put_all p (x ∷ xs) = put_all (put p x) xs

scan_field :
    (p : StructParser) (w : Bool) (x : Option Bytes) (rest : Bytes)
    → scan struct_ops b')' (plain p w []) (struct_field x ++ rest)
      ≡ scan struct_ops b')' (plain p (quotes_of x w) (text_of x)) rest
scan_field p w none rest = refl
scan_field p w (some str) rest = scan_text struct_ops b')' p w str rest

flush_text :
    (p : StructParser) (w : Bool) (str : Bytes)
    → str ≢ codes "NULL"
    → p.column_offset < p.column_count
    → flush struct_ops (plain p (needs_quotes str || w) str)
      ≡ ok (plain (put p str) (needs_quotes str || w) str)
unfolding flush struct_add_string
flush_text p w str h room =
    rw (needs_quotes-empty str w) (ground (arith, equal_iff str (codes "NULL")))

flush_omitted : (p : StructParser) → flush struct_ops (plain p false []) ≡ ok (plain p false [])
unfolding flush
flush_omitted p = refl

flush_empty :
    (p : StructParser)
    → p.column_offset < p.column_count
    → flush struct_ops (plain p true []) ≡ ok (plain (put p []) true [])
unfolding flush struct_add_string
flush_empty p room = ground arith

abbrev Rest : StructParser → Bool → Bytes → List (Option Bytes) → Result StructParser
Rest p w cur xs = scan struct_ops b')' (plain p w cur) (struct_tail xs) >>= λ s.
    flush struct_ops s >>= λ t. struct_finish t.parser

rest_step :
    (p q : StructParser) (w : Bool) (cur : Bytes) (y : Option Bytes) (ys : List (Option Bytes))
    → flush struct_ops (plain p w cur) ≡ ok (plain q w cur)
    → Rest p w cur (y ∷ ys) ≡ Rest q (quotes_of y w) (text_of y) ys
unfolding struct_tail
rest_step p q w cur y ys e =
    rw (scan-comma struct_ops b')' p w cur (struct_field y ++ struct_tail ys))
      (rw e (rw (scan_field q w y (struct_tail ys)) refl))

rest_end :
    (p q : StructParser) (w : Bool) (cur : Bytes)
    → flush struct_ops (plain p w cur) ≡ ok (plain q w cur)
    → Rest p w cur [] ≡ struct_finish q
unfolding struct_tail scan
rest_end p q w cur e = rw e refl

-- With `x` read, and `xs` to come.
finish_fields :
    (p : StructParser) (w : Bool) (x : Option Bytes) (xs : List (Option Bytes))
    → All IsNotNull (x ∷ xs)
    → p.column_offset + length (seen w (x ∷ xs)) ≤ p.column_count
    → Rest p (quotes_of x w) (text_of x) xs ≡ struct_finish (put_all p (seen w (x ∷ xs)))
finish_fields p w (some str) [] h room =
    rest_end p (put p str) (needs_quotes str || w) str (flush_text p w str h.0 (omega arith))
finish_fields p w (some str) (y ∷ ys) h room =
    rest_step p (put p str) (needs_quotes str || w) str y ys (flush_text p w str h.0 (omega arith))
    ∙ finish_fields (put p str) (needs_quotes str || w) y ys h.1 (omega arith)
finish_fields p true none [] h room = rest_end p (put p []) true [] (flush_empty p (omega arith))
finish_fields p true none (y ∷ ys) h room =
    rest_step p (put p []) true [] y ys (flush_empty p (omega arith))
    ∙ finish_fields (put p []) true y ys h.1 (omega arith)
finish_fields p false none [] h room = rest_end p p false [] (flush_omitted p)
finish_fields p false none (y ∷ ys) h room =
    rest_step p p false [] y ys (flush_omitted p) ∙ finish_fields p false y ys h.1 room

parse_struct-finished :
    (p : StructParser) (xs : List (Option Bytes))
    → All IsNotNull xs
    → length (seen false xs) ≤ p.column_count
    → parse_struct p (cast_struct xs)
      ≡ struct_finish (put_all (record p { column_offset = 0 }) (seen false xs))
unfolding parse_struct cast_struct struct_fields
parse_struct-finished p [] h room =
    parse_nested-brackets struct_ops p b'(' b')' [] ∙ (unfold scan flush in refl)
parse_struct-finished p (x ∷ xs) h room =
    parse_nested-brackets struct_ops p b'(' b')' (struct_field x ++ struct_tail xs)
    ∙ rw (scan_field (record p { column_offset = 0 }) false x (struct_tail xs))
        (finish_fields (record p { column_offset = 0 }) false x xs h (omega arith))

zero_add : (n : ℕ) → 0 + n ≡ n
zero_add n = omega arith

pub put_all-offsets :
    (p : StructParser) (xs : List Bytes)
    → ((put_all p xs).column_offset ≡ p.column_offset + length xs)
      × ((put_all p xs).row_offset ≡ p.row_offset)
      × ((put_all p xs).column_count ≡ p.column_count)
put_all-offsets p [] = (omega arith, refl, refl)
put_all-offsets p (x ∷ xs) =
    let (a, b, c) = put_all-offsets (put p x) xs in (omega (arith, a), b, c)

-- For any written row with no text NULL, what ParsePostgresStruct sees is its texts, and the
-- empty text for each NULL field behind a text that the writer quoted; other NULL fields are
-- passed over. Where it sees as many as there are columns, it stores them, column by column, in
-- the current row, each cell as valid as it was, and moves on to the next row; where it sees
-- fewer, it refuses the row.
pub parse_struct-cast_struct :
    (p : StructParser) (xs : List (Option Bytes))
    → All IsNotNull xs
    → length (seen false xs) ≤ p.column_count
    → parse_struct p (cast_struct xs) ≡ (
        if length (seen false xs) == p.column_count
        then ok (record (put_all (record p { column_offset = 0 }) (seen false xs)) {
          row_offset = p.row_offset + 1;
        })
        else err invalid_input)
unfolding struct_finish
parse_struct-cast_struct p xs h room =
    let (a, b, c) = put_all-offsets (record p { column_offset = 0 }) (seen false xs) in
    parse_struct-finished p xs h room
    ∙ rw b (rw c (rw (a ∙ zero_add (length (seen false xs))) refl))
