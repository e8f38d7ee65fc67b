-- ===== src/TextFormat/Columns.antt =====
-- The columns that `ConvertList` and `ConvertBlob` make of written rows, and what every parsed list
-- keeps.
use duckdb_postgres.Common.{
  ℕ, ◌+◌, ◌-◌, ◌/◌, ◌%◌, ◌≤◌, ◌<◌, Bool, false, List, [], ◌∷◌, ◌++◌, Bytes, ok, ◌≡◌, refl, arith,
  Ok, Option, none, some, length, take, drop, All, append-nil, append_assoc, length-append,
  drop-append, take-append, ◌∙◌, sym, ap,
}
use duckdb_postgres.TextReader.Parsers.{ListParser, list_ops, list_add_string, parse_list, cell_of}
use duckdb_postgres.TextReader.Convert.{
  ListEntry, convert_list_rows, hex_byte, blob_bytes, convert_blob,
}
use duckdb_postgres.CopyTo.Quoting.{cast_list, hex_digit, hex_bytes, cast_blob}
use duckdb_postgres.TextFormat.Scanning.{IsNotNull}
use duckdb_postgres.TextFormat.ListRoundTrip.{push, push_all, parse_list-cast_list}
use duckdb_postgres.TextFormat.Preserved.{parse_nested-keeps}

-- The next write of `AddString` is within the vector's capacity, and `size` counts its entries.
pub record IsListParser (p : ListParser) : Type 0 where
  pub positive : 0 < p.capacity
  pub bounded : p.size ≤ p.capacity
  pub counted : p.size ≡ length p.vector

list_add_string-IsListParser :
    (p : ListParser) (str : Bytes) (w : Bool)
    → IsListParser p
    → Ok (λ (r : ListParser × Bool). IsListParser r.0) (list_add_string p str w)
unfolding list_add_string
list_add_string-IsListParser p str w h = ground (arith, length-append p.vector (cell_of str w ∷ []))

-- Whatever text `ParsePostgresList` is given, a parser within its capacity stays so, with `size` the
-- number of its entries; or an exception is thrown.
parse_list-IsListParser :
    (p : ListParser) (str : Bytes) → IsListParser p → Ok IsListParser (parse_list p str)
unfolding parse_list
parse_list-IsListParser p str =
    parse_nested-keeps list_ops IsListParser list_add_string-IsListParser IsListParser p b'{' b'}'
      str (λ q h. h)

-- The rows of a list column as texts, and the elements of all of them.
abbrev pub texts_of : List (Option (List (Option Bytes))) → List (Option Bytes)
texts_of [] = []
texts_of (none ∷ rows) = none ∷ texts_of rows
texts_of (some xs ∷ rows) = some (cast_list false xs) ∷ texts_of rows

abbrev pub AreNotNull : List (Option (List (Option Bytes))) → Type 0
AreNotNull [] = Unit
AreNotNull (none ∷ rows) = AreNotNull rows
AreNotNull (some xs ∷ rows) = All IsNotNull xs × AreNotNull rows

-- Each row's entry selects that row's elements.
abbrev pub Selects :
    List (Option Bytes) → List (Option ListEntry) → List (Option (List (Option Bytes))) → Type 0
Selects v [] [] = Unit
Selects v (none ∷ es) (none ∷ rows) = Selects v es rows
Selects v (some e ∷ es) (some xs ∷ rows) = (take e.size (drop e.offset v) ≡ xs) × Selects v es rows
Selects v _ _ = ⊥

push_all-fields :
    (p : ListParser) (xs : List (Option Bytes))
    → ((push_all p xs).vector ≡ p.vector ++ xs) × ((push_all p xs).size ≡ p.size + length xs)
push_all-fields p [] = (sym (append-nil p.vector), omega arith)
push_all-fields p (x ∷ xs) =
    let ih = push_all-fields (push p x) xs in
    (ih.0 ∙ append_assoc p.vector (x ∷ []) xs, omega (arith, ih.1))

slice :
    (v xs later : List (Option Bytes)) (off size : ℕ)
    → off ≡ length v
    → size ≡ length xs
    → take size (drop off (v ++ (xs ++ later))) ≡ xs
slice v xs later off size e f = rw (e, f) (rw (drop-append v (xs ++ later)) (take-append xs later))

-- The written rows of a list column are read back row by row: each NULL row is NULL, and each other
-- entry selects from the common vector exactly the elements of its row.
pub convert_list_rows-Selects :
    (rows : List (Option (List (Option Bytes)))) (p : ListParser)
    → AreNotNull rows
    → p.size ≡ length p.vector
    → (es : List (Option ListEntry)) × (q : ListParser) × (convert_list_rows p (texts_of rows)
        ≡ ok (es, q))
      × Selects q.vector es rows
      × ((later : List (Option Bytes)) × (q.vector ≡ p.vector ++ later))
unfolding convert_list_rows
convert_list_rows-Selects [] p h counted = ([], p, refl, tt, ([], sym (append-nil p.vector)))
convert_list_rows-Selects (none ∷ rows) p h counted =
    let (es, q, e, sel, later) = convert_list_rows-Selects rows p h counted in
    (none ∷ es, q, rw (e, convert_list_rows), sel, later)
convert_list_rows-Selects (some xs ∷ rows) p h counted =
    let q = push_all p xs in
    let (vector_is, size_is) = push_all-fields p xs in
    let (es, r, e, sel, (later, r_is)) =
      convert_list_rows-Selects rows q h.1
        (omega (arith, ap length vector_is, length-append p.vector xs)) in
    let whole : r.vector ≡ p.vector ++ (xs ++ later) =
      r_is ∙ ap (λ v. v ++ later) vector_is ∙ append_assoc p.vector xs later in
    (
      some (record { offset = p.size; size = q.size - p.size }) ∷ es,
      r,
      rw (parse_list-cast_list p xs h.0) (rw e),
      (rw whole (slice p.vector xs later p.size (q.size - p.size) counted (omega arith)), sel),
      (xs ++ later, whole),
    )

module _ (hex_map : ℕ → Option ℕ) (digits : (d : ℕ) → d < 16 → hex_map (hex_digit d) ≡ some d) where
  blob_bytes-hex_bytes :
      (blob : Bytes) → All (λ c. c < 256) blob → blob_bytes hex_map (hex_bytes blob) ≡ blob
  unfolding blob_bytes hex_bytes hex_byte
  blob_bytes-hex_bytes [] h = refl
  blob_bytes-hex_bytes (c ∷ r) h = rw (digits (c / 16) (omega (arith, h.0))) (
      rw (digits (c % 16) (omega arith))
        (rw (blob_bytes-hex_bytes r h.1) (ap (λ b. b ∷ r) (omega (arith, h.0)))))

  length-hex_bytes : (blob : Bytes) → length (hex_bytes blob) % 2 ≡ 0
  unfolding hex_bytes
  length-hex_bytes [] = refl
  length-hex_bytes (c ∷ r) = omega (arith, length-hex_bytes r)

  -- `ConvertBlob` reads back what `CastBlobToPostgres` wrote for any bytes.
  pub convert_blob-cast_blob :
      (blob : Bytes) → All (λ c. c < 256) blob → convert_blob hex_map (cast_blob blob) ≡ ok blob
  unfolding convert_blob cast_blob
  convert_blob-cast_blob blob h = rw (length-hex_bytes blob) (ap ok (blob_bytes-hex_bytes blob h))
