-- ===== src/TextFormat/ListRoundTrip.antt =====
-- `ParsePostgresList` after `CastListToPostgresArray`.
use duckdb_postgres.Common.{
  ◌+◌, ◌*◌, leb, Bool, false, ◌||◌, List, [], ◌∷◌, ◌++◌, if◌then◌else◌, Bytes, codes, ok, ◌≡◌, refl,
  ◌>>=◌, Option, none, some, arith, ◌∙◌, All, equal_iff,
}
use duckdb_postgres.TextReader.Nested.{scan, flush}
use duckdb_postgres.TextReader.Parsers.{ListParser, cell_of, list_ops, list_add_string, parse_list}
use duckdb_postgres.CopyTo.Quoting.{needs_quotes, list_element, list_tail, list_elements, cast_list}
use duckdb_postgres.TextFormat.Scanning.{
  plain, scan-comma, scan_text, scan_null, needs_quotes-empty, parse_nested-brackets, IsNotNull,
}

-- What the scanner holds after one element.
abbrev text_of : Option Bytes → Bytes
text_of none = codes "NULL"
text_of (some str) = str

abbrev quotes_of : Option Bytes → Bool
quotes_of none = false
quotes_of (some str) = needs_quotes str || false

-- The parser after one more element, and after several.
abbrev pub push : ListParser → Option Bytes → ListParser
push p x = record {
  capacity = if leb p.capacity p.size then p.capacity * 2 else p.capacity;
  size = p.size + 1;
  vector = p.vector ++ x ∷ [];
}

abbrev pub push_all : ListParser → List (Option Bytes) → ListParser
push_all p [] = p
push_all p (x ∷ xs) = push_all (push p x) xs

scan_element :
    (p : ListParser) (x : Option Bytes) (rest : Bytes)
    → scan list_ops b'}' (plain p false []) (list_element false x ++ rest)
      ≡ scan list_ops b'}' (plain p (quotes_of x) (text_of x)) rest
scan_element p none rest = scan_null list_ops b'}' p false rest
scan_element p (some str) rest = scan_text list_ops b'}' p false str rest

cell_of-element : (x : Option Bytes) → IsNotNull x → cell_of (text_of x) (quotes_of x) ≡ x
cell_of-element none h = refl
cell_of-element (some str) h = ground (arith, equal_iff str (codes "NULL"))

flush_element :
    (p : ListParser) (x : Option Bytes)
    → IsNotNull x
    → flush list_ops (plain p (quotes_of x) (text_of x)) ≡ ok (plain (push p x) false (text_of x))
unfolding flush list_add_string
flush_element p none h = refl
flush_element p (some str) h = rw (needs_quotes-empty str false) (rw (cell_of-element (some str) h))

finish_elements :
    (p : ListParser) (x : Option Bytes) (xs : List (Option Bytes))
    → IsNotNull x
    → All IsNotNull xs
    → (scan list_ops b'}' (plain p (quotes_of x) (text_of x)) (list_tail false xs) >>= λ s.
        flush list_ops s >>= λ t. ok t.parser)
      ≡ ok (push_all (push p x) xs)
unfolding list_tail scan
finish_elements p x [] h hs = rw (flush_element p x h)
finish_elements p x (y ∷ ys) h hs =
    rw
      (scan-comma list_ops b'}' p (quotes_of x) (text_of x)
        (list_element false y ++ list_tail false ys))
      (rw (flush_element p x h) (
        rw (scan_element (push p x) y (list_tail false ys))
          (finish_elements (push p x) y ys hs.0 hs.1)))

-- What `CastListToPostgresArray` writes for a list of texts and NULLs, none of them the text `NULL`,
-- `ParsePostgresList` reads back: the elements are appended to the vector, each NULL as NULL and
-- each text as itself, whatever bytes it holds.
pub parse_list-cast_list :
    (p : ListParser) (xs : List (Option Bytes))
    → All IsNotNull xs
    → parse_list p (cast_list false xs) ≡ ok (push_all p xs)
unfolding parse_list cast_list list_elements
parse_list-cast_list p [] h =
    parse_nested-brackets list_ops p b'{' b'}' [] ∙ (unfold scan flush in refl)
parse_list-cast_list p (x ∷ xs) h =
    parse_nested-brackets list_ops p b'{' b'}' (list_element false x ++ list_tail false xs)
    ∙ rw (scan_element p x (list_tail false xs)) (finish_elements p x xs h.0 h.1)
