-- ===== src/Hstore/Examples.antt =====
-- The theorems on hstores at a value with a NULL and with bytes that are escaped.
use duckdb_postgres.Common.{
  false, List, [], ◌∷◌, ◌++◌, none, some, Bytes, codes, ok, err, invalid_input, ◌≡◌, refl, ◌⊎◌,
  equal, equal_iff, ◌≢◌,
}
use duckdb_postgres.Hstore.{HstorePair, parse_hstore, hstore_get, json_escape_string}
use duckdb_postgres.Hstore.Total.{parse_hstore-Fine}
use duckdb_postgres.Hstore.Grammar.{hstore_out, parse_hstore-hstore_out, hstore_get-last}
use duckdb_postgres.Hstore.Json.{json_text, json_text-json_escape_string}

abbrev quoted_pair : HstorePair
quoted_pair = record { key = codes "a\""; value = some (codes "1=>\\") }

abbrev null_pair : HstorePair
null_pair = record { key = codes "b"; value = none }

parse_hstore-hstore_out_example :
    parse_hstore (hstore_out (quoted_pair ∷ null_pair ∷ [])) ≡ ok (quoted_pair ∷ null_pair ∷ [])
parse_hstore-hstore_out_example = parse_hstore-hstore_out (quoted_pair ∷ null_pair ∷ [])

parse_hstore-Fine_example :
    ((pairs : List HstorePair) × (parse_hstore (codes "a=>") ≡ ok pairs))
    ⊎ (parse_hstore (codes "a=>") ≡ err invalid_input)
parse_hstore-Fine_example = parse_hstore-Fine (codes "a=>")

unlike : (a b : Bytes) → equal a b ≡ false → a ≢ b
unlike a b h e = cc (h, (equal_iff a b).1 e)

hstore_get-last_example :
    hstore_get (hstore_out ([] ++ quoted_pair ∷ null_pair ∷ [])) (codes "a\"")
    ≡ ok (some (codes "1=>\\"))
hstore_get-last_example =
    hstore_get-last [] quoted_pair (null_pair ∷ []) (unlike (codes "b") (codes "a\"") refl, tt)

json_text-json_escape_string_example :
    json_text (json_escape_string (codes "a\"\n") ++ codes ",") ≡ some (codes "a\"\n", codes ",")
json_text-json_escape_string_example = json_text-json_escape_string (codes "a\"\n") (codes ",")
