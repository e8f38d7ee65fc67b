-- ===== src/Delete/Tids.antt =====
-- What the statements of a DELETE in src/storage/postgres_delete.cpp say to the server, which knows a row by its page
-- and its number on the page.
use duckdb_postgres.Common.{
  ℕ, ◌+◌, ◌*◌, ◌/◌, ◌%◌, ◌^◌, ◌<◌, Bool, List, [], ◌∷◌, ◌++◌, map, if◌then◌else◌, Bytes, codes,
  length, decimal_text, All, Result, ok, ◌≡◌, ◌≢◌, refl, sym, ap, ◌∙◌, arith, Bool-cases, inl, inr,
}
use duckdb_postgres.Delete.{
  DeleteState, new_delete_state, TableEntry, ctid_text, quote_postgres_identifier, get_delete_sql,
  delete_chunks,
}
use duckdb_postgres.Delete.Ctids.{concat, ctids, more_ctids}
use duckdb_postgres.Delete.Rows.{delete_rows, delete_chunks-rows}

pub record Tid : Type 0 where
  pub page : ℕ
  pub offset : ℕ

-- The row id of a scan.
abbrev pub row_id : Tid → ℕ
row_id t = t.page * 2 ^ 16 + t.offset

-- A number on a page has 16 bits.
abbrev pub IsTid : Tid → Type 0
IsTid t = t.offset < 2 ^ 16

abbrev pub tid_text : Tid → Bytes
tid_text t =
    codes "'(" ++ (decimal_text t.page ++ (codes "," ++ (decimal_text t.offset ++ codes ")'")))

abbrev pub more_tids : List Tid → Bytes
more_tids [] = []
more_tids (t ∷ ts) = codes "," ++ (tid_text t ++ more_tids ts)

abbrev pub tids_text : List Tid → Bytes
tids_text [] = []
tids_text (t ∷ ts) = tid_text t ++ more_tids ts

abbrev pub all_tids : List (List Tid) → List Tid
all_tids [] = []
all_tids (g ∷ gs) = g ++ all_tids gs

-- The statement that deletes some rows of a table.
abbrev pub delete_statement : (Bytes → Bytes) → (Bytes → Bool) → TableEntry → List Tid → Bytes
delete_statement write_identifier requires_quotes table ts =
    codes "DELETE FROM "
    ++ (write_identifier table.schema_name
        ++ (codes "."
            ++ ((if requires_quotes table.name then write_identifier table.name else table.name)
                ++ (codes " WHERE ctid IN (" ++ (tids_text ts ++ codes ")")))))

tid_of : ℕ → Tid
tid_of n = record { page = n / 2 ^ 16; offset = n % 2 ^ 16 }

tid_of-row_id : (t : Tid) → IsTid t → tid_of (row_id t) ≡ t
unfolding tid_of
tid_of-row_id t h =
    let high : row_id t / 2 ^ 16 ≡ t.page = omega arith in
    let low : row_id t % 2 ^ 16 ≡ t.offset = omega arith in rw high (rw low refl)

tids-row_ids : (ts : List Tid) → All IsTid ts → map tid_of (map row_id ts) ≡ ts
tids-row_ids [] h = refl
tids-row_ids (t ∷ ts) h = rw (tid_of-row_id t h.0) (rw (tids-row_ids ts h.1) refl)

map-append : {A B : Type 0} (f : A → B) (xs ys : List A) → map f (xs ++ ys) ≡ map f xs ++ map f ys
map-append f [] ys = refl
map-append f (x ∷ xs) ys = ap (λ r. f x ∷ r) (map-append f xs ys)

length-map : {A B : Type 0} (f : A → B) (xs : List A) → length (map f xs) ≡ length xs
length-map f [] = refl
length-map f (x ∷ xs) = rw (length-map f xs) refl

all_tids-groups :
    (gs : List (List ℕ)) → all_tids (map (λ g. map tid_of g) gs) ≡ map tid_of (concat gs)
all_tids-groups [] = refl
all_tids-groups (g ∷ gs) = rw (all_tids-groups gs) (sym (map-append tid_of g (concat gs)))

concat-row_ids :
    (cs : List (List Tid)) → concat (map (λ c. map row_id c) cs) ≡ map row_id (all_tids cs)
concat-row_ids [] = refl
concat-row_ids (c ∷ cs) = rw (concat-row_ids cs) (sym (map-append row_id c (all_tids cs)))

more_ctids-more_tids : (rows : List ℕ) → more_ctids rows ≡ more_tids (map tid_of rows)
unfolding ctid_text tid_of
more_ctids-more_tids [] = refl
more_ctids-more_tids (r ∷ rs) = rw (more_ctids-more_tids rs) refl

ctids-tids_text : (rows : List ℕ) → ctids rows ≡ tids_text (map tid_of rows)
unfolding ctid_text tid_of
ctids-tids_text [] = refl
ctids-tids_text (r ∷ rs) = rw (more_ctids-more_tids rs) refl

some_tids :
    (gs : List (List ℕ)) → All (λ g. g ≢ []) gs → All (λ g. g ≢ []) (map (λ g. map tid_of g) gs)
some_tids [] h = tt
some_tids ([] ∷ gs) h = absurd (h.0 refl)
some_tids ((r ∷ rs) ∷ gs) h = (λ e. cc, some_tids gs h.1)

module _ (write_identifier : Bytes → Bytes) (requires_quotes : Bytes → Bool)
    (answer : List Bytes → Bytes → Result (Unit {0})) (table : TableEntry) where
  delete_rows-delete_statement :
      (rows : List ℕ)
      → delete_rows write_identifier requires_quotes answer table rows
        ≡ delete_statement write_identifier requires_quotes table (map tid_of rows)
  unfolding get_delete_sql quote_postgres_identifier
  delete_rows-delete_statement rows =
      rw (ctids-tids_text rows)
        (elim (Bool-cases (requires_quotes table.name)) [ inl e ↦ rw e refl | inr e ↦ rw e refl ])

  delete_rows-delete_statements :
      (gs : List (List ℕ))
      → map (delete_rows write_identifier requires_quotes answer table) gs
        ≡ map (delete_statement write_identifier requires_quotes table) (map (λ g. map tid_of g) gs)
  delete_rows-delete_statements [] = refl
  delete_rows-delete_statements (g ∷ gs) =
      rw (delete_rows-delete_statement g) (rw (delete_rows-delete_statements gs) refl)

  -- The statements delete the rows in their order, in groups of one row or more.
  abbrev pub DeletesTids : List Bytes → List Tid → Type 0
  DeletesTids statements tids =
      (groups : List (List Tid)) × (statements
        ≡ map (delete_statement write_identifier requires_quotes table) groups)
      × (all_tids groups ≡ tids)
      × All (λ g. g ≢ []) groups

  -- For any chunks of rows, whose numbers on their pages have 16 bits, and a server that accepts
  -- what it is sent, the operator returns, with its list empty: the statements that it sent name
  -- the table and the page and number of every row of the chunks, in order, in groups of one row
  -- or more, and it counts the rows, modulo 2^64.
  pub delete_chunks-DeletesTids :
      (accepts : (sent : List Bytes) (sql : Bytes) → answer sent sql ≡ ok tt)
      (chunks : List (List Tid))
      → All IsTid (all_tids chunks)
      → (t : DeleteState) × (delete_chunks write_identifier requires_quotes answer table
            new_delete_state
            (map (λ c. map row_id c) chunks)
          ≡ ok t)
        × DeletesTids t.sent (all_tids chunks)
        × (t.ctid_list ≡ [])
        × (t.delete_count ≡ length (all_tids chunks) % 2 ^ 64)
  delete_chunks-DeletesTids accepts chunks h =
      let (t, a, (groups, sql, rows, some_rows), c, d) =
        delete_chunks-rows write_identifier requires_quotes answer table accepts
          (map (λ c. map row_id c) chunks) in
      (
        t,
        a,
        (
          map (λ g. map tid_of g) groups,
          sql ∙ delete_rows-delete_statements groups,
          all_tids-groups groups
              ∙ (ap (λ x. map tid_of x) (rows ∙ concat-row_ids chunks)
                  ∙ tids-row_ids (all_tids chunks) h),
          some_tids groups some_rows,
        ),
        c,
        d
            ∙ ap (λ n. n % 2 ^ 64)
                (ap length (concat-row_ids chunks) ∙ length-map row_id (all_tids chunks)),
      )
