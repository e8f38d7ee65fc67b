-- ===== src/Delete/Rows.antt =====
-- The rows of a DELETE in src/storage/postgres_delete.cpp against the statements that are sent.
use duckdb_postgres.Common.{
  ℕ, ◌+◌, ◌%◌, ◌^◌, Bool, true, false, List, [], ◌∷◌, ◌++◌, map, append-nil, append_assoc, ltb,
  Bytes, length, length-append, ◌<◌, if◌then◌else◌, All, Result, ok, ◌≡◌, ◌≢◌, refl, sym, ap, ◌∙◌,
  arith,
}
use duckdb_postgres.Delete.{
  DeleteState, new_delete_state, ctid_text, separated, TableEntry, get_delete_sql, flush_list,
  flush, add_row, add_rows, sink, delete_chunks,
}
use duckdb_postgres.Delete.Ctids.{
  concat, ctids, concat-append, map-snoc, All-snoc, cons-nil, ctids-nil, ctids-snoc,
}

-- What `delete_count` is behind the chunks.
abbrev pub counted : ℕ → List (List ℕ) → ℕ
counted n [] = n
counted n (chunk ∷ chunks) = counted ((n + length chunk) % 2 ^ 64) chunks

counted-concat :
    (n : ℕ) (chunks : List (List ℕ))
    → n < 2 ^ 64
    → counted n chunks ≡ (n + length (concat chunks)) % 2 ^ 64
counted-concat n [] h = omega arith
counted-concat n (chunk ∷ chunks) h =
    rw (length-append chunk (concat chunks))
      (counted-concat ((n + length chunk) % 2 ^ 64) chunks (omega arith) ∙ omega arith)

module _ (write_identifier : Bytes → Bytes) (requires_quotes : Bytes → Bool)
    (answer : List Bytes → Bytes → Result (Unit {0})) (table : TableEntry) where
  -- The statement that deletes some rows.
  abbrev pub delete_rows : List ℕ → Bytes
  delete_rows rows = get_delete_sql write_identifier requires_quotes answer table (ctids rows)

  -- The statements delete the rows in their order, in groups of one row or more.
  abbrev pub Deletes : List Bytes → List ℕ → Type 0
  Deletes statements rows =
      (groups : List (List ℕ)) × (statements ≡ map delete_rows groups)
      × (concat groups ≡ rows)
      × All (λ g. g ≢ []) groups

  -- Some of the rows are deleted, and the list has the others.
  abbrev Holds : DeleteState → List ℕ → Type 0
  Holds s rows =
      (done : List ℕ) × (pending : List ℕ) × Deletes s.sent done
      × (s.ctid_list ≡ ctids pending)
      × (done ++ pending ≡ rows)

  module _ (accepts : (sent : List Bytes) (sql : Bytes) → answer sent sql ≡ ok tt) where
    Deletes-snoc :
        (statements : List Bytes) (done pending : List ℕ)
        → Deletes statements done
        → pending ≢ []
        → Deletes (statements ++ delete_rows pending ∷ []) (done ++ pending)
    Deletes-snoc statements done pending (groups, e, f, g) h = (
      groups ++ pending ∷ [],
      ap (λ x. x ++ delete_rows pending ∷ []) e ∙ sym (map-snoc delete_rows groups pending),
      concat-append groups pending ∙ ap (λ x. x ++ pending) f,
      All-snoc groups pending g h,
    )

    flush_list-Deletes :
        (s : DeleteState) (done pending : List ℕ) (list : Bytes)
        → list ≡ ctids pending
        → Deletes s.sent done
        → s.ctid_list ≡ list
        → (t : DeleteState) × (flush_list write_identifier requires_quotes answer table s list
            ≡ ok t)
          × Deletes t.sent (done ++ pending)
          × (t.ctid_list ≡ [])
          × (t.delete_count ≡ s.delete_count)
    unfolding flush_list
    flush_list-Deletes s done pending [] e d l =
        rw (ctids-nil pending (sym e)) (s, refl, rw (append-nil done) d, l, refl)
    flush_list-Deletes s done pending (c ∷ r) e d l =
        let some_rows = λ (p : pending ≡ []). cons-nil c r (e ∙ ap ctids p) in
        let list_sent = Deletes-snoc s.sent done pending d some_rows in
        rw e (
          rw (accepts s.sent (delete_rows pending)) (
            record {
              ctid_list = [];
              delete_count = s.delete_count;
              sent = s.sent ++ delete_rows pending ∷ [];
            },
            refl,
            list_sent,
            refl,
            refl,
          ))

    -- A step that throws nothing, behind which the state holds the rows, with the same count.
    abbrev Goes : Result DeleteState → List ℕ → ℕ → Type 0
    Goes r rows count = (t : DeleteState) × (r ≡ ok t) × Holds t rows × (t.delete_count ≡ count)

    flush-Goes :
        (s : DeleteState) (rows : List ℕ)
        → Holds s rows
        → (t : DeleteState) × (flush write_identifier requires_quotes answer table s ≡ ok t)
          × Deletes t.sent rows
          × (t.ctid_list ≡ [])
          × (t.delete_count ≡ s.delete_count)
    unfolding flush
    flush-Goes s rows (done, pending, d, e, f) =
        let step = flush_list-Deletes s done pending s.ctid_list e d refl in
        let (t, a, b, c, n) = step in (t, a, rw (sym f) b, c, n)

    list-Goes :
        (s : DeleteState) (rows : List ℕ) (full : Bool)
        → Holds s rows
        → Goes
            (if full then flush write_identifier requires_quotes answer table s else ok s)
            rows
            s.delete_count
    list-Goes s rows false h = (s, refl, h, refl)
    list-Goes s rows true h =
        let (t, a, b, c, d) = flush-Goes s rows h in (t, a, (rows, [], b, c, append-nil rows), d)

    add_row-Goes :
        (s : DeleteState) (rows : List ℕ) (row : ℕ)
        → Holds s rows
        → Goes
            (add_row write_identifier requires_quotes answer table s row)
            (rows ++ row ∷ [])
            s.delete_count
    unfolding add_row
    add_row-Goes s rows row (done, pending, d, e, f) =
        let list = separated s.ctid_list ++ ctid_text row in
        list-Goes (record s { ctid_list = list }) (rows ++ row ∷ []) (ltb 3000 (length list))
          (
            done,
            pending ++ row ∷ [],
            d,
            ap (λ x. separated x ++ ctid_text row) e ∙ sym (ctids-snoc pending row),
            sym (append_assoc done pending (row ∷ [])) ∙ ap (λ x. x ++ row ∷ []) f,
          )

    add_rows-Goes :
        (s : DeleteState) (rows chunk : List ℕ)
        → Holds s rows
        → Goes
            (add_rows write_identifier requires_quotes answer table s chunk)
            (rows ++ chunk)
            s.delete_count
    unfolding add_rows
    add_rows-Goes s rows [] h = (s, refl, rw (append-nil rows) h, refl)
    add_rows-Goes s rows (row ∷ chunk) h =
        let (t, a, b, c) = add_row-Goes s rows row h in
        let (u, d, e, f) = add_rows-Goes t (rows ++ row ∷ []) chunk b in
        rw a (u, d, rw (sym (append_assoc rows (row ∷ []) chunk)) e, f ∙ c)

    sink-Goes :
        (s : DeleteState) (rows chunk : List ℕ)
        → Holds s rows
        → Goes
            (sink write_identifier requires_quotes answer table s chunk)
            (rows ++ chunk)
            ((s.delete_count + length chunk) % 2 ^ 64)
    unfolding sink
    sink-Goes s rows chunk h =
        let (t, a, b, c) = add_rows-Goes s rows chunk h in
        rw a (
          rw c
            (record t { delete_count = (s.delete_count + length chunk) % 2 ^ 64 }, refl, b, refl))

    delete_chunks-Goes :
        (s : DeleteState) (rows : List ℕ) (chunks : List (List ℕ))
        → Holds s rows
        → (t : DeleteState) × (delete_chunks write_identifier requires_quotes answer table s chunks
            ≡ ok t)
          × Deletes t.sent (rows ++ concat chunks)
          × (t.ctid_list ≡ [])
          × (t.delete_count ≡ counted s.delete_count chunks)
    unfolding delete_chunks
    delete_chunks-Goes s rows [] h = rw (append-nil rows) (flush-Goes s rows h)
    delete_chunks-Goes s rows (chunk ∷ chunks) h =
        let (t, a, b, c) = sink-Goes s rows chunk h in
        rw a (
          rw (sym c) (
            rw (sym (append_assoc rows chunk (concat chunks)))
              (delete_chunks-Goes t (rows ++ chunk) chunks b)))

    pub delete_chunks-rows :
        (chunks : List (List ℕ))
        → (t : DeleteState) × (delete_chunks write_identifier requires_quotes answer table
              new_delete_state chunks
            ≡ ok t)
          × Deletes t.sent (concat chunks)
          × (t.ctid_list ≡ [])
          × (t.delete_count ≡ length (concat chunks) % 2 ^ 64)
    unfolding new_delete_state
    delete_chunks-rows chunks =
        let start : Holds new_delete_state [] = ([], [], ([], refl, refl, tt), refl, refl) in
        let (t, a, b, c, d) = delete_chunks-Goes new_delete_state [] chunks start in
        (t, a, b, c, d ∙ (counted-concat 0 chunks (omega arith) ∙ omega arith))
