-- ===== src/Catalog/Signature.antt =====
-- The staleness signature of src/storage/postgres_catalog_set.cpp.
use duckdb_postgres.Common.{
  ℕ, ◌↔◌, ok-injective, Bool, true, false, map, List, [], ◌∷◌, ◌++◌, Option, some, ◌+◌, ltb, ◌==◌,
  ◌||◌, length, length-append, equal, equal_iff, if◌then◌else◌, Bytes, Result, ok, ◌≡◌, refl, ap,
  sym, ◌∙◌, arith, append_assoc, All,
}
use duckdb_postgres.Transaction.{Transaction, is_started}
use duckdb_postgres.Catalog.{
  CatalogSet, StalenessRow, StalenessResult, row_signature, rows_signature,
  compute_staleness_signature, try_load_entries, compare_signature, plan_load, finish_load,
}

-- A text without the two bytes that end a cell or a row.
abbrev pub IsPlain : Bytes → Type 0
IsPlain s = All (λ c. (c == 0) ≡ false × (c == 1) ≡ false) s

abbrev pub PlainRow : StalenessRow → Type 0
PlainRow row = IsPlain row.0 × (IsPlain row.1.0 × IsPlain row.1.1.0)

-- The three cells of a row that the signature is made of.
abbrev pub signed_cells : StalenessRow → Bytes × (Bytes × Bytes)
signed_cells row = (row.0, (row.1.0, row.1.1.0))

-- A plain text and what stands behind the byte that ends it.
abbrev pub before_end : Bytes → Bytes
before_end [] = []
before_end (c ∷ r) = let rest = before_end r in if c == 0 || c == 1 then [] else c ∷ rest

abbrev pub behind_end : Bytes → Bytes
behind_end [] = []
behind_end (c ∷ r) = let rest = behind_end r in if c == 0 || c == 1 then r else rest

plain_split :
    (a x : Bytes) (k : ℕ)
    → IsPlain a
    → (k == 0 || k == 1) ≡ true
    → (before_end (a ++ k ∷ x) ≡ a) × (behind_end (a ++ k ∷ x) ≡ x)
plain_split [] x k h e = (rw e refl, rw e refl)
plain_split (c ∷ a) x k h e =
    let (before, behind) = plain_split a x k h.1 e in
    let inside : (c == 0 || c == 1) ≡ false = ground (arith, h.0) in
    (rw inside (ap (λ s. c ∷ s) before), rw inside behind)

plain_injective :
    (a b x y : Bytes) (k : ℕ)
    → IsPlain a
    → IsPlain b
    → (k == 0 || k == 1) ≡ true
    → a ++ k ∷ x ≡ b ++ k ∷ y
    → (a ≡ b) × (x ≡ y)
plain_injective a b x y k h l e same =
    let (a0, a1) = plain_split a x k h e in
    let (b0, b1) = plain_split b y k l e in
    (sym a0 ∙ (ap before_end same ∙ b0), sym a1 ∙ (ap behind_end same ∙ b1))

row_shape :
    (a b c : Bytes) (more : List Bytes) (rest : Bytes)
    → row_signature (a, (b, (c, more))) ++ rest ≡ a ++ 0 ∷ (b ++ 0 ∷ (c ++ 1 ∷ rest))
unfolding row_signature
row_shape a b c more rest = simp append_assoc refl

no_row : (a x : Bytes) (k : ℕ) → [] ≡ a ++ k ∷ x → ⊥
no_row a x k h = omega (arith, ap length h, length-append a (k ∷ x))

rows_signature-injective :
    (xs ys : List StalenessRow)
    → All PlainRow xs
    → All PlainRow ys
    → rows_signature xs ≡ rows_signature ys
    → map signed_cells xs ≡ map signed_cells ys
unfolding rows_signature
rows_signature-injective [] [] h k e = refl
rows_signature-injective [] ((a, (b, (c, m))) ∷ ys) h k e =
    absurd (
      no_row a (b ++ 0 ∷ (c ++ 1 ∷ rows_signature ys)) 0
        (e ∙ row_shape a b c m (rows_signature ys)))
rows_signature-injective ((a, (b, (c, m))) ∷ xs) [] h k e = absurd (
    no_row a (b ++ 0 ∷ (c ++ 1 ∷ rows_signature xs)) 0
      (sym e ∙ row_shape a b c m (rows_signature xs)))
rows_signature-injective ((a, (b, (c, m))) ∷ xs) ((u, (v, (w, n))) ∷ ys) h k e =
    let whole =
      sym (row_shape a b c m (rows_signature xs)) ∙ (e ∙ row_shape u v w n (rows_signature ys)) in
    let (e0, r0) =
      plain_injective a u (b ++ 0 ∷ (c ++ 1 ∷ rows_signature xs))
        (v ++ 0 ∷ (w ++ 1 ∷ rows_signature ys)) 0 h.0.0 k.0.0 refl whole in
    let (e1, r1) =
      plain_injective b v (c ++ 1 ∷ rows_signature xs) (w ++ 1 ∷ rows_signature ys) 0 h.0.1.0
        k.0.1.0 refl r0 in
    let (e2, r2) =
      plain_injective c w (rows_signature xs) (rows_signature ys) 1 h.0.1.1 k.0.1.1 refl r1 in
    rw e0 (rw e1 (rw e2 (ap (λ r. (u, (v, w)) ∷ r) (rows_signature-injective xs ys h.1 k.1 r2))))

no_cons {ℓ} : {A : Type ℓ} (x : A) (xs : List A) → [] ≡ x ∷ xs → ⊥
no_cons x xs h = cc

cons_parts {ℓ} : {A : Type ℓ} (x y : A) (xs ys : List A) → x ∷ xs ≡ y ∷ ys → (x ≡ y) × (xs ≡ ys)
cons_parts x y xs ys h = (cc, cc)

row_signature-signed_cells :
    (x y : StalenessRow) → signed_cells x ≡ signed_cells y → row_signature x ≡ row_signature y
unfolding row_signature
row_signature-signed_cells x y e =
    rw (ap (λ p. p.0) e) (rw (ap (λ p. p.1.0) e) (rw (ap (λ p. p.1.1) e) refl))

rows_signature-signed_cells :
    (xs ys : List StalenessRow)
    → map signed_cells xs ≡ map signed_cells ys
    → rows_signature xs ≡ rows_signature ys
unfolding rows_signature
rows_signature-signed_cells [] [] e = refl
rows_signature-signed_cells [] (y ∷ ys) e =
    absurd (no_cons (signed_cells y) (map signed_cells ys) e)
rows_signature-signed_cells (x ∷ xs) [] e =
    absurd (no_cons (signed_cells x) (map signed_cells xs) (sym e))
rows_signature-signed_cells (x ∷ xs) (y ∷ ys) e =
    let (first, others) =
      cons_parts (signed_cells x) (signed_cells y) (map signed_cells xs) (map signed_cells ys) e in
    rw (row_signature-signed_cells x y first) (rw (rows_signature-signed_cells xs ys others) refl)

-- The rows of an answer with the three columns that the signature wants.
abbrev pub answer_of : ℕ → List StalenessRow → Option (Result StalenessResult)
answer_of more rows = some (ok (record { column_count = 3 + more; rows = rows }))

enough_columns :
    (more : ℕ) (rows : List StalenessRow)
    → compute_staleness_signature (record { column_count = 3 + more; rows = rows })
      ≡ ok (rows_signature rows)
unfolding compute_staleness_signature
enough_columns more rows = let enough : ltb (3 + more) 3 ≡ false = ground arith in rw enough refl

-- Of two answers to the staleness query of three columns or more, with no byte 0 or 1 in the
-- first three cells of a row, the signatures agree exactly when the first three cells of their
-- rows do, row by row.
pub compute_staleness_signature_iff :
    (more other : ℕ) (xs ys : List StalenessRow)
    → All PlainRow xs
    → All PlainRow ys
    → (compute_staleness_signature (record { column_count = 3 + more; rows = xs })
        ≡ compute_staleness_signature (record { column_count = 3 + other; rows = ys }))
      ↔ (map signed_cells xs ≡ map signed_cells ys)
compute_staleness_signature_iff more other xs ys plain_xs plain_ys = (
  λ same.
      rows_signature-injective xs ys plain_xs plain_ys
        (ok-injective (sym (enough_columns more xs) ∙ (same ∙ enough_columns other ys))),
  λ same.
      enough_columns more xs
      ∙ (ap ok (rows_signature-signed_cells xs ys same) ∙ sym (enough_columns other ys)),
)

-- The set, and what waits for the transaction's end, behind a load that gave `loaded`: the signature is that of
-- the rows, at once or staged.
abbrev pub signed_with :
    {E : Type 0} → List StalenessRow → CatalogSet E → Transaction → CatalogSet E × Transaction
signed_with rows loaded t =
    if is_started t.transaction_state
    then (
      record loaded { is_loaded = true },
      record t {
        pending_signatures = t.pending_signatures ++ (loaded.identity, rows_signature rows) ∷ [];
      },
    )
    else (record loaded { staleness_signature = rows_signature rows; is_loaded = true }, t)

-- `s` is the set when the server is asked, and `now` what other threads made of it until the answer came.
module _ {E : Type 0} (load : CatalogSet E → Result (CatalogSet E))
    (other_threads : CatalogSet E → CatalogSet E) (s now : CatalogSet E) (t : Transaction)
    (loaded : s.is_loaded ≡ true) (left : other_threads s ≡ now)
    (still_loaded : now.is_loaded ≡ true) (more : ℕ) (known rows : List StalenessRow)
    (signed : now.staleness_signature ≡ rows_signature known) where
  compared :
      (loading_here : Bool)
      → try_load_entries false loading_here load (answer_of more rows) other_threads s t
        ≡ finish_load load (answer_of more rows) (compare_signature (rows_signature rows)) now t
  unfolding try_load_entries plan_load
  compared loading_here = rw left (rw loaded (rw (enough_columns more rows) refl))

  -- A loaded set without internal dependencies, whose signature is that of the rows that the server answers
  -- now, is used as other threads left it.
  pub try_load_entries-unchanged :
      (loading_here : Bool)
      → map signed_cells rows ≡ map signed_cells known
      → try_load_entries false loading_here load (answer_of more rows) other_threads s t
        ≡ ok (now, t)
  unfolding finish_load
  try_load_entries-unchanged loading_here same =
      let agree : equal (rows_signature rows) now.staleness_signature ≡ true =
        (equal_iff (rows_signature rows) now.staleness_signature).1
          (rows_signature-signed_cells rows known same ∙ sym signed) in
      compared loading_here ∙ rw still_loaded (rw agree refl)
