-- ===== src/Catalog/Recreated.antt =====
-- `DropEntry` and then `CreateEntry` of src/storage/postgres_catalog_set.cpp, with names that differ in case.
use duckdb_postgres.Common.{
  Bool, true, false, List, [], ◌∷◌, Option, none, some, equal, Bytes, ok, err, ◌≡◌, ◌≢◌, refl, ap,
  sym, ◌∙◌, inl, inr, Bool-cases, ok-injective, Result, bind-ok, ◌>>=◌, ◌⊎◌, if◌then◌else◌,
}
use duckdb_postgres.Transaction.{Transaction, is_started, stage_staleness_signature}
use duckdb_postgres.Catalog.{
  CatalogSet, StalenessResult, compute_staleness_signature, refresh_staleness_signature, erase_key,
  drop_entry, find_key, create_entry, find_entry,
}
use duckdb_postgres.Catalog.Lookup.{some-none, find_key-hit, find_key-miss, find_entry-kept}

find_key-erase_key :
    {E : Type 0} (key other : Bytes) (xs : List (Bytes × E))
    → (key ≡ other) ⊎ (find_key other xs ≡ none)
    → find_key other (erase_key key xs) ≡ none
unfolding find_key erase_key
find_key-erase_key key other [] h = refl
find_key-erase_key key other (x ∷ xs) h = elim (Bool-cases (equal key x.0)) [
  | inl e ↦ rw e (find_key-erase_key key other xs (behind h))
  | inr e ↦ rw e (elim (Bool-cases (equal other x.0)) [
    | inl f ↦ absurd (absent h e f)
    | inr f ↦
        find_key-miss other x (erase_key key xs) f ∙ find_key-erase_key key other xs (behind h)
  ])
]
  where
    behind :
        (key ≡ other) ⊎ (find_key other (x ∷ xs) ≡ none)
        → (key ≡ other) ⊎ (find_key other xs ≡ none)
    behind (inl same) = inl same
    behind (inr none_there) = elim (Bool-cases (equal other x.0)) [
      | inl f ↦ absurd (some-none x.1 (sym (find_key-hit other x xs f) ∙ none_there))
      | inr f ↦ inr (sym (find_key-miss other x xs f) ∙ none_there)
    ]

    absent :
        (key ≡ other) ⊎ (find_key other (x ∷ xs) ≡ none)
        → equal key x.0 ≡ false
        → equal other x.0 ≡ true
        → ⊥
    absent (inl same) e f = cc
    absent (inr none_there) e f = some-none x.1 (sym (find_key-hit other x xs f) ∙ none_there)

module _ {E : Type 0} where
  abbrev SameEntries : CatalogSet E → CatalogSet E → Type 0
  SameEntries s r = (r.entries ≡ s.entries) × (r.entry_map ≡ s.entry_map)

  signed-entries :
      (started : Bool) (s r : CatalogSet E) (signature : Bytes) (staged t u : Transaction)
      → ◌≡◌ {A = CatalogSet E × Transaction}
          (if started then (s, staged) else (record s { staleness_signature = signature }, t))
          (r, u)
      → SameEntries s r
  signed-entries true s r signature staged t u h =
      (sym (ap (λ x. x.0.entries) h), sym (ap (λ x. x.0.entry_map) h))
  signed-entries false s r signature staged t u h =
      (sym (ap (λ x. x.0.entries) h), sym (ap (λ x. x.0.entry_map) h))

  refresh_staleness_signature-entries :
      (answer : Option (Result StalenessResult)) (s r : CatalogSet E) (t u : Transaction)
      → refresh_staleness_signature answer s t ≡ ok (r, u)
      → SameEntries s r
  unfolding refresh_staleness_signature
  refresh_staleness_signature-entries none s r t u h =
      let same = ok-injective h in
      (sym (ap (λ x. x.0.entries) same), sym (ap (λ x. x.0.entry_map) same))
  refresh_staleness_signature-entries (some answer) s r t u h =
      let (result, a, h1) =
        bind-ok answer
          (λ result. compute_staleness_signature result >>= λ signature. ok (
            if is_started t.transaction_state
            then (s, stage_staleness_signature s.identity signature t)
            else (record s { staleness_signature = signature }, t)))
          (r, u) h in
      let (signature, b, h2) =
        bind-ok (compute_staleness_signature result)
          (λ signature. ok (
            if is_started t.transaction_state
            then (s, stage_staleness_signature s.identity signature t)
            else (record s { staleness_signature = signature }, t)))
          (r, u) h1 in
      signed-entries (is_started t.transaction_state) s r signature
        (stage_staleness_signature s.identity signature t) t u (ok-injective h2)

  drop_entry-entries :
      (sent : Result Bytes) (answer : Option (Result StalenessResult)) (name : Bytes)
      (s r : CatalogSet E) (t u : Transaction)
      → drop_entry sent answer name s t ≡ ok (r, u)
      → (r.entries ≡ erase_key name s.entries) × (r.entry_map ≡ s.entry_map)
  unfolding drop_entry
  drop_entry-entries (ok done) answer name s r t u h =
      refresh_staleness_signature-entries answer (record s { entries = erase_key name s.entries }) r
        t u h
  drop_entry-entries (err e) answer name s r t u h = absurd cc

  -- Where DropEntry dropped the entry that a key without case stands for, and CreateEntry then
  -- makes one whose name differs from it: a name of the same key that is not the new one, and
  -- had no entry before the drop, is found by neither of the two searches of GetEntry, since the
  -- map from the key still has the name that was dropped.
  pub find_entry-recreated :
      (fold : Bytes → Bytes) (dropped name alias : Bytes) (e : E) (sent : Result Bytes)
      (answer : Option (Result StalenessResult)) (s behind made : CatalogSet E) (t u : Transaction)
      → find_key (fold name) s.entry_map ≡ some dropped
      → drop_entry sent answer dropped s t ≡ ok (behind, u)
      → create_entry fold name e behind ≡ ok made
      → dropped ≢ name
      → fold alias ≡ fold name
      → alias ≢ name
      → find_key alias s.entries ≡ none
      → find_entry fold alias made ≡ none
  find_entry-recreated fold dropped name alias e sent answer s behind made t u mapped drops creates
        renamed same third unknown =
      let (entries, names) = drop_entry-entries sent answer dropped s behind t u drops in
      find_entry-kept fold name e behind made creates dropped alias (rw names mapped)
        (rw entries (find_key-erase_key dropped dropped s.entries (inl refl))) renamed same
        (rw entries (find_key-erase_key dropped alias s.entries (inr unknown))) third
