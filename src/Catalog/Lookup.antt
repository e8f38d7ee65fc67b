-- ===== src/Catalog/Lookup.antt =====
-- The entries of a catalog set by name: `CreateEntry`, `DropEntry` and the searches of `GetEntry` in
-- src/storage/postgres_catalog_set.cpp.
use duckdb_postgres.Common.{
  true, false, List, [], ◌∷◌, Option, none, some, equal, equal_iff, equal_refl, Bytes, ok, err, ◌≡◌,
  ◌≢◌, refl, ap, sym, ◌∙◌, inl, inr, Bool-cases, All, ok-injective, internal,
}
use duckdb_postgres.Catalog.{
  CatalogSet, find_key, insert_key, create_entry, find_mapped, find_entry, or_else,
}

equal-false : (a b : Bytes) → a ≢ b → equal a b ≡ false
equal-false a b h = elim (Bool-cases (equal a b)) [
  | inl e ↦ absurd (h ((equal_iff a b).0 e))
  | inr e ↦ e
]

pub some-none {ℓ} : {A : Type ℓ} (x : A) → some x ≡ none → ⊥
some-none x h = cc

module _ {ℓ} {A : Type ℓ} where
  pub find_key-hit :
      (key : Bytes) (x : Bytes × A) (xs : List (Bytes × A))
      → equal key x.0 ≡ true
      → find_key key (x ∷ xs) ≡ some x.1
  unfolding find_key
  find_key-hit key x xs e = rw e refl

  pub find_key-miss :
      (key : Bytes) (x : Bytes × A) (xs : List (Bytes × A))
      → equal key x.0 ≡ false
      → find_key key (x ∷ xs) ≡ find_key key xs
  unfolding find_key
  find_key-miss key x xs e = rw e refl

  find_key-insert_key :
      (key : Bytes) (new : A) (xs : List (Bytes × A))
      → find_key key xs ≡ none
      → find_key key (insert_key key new xs) ≡ some new
  unfolding find_key insert_key
  find_key-insert_key key new [] h = rw (equal_refl key) refl
  find_key-insert_key key new (x ∷ xs) h = elim (Bool-cases (equal key x.0)) [
    | inl e ↦ absurd (some-none x.1 (sym (find_key-hit key x xs e) ∙ h))
    | inr e ↦ rw e (
        find_key-miss key x (insert_key key new xs) e
        ∙ find_key-insert_key key new xs (sym (find_key-miss key x xs e) ∙ h))
  ]

  find_key-insert_key-other :
      (other key : Bytes) (new : A) (xs : List (Bytes × A))
      → other ≢ key
      → find_key other (insert_key key new xs) ≡ find_key other xs
  unfolding find_key insert_key
  find_key-insert_key-other other key new [] h = rw (equal-false other key h) refl
  find_key-insert_key-other other key new (x ∷ xs) h = elim (Bool-cases (equal key x.0)) [
    | inl e ↦ rw e refl
    | inr e ↦ rw e (elim (Bool-cases (equal other x.0)) [
      | inl f ↦ rw f refl
      | inr f ↦ rw f (find_key-insert_key-other other key new xs h)
    ])
  ]

  -- What is there is kept.
  find_key-insert_key-kept :
      (key : Bytes) (old new : A) (xs : List (Bytes × A))
      → find_key key xs ≡ some old
      → insert_key key new xs ≡ xs
  unfolding find_key insert_key
  find_key-insert_key-kept key old new [] h = absurd cc
  find_key-insert_key-kept key old new (x ∷ xs) h = elim (Bool-cases (equal key x.0)) [
    | inl e ↦ rw e refl
    | inr e ↦ rw e (
        ap (λ r. x ∷ r)
          (find_key-insert_key-kept key old new xs (sym (find_key-miss key x xs e) ∙ h)))
  ]

-- The keys of the case-insensitive map are those of the names that they stand for.
abbrev pub IsKeyed : (Bytes → Bytes) → List (Bytes × Bytes) → Type 0
IsKeyed fold xs = All (λ x. fold x.1 ≡ x.0) xs

insert_key-IsKeyed :
    (fold : Bytes → Bytes) (name : Bytes) (xs : List (Bytes × Bytes))
    → IsKeyed fold xs
    → IsKeyed fold (insert_key (fold name) name xs)
unfolding insert_key
insert_key-IsKeyed fold name [] h = (refl, tt)
insert_key-IsKeyed fold name (x ∷ xs) h = elim (Bool-cases (equal (fold name) x.0)) [
  | inl e ↦ rw e h
  | inr e ↦ rw e (h.0, insert_key-IsKeyed fold name xs h.1)
]

some_injective : {a b : Bytes} → some a ≡ some b → a ≡ b
some_injective h = cc

found_none : (key : Bytes) → find_key {A = Bytes} key [] ≡ none
unfolding find_key
found_none key = refl

mapped-IsKeyed :
    (fold : Bytes → Bytes) (key name : Bytes) (xs : List (Bytes × Bytes))
    → IsKeyed fold xs
    → find_key key xs ≡ some name
    → fold name ≡ key
mapped-IsKeyed fold key name [] h e = absurd (some-none name (sym e ∙ found_none key))
mapped-IsKeyed fold key name (x ∷ xs) h e = elim (Bool-cases (equal key x.0)) [
  | inl f ↦
      ap fold (some_injective (sym e ∙ find_key-hit key x xs f))
      ∙ (h.0 ∙ sym ((equal_iff key x.0).0 f))
  | inr f ↦ mapped-IsKeyed fold key name xs h.1 (sym (find_key-miss key x xs f) ∙ e)
]

err_ok {ℓ} : {A : Type ℓ} (a : A) → err internal ≡ ok a → ⊥
err_ok a h = cc

created_sets :
    {E : Type 0} (fold : Bytes → Bytes) (name : Bytes) (e : E) (s made : CatalogSet E)
    → create_entry fold name e s ≡ ok made
    → (made.entries ≡ insert_key name e s.entries)
      × (made.entry_map ≡ insert_key (fold name) name s.entry_map)
unfolding create_entry
created_sets fold [] e s made h = absurd (err_ok made h)
created_sets fold (c ∷ r) e s made h =
    let same = ok-injective h in (sym (ap (λ x. x.entries) same), sym (ap (λ x. x.entry_map) same))

find_entry-miss :
    {E : Type 0} (fold : Bytes → Bytes) (name : Bytes) (s : CatalogSet E)
    → find_key name s.entries ≡ none
    → find_entry fold name s ≡ find_mapped (find_key (fold name) s.entry_map) s
unfolding find_entry
find_entry-miss fold name s h =
    ap (λ o. or_else o (find_mapped (find_key (fold name) s.entry_map) s)) h

find_entry-agree :
    {E : Type 0} (fold : Bytes → Bytes) (name : Bytes) (s r : CatalogSet E)
    → find_key name s.entries ≡ find_key name r.entries
    → find_mapped (find_key (fold name) s.entry_map) s
      ≡ find_mapped (find_key (fold name) r.entry_map) r
    → find_entry fold name s ≡ find_entry fold name r
unfolding find_entry
find_entry-agree fold name s r h k =
    ap (λ o. or_else o (find_mapped (find_key (fold name) s.entry_map) s)) h
    ∙ ap (λ o. or_else (find_key name r.entries) o) k

module _ {E : Type 0} (fold : Bytes → Bytes) (name : Bytes) (e : E) (s made : CatalogSet E)
    (created : create_entry fold name e s ≡ ok made) where
  sets :
      (made.entries ≡ insert_key name e s.entries)
      × (made.entry_map ≡ insert_key (fold name) name s.entry_map)
  sets = created_sets fold name e s made created

  entries_other :
      (other : Bytes) → other ≢ name → find_key other made.entries ≡ find_key other s.entries
  entries_other other differs =
      rw (sets.0) (find_key-insert_key-other other name e s.entries differs)

  mapped_other :
      (other : Bytes) (o : Option Bytes)
      → IsKeyed fold s.entry_map
      → fold other ≢ fold name
      → find_key (fold other) s.entry_map ≡ o
      → find_mapped o made ≡ find_mapped o s
  unfolding find_mapped
  mapped_other other none keyed differs h = refl
  mapped_other other (some m) keyed differs h = entries_other m (λ same.
      differs (sym (mapped-IsKeyed fold (fold other) m s.entry_map keyed h) ∙ ap fold same))

  -- An entry of a new name: every name that differs from it in case only, and that has no entry of its own,
  -- finds it.
  pub find_entry-create_entry :
      (alias : Bytes)
      → find_key name s.entries ≡ none
      → find_key (fold name) s.entry_map ≡ none
      → fold alias ≡ fold name
      → find_key alias made.entries ≡ none
      → find_entry fold alias made ≡ some e
  unfolding find_mapped
  find_entry-create_entry alias fresh unmapped same unknown =
      find_entry-miss fold alias made unknown
      ∙ (ap (λ k. find_mapped (find_key k made.entry_map) made) same
          ∙ (ap (λ m. find_mapped (find_key (fold name) m) made) sets.1
              ∙ (ap (λ o. find_mapped o made)
                    (find_key-insert_key (fold name) name s.entry_map unmapped)
                  ∙ (ap (λ m. find_key name m) sets.0
                      ∙ find_key-insert_key name e s.entries fresh))))

  -- Behind a creation the names that differ in more than case find what they found.
  pub find_entry-create_entry-other :
      (other : Bytes)
      → IsKeyed fold s.entry_map
      → fold other ≢ fold name
      → find_entry fold other made ≡ find_entry fold other s
  find_entry-create_entry-other other keyed differs =
      let mapped =
        ap (λ m. find_key (fold other) m) sets.1
        ∙ find_key-insert_key-other (fold other) (fold name) name s.entry_map differs in
      find_entry-agree fold other made s (entries_other other (λ same. differs (ap fold same))) (
        ap (λ o. find_mapped o made) mapped
        ∙ mapped_other other (find_key (fold other) s.entry_map) keyed differs refl)

  pub create_entry-IsKeyed : IsKeyed fold s.entry_map → IsKeyed fold made.entry_map
  create_entry-IsKeyed keyed = rw (sets.1) (insert_key-IsKeyed fold name s.entry_map keyed)

  -- The map keeps the name that a key has already, and finds nothing where that name has no entry.
  pub find_entry-kept :
      (dropped alias : Bytes)
      → find_key (fold name) s.entry_map ≡ some dropped
      → find_key dropped s.entries ≡ none
      → dropped ≢ name
      → fold alias ≡ fold name
      → find_key alias s.entries ≡ none
      → alias ≢ name
      → find_entry fold alias made ≡ none
  unfolding find_mapped
  find_entry-kept dropped alias mapped gone renamed same unknown third =
      find_entry-miss fold alias made (entries_other alias third ∙ unknown)
      ∙ (ap (λ k. find_mapped (find_key k made.entry_map) made) same
          ∙ (ap (λ m. find_mapped (find_key (fold name) m) made)
                (sets.1 ∙ find_key-insert_key-kept (fold name) dropped name s.entry_map mapped)
              ∙ (ap (λ o. find_mapped o made) mapped ∙ (entries_other dropped renamed ∙ gone))))
