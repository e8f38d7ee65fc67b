-- ===== src/Delete/Ctids.antt =====
-- The text of a list of ctids in src/storage/postgres_delete.cpp, and groups of rows.
use duckdb_postgres.Common.{
  ℕ, List, [], ◌∷◌, ◌++◌, map, append-nil, append_assoc, Bytes, codes, All, ◌≡◌, ◌≢◌, refl, sym, ap,
  ◌∙◌,
}
use duckdb_postgres.Delete.{ctid_text, separated}

-- The ctids of some rows with a comma between them.
abbrev pub more_ctids : List ℕ → Bytes
more_ctids [] = []
more_ctids (row ∷ rows) = codes "," ++ (ctid_text row ++ more_ctids rows)

abbrev pub ctids : List ℕ → Bytes
ctids [] = []
ctids (row ∷ rows) = ctid_text row ++ more_ctids rows

abbrev pub concat : List (List ℕ) → List ℕ
concat [] = []
concat (rows ∷ groups) = rows ++ concat groups

pub concat-append :
    (groups : List (List ℕ)) (rows : List ℕ) → concat (groups ++ rows ∷ []) ≡ concat groups ++ rows
concat-append [] rows = append-nil rows
concat-append (g ∷ gs) rows =
    ap (λ x. g ++ x) (concat-append gs rows) ∙ sym (append_assoc g (concat gs) rows)

pub map-snoc :
    (f : List ℕ → Bytes) (groups : List (List ℕ)) (rows : List ℕ)
    → map f (groups ++ rows ∷ []) ≡ map f groups ++ f rows ∷ []
map-snoc f [] rows = refl
map-snoc f (g ∷ gs) rows = ap (λ x. f g ∷ x) (map-snoc f gs rows)

pub All-snoc :
    (groups : List (List ℕ)) (rows : List ℕ)
    → All (λ g. g ≢ []) groups
    → rows ≢ []
    → All (λ g. g ≢ []) (groups ++ rows ∷ [])
All-snoc [] rows h k = (k, tt)
All-snoc (g ∷ gs) rows h k = (h.0, All-snoc gs rows h.1 k)

more_ctids-snoc :
    (rows : List ℕ) (row : ℕ)
    → more_ctids (rows ++ row ∷ []) ≡ more_ctids rows ++ (codes "," ++ ctid_text row)
more_ctids-snoc [] row = ap (λ x. codes "," ++ x) (append-nil (ctid_text row))
more_ctids-snoc (r ∷ rs) row =
    ap (λ x. codes "," ++ (ctid_text r ++ x)) (more_ctids-snoc rs row)
    ∙ ap (λ x. codes "," ++ x)
        (sym (append_assoc (ctid_text r) (more_ctids rs) (codes "," ++ ctid_text row)))

separated-cons :
    (row : ℕ) (r : Bytes) → separated (ctid_text row ++ r) ≡ ctid_text row ++ r ++ codes ","
unfolding separated ctid_text
separated-cons row r = refl

pub ctids-nil : (rows : List ℕ) → ctids rows ≡ [] → rows ≡ []
unfolding ctid_text
ctids-nil [] h = refl
ctids-nil (row ∷ rows) h = absurd cc

pub cons-nil : (c : ℕ) (r : Bytes) → c ∷ r ≡ [] → ⊥
cons-nil c r h = cc

pub ctids-snoc :
    (rows : List ℕ) (row : ℕ) → ctids (rows ++ row ∷ []) ≡ separated (ctids rows) ++ ctid_text row
unfolding separated
ctids-snoc [] row = append-nil (ctid_text row)
ctids-snoc (r ∷ rs) row =
    let list = ctid_text r ++ more_ctids rs in
    ap (λ x. ctid_text r ++ x) (more_ctids-snoc rs row)
    ∙ (sym (append_assoc (ctid_text r) (more_ctids rs) (codes "," ++ ctid_text row))
        ∙ (sym (append_assoc list (codes ",") (ctid_text row))
            ∙ ap (λ x. x ++ ctid_text row) (sym (separated-cons r (more_ctids rs)))))
