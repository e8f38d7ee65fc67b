-- ===== src/TextFormat/Preserved.antt =====
-- What every call of `AddString` keeps, the scanner keeps, whatever the text.
use duckdb_postgres.Common.{
  ℕ, Bool, not, ◌||◌, ◌&&◌, [], ◌∷◌, ◌==◌, Bytes, arith, Bool-cases, inl, inr, Ok, Ok-bind,
}
use duckdb_postgres.TextReader.Nested.{
  NestedParser, Scan, flush, close_delim, comma, byte, append, is_escape, scan, is_empty,
  parse_nested, start_scan, drop_last, last_or,
}

module _ {P : Type 0} (ops : NestedParser P) (Inv : P → Type 0)
    (keep : (p : P) (str : Bytes) (w : Bool)
      → Inv p
      → Ok (λ (r : P × Bool). Inv r.0) (ops.add_string p str w)) where
  abbrev Held : Scan P → Type 0
  Held s = Inv s.parser

  flush-keeps : (s : Scan P) → Inv s.parser → Ok Held (flush ops s)
  unfolding flush
  flush-keeps s h = elim (Bool-cases (not (is_empty s.current) || s.was_quoted)) [
    | inl e ↦ rw e (
        Ok-bind _ Held (ops.add_string s.parser s.current s.was_quoted) _
          (keep s.parser s.current s.was_quoted h) (λ r k. k))
    | inr e ↦ rw e h
  ]

  comma-keeps : (s : Scan P) → Inv s.parser → Ok Held (comma ops s)
  unfolding comma
  comma-keeps s h = elim (Bool-cases (is_empty s.delims)) [
    | inl e ↦ rw e (Ok-bind Held Held (flush ops s) _ (flush-keeps s h) (λ r k. k))
    | inr e ↦ rw e h
  ]

  close_delim-keeps :
      (s : Scan P) (c : ℕ) (ds : Bytes) → Inv s.parser → Ok Held (close_delim ops s c ds)
  unfolding close_delim
  close_delim-keeps s c [] h = tt
  close_delim-keeps s c (d ∷ ds) h = elim (Bool-cases (d == c)) [ inl e ↦ rw e h | inr e ↦ rw e tt ]

  byte-keeps : (s : Scan P) (c : ℕ) → Inv s.parser → Ok Held (byte ops s c)
  unfolding byte
  byte-keeps s c h = ground (arith, comma-keeps s h, close_delim-keeps s c s.delims h)

  scan-keeps : (last : ℕ) (s : Scan P) (str : Bytes) → Inv s.parser → Ok Held (scan ops last s str)
  unfolding scan
  scan-keeps last s [] h = h
  scan-keeps last s (c ∷ []) h = elim (Bool-cases (is_escape ops s c)) [
    | inl e ↦ rw e h
    | inr e ↦ rw e (byte-keeps s c h)
  ]
  scan-keeps last s (c ∷ d ∷ r) h = elim (Bool-cases (is_escape ops s c)) [
    | inl e ↦ rw (e, scan) (scan-keeps last (append ops s d) r h)
    | inr e ↦
        rw (e, scan)
          (Ok-bind Held Held (byte ops s c) _ (byte-keeps s c h)
            (λ t k. scan-keeps last t (d ∷ r) k))
  ]

  -- The parser that `Finish` is called on keeps it too.
  pub parse_nested-keeps :
      (Q : P → Type 0) (p : P) (start end : ℕ) (str : Bytes)
      → ((q : P) → Inv q → Ok Q (ops.finish q))
      → Inv (ops.initialize p)
      → Ok Q (parse_nested ops p start end str)
  unfolding parse_nested
  parse_nested-keeps Q p start end [] done h = tt
  parse_nested-keeps Q p start end (c ∷ rest) done h =
      elim (Bool-cases (c == start && last_or c rest == end)) [
        | inl e ↦ rw e (
            Ok-bind Held Q (scan ops end (start_scan ops p) (drop_last rest)) _
              (scan-keeps end (start_scan ops p) (drop_last rest) h)
              (λ s k. Ok-bind Held Q (flush ops s) _ (flush-keeps s k) (λ t l. done t.parser l)))
        | inr e ↦ rw e tt
      ]
