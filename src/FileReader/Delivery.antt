-- ===== src/FileReader/Delivery.antt =====
-- `FillBuffer` hands the parser the whole file, in order.
use Prim.Native.Nat.{min}
use duckdb_postgres.Common.{
  ℕ, zero, suc, ◌+◌, ◌-◌, ◌≤◌, ◌<◌, leb, ◌==◌, Bool, true, false, ◌&&◌, [], ◌++◌, Bytes, Result, ok,
  ◌>>=◌, length, take, drop, ◌≡◌, refl, sym, ap, ◌∙◌, arith, length-append, length-take,
  length-drop, append_assoc, Bool-cases, inl, inr, take_all, drop-drop, length-nil,
  take-append-drop, take_exact,
}
use mathlib.Core.Path.{subst}
use duckdb_postgres.FileReader.{
  Reader, find_last_complete_row, choose_valid, refill, fill_buffer, deliver, copy_file_header_size,
}
use duckdb_postgres.FileReader.Bounds.{find_last_complete_row-le}
use duckdb_postgres.FileReader.Outcomes.{
  OrThrows, OrThrows-bind, OrThrows-weaken, LargeRow, LargeRow-append, choose_valid-bounds,
}

pub record IsReader (r : Reader) : Type 0 where
  pub covered : r.leftover_offset + r.leftover ≡ length r.read_buffer
  pub bounded : r.leftover ≤ r.buffer_size
  pub started : r.file_offset ≤ length r.file

-- The bytes that the parser has still to get.
abbrev pub pending : Reader → Bytes
pending r = take r.leftover (drop r.leftover_offset r.read_buffer) ++ drop r.file_offset r.file

-- What a fill does: it hands over a part that is not empty and keeps the rest, or nothing is left.
abbrev pub Fills : Reader → Reader × Bool → Type 0
Fills r (q, true) =
    IsReader q
    × (q.buffer_size ≡ r.buffer_size)
    × (pending r ≡ q.parser_buffer ++ pending q)
    × (0 < length q.parser_buffer)
Fills r (q, false) = pending r ≡ []

module _ (r : Reader) (v : IsReader r) (room : 0 < r.buffer_size) where
  abbrev to_read : ℕ
  to_read = min (r.buffer_size - r.leftover) (length r.file - r.file_offset)

  abbrev buffer : Bytes
  buffer =
      take r.leftover (drop r.leftover_offset r.read_buffer)
      ++ take to_read (drop r.file_offset r.file)

  length-buffer : length buffer ≡ r.leftover + to_read
  length-buffer = omega (
    arith,
    v.covered,
    length-append (take r.leftover (drop r.leftover_offset r.read_buffer))
        (take to_read (drop r.file_offset r.file)),
    length-take r.leftover (drop r.leftover_offset r.read_buffer),
    length-drop r.leftover_offset r.read_buffer,
    length-take to_read (drop r.file_offset r.file),
    length-drop r.file_offset r.file,
  )

  pending-buffer : pending r ≡ buffer ++ drop (r.file_offset + to_read) r.file
  pending-buffer = sym (
      append_assoc (take r.leftover (drop r.leftover_offset r.read_buffer))
        (take to_read (drop r.file_offset r.file)) (drop (r.file_offset + to_read) r.file)
      ∙ ap (λ x. take r.leftover (drop r.leftover_offset r.read_buffer) ++ x)
          (ap (λ x. take to_read (drop r.file_offset r.file) ++ x)
              (sym (drop-drop r.file_offset to_read r.file))
            ∙ take-append-drop to_read (drop r.file_offset r.file)))

  abbrev filled : ℕ → Reader
  filled valid = record r {
    read_buffer = buffer;
    file_offset = r.file_offset + to_read;
    leftover = r.leftover + to_read - valid;
    leftover_offset = valid;
    header_scanned = true;
    parser_buffer = take valid buffer;
  }

  split :
      (valid : ℕ)
      → buffer ++ drop (r.file_offset + to_read) r.file
        ≡ take valid buffer
          ++ (take (r.leftover + to_read - valid) (drop valid buffer)
              ++ drop (r.file_offset + to_read) r.file)
  split valid = sym (
      ap (λ x. take valid buffer ++ (x ++ drop (r.file_offset + to_read) r.file))
        (take_all (r.leftover + to_read - valid) (drop valid buffer)
          (omega (arith, length-buffer, length-drop valid buffer)))
      ∙ sym (
          append_assoc (take valid buffer) (drop valid buffer)
            (drop (r.file_offset + to_read) r.file))
      ∙ ap (λ x. x ++ drop (r.file_offset + to_read) r.file) (take-append-drop valid buffer))

  filled-Fills :
      (valid : ℕ) → 0 < valid → valid ≤ r.leftover + to_read → Fills r (filled valid, true)
  filled-Fills valid pos le = (
    record {
      covered = omega (arith, length-buffer);
      bounded = omega (arith, v.bounded);
      started = omega (arith, v.started);
    },
    refl,
    pending-buffer ∙ split valid,
    omega (arith, length-buffer, length-take valid buffer),
  )

  -- What a fill gives that finds bytes: a part that is not empty, with the header where it is in the buffer.
  abbrev pub FillsPast : ℕ → Reader × Bool → Type 0
  FillsPast scan_offset t = Fills r t × (t.1 ≡ true) × (scan_offset ≤ length t.0.parser_buffer)

  at_end : Bool
  at_end = leb (length r.file) (r.file_offset + to_read)

  buffer-large :
      (found : ℕ)
      → find_last_complete_row buffer ≡ ok found
      → found ≡ 0
      → at_end ≡ false
      → LargeRow r.buffer_size (pending r)
  unfolding at_end
  buffer-large found e zero_found more =
      let full : length buffer ≡ r.buffer_size = ground (arith, length-buffer, v.bounded) in
      let large : r.buffer_size < length (pending r) = ground (
        arith,
        ap length pending-buffer,
        length-append buffer (drop (r.file_offset + to_read) r.file),
        length-drop (r.file_offset + to_read) r.file,
        length-buffer,
        v.bounded,
      ) in
      let taken : take r.buffer_size (pending r) ≡ buffer =
        ap (λ x. take r.buffer_size x) pending-buffer
        ∙ take_exact r.buffer_size buffer (drop (r.file_offset + to_read) r.file) full in
      ([], pending r, refl, large, ap find_last_complete_row taken ∙ (e ∙ ap ok zero_found))

  cut-Fills :
      (scan_offset : ℕ)
      → scan_offset ≤ r.leftover + to_read
      → 0 < r.leftover + to_read
      → OrThrows (LargeRow r.buffer_size (pending r) × (scan_offset ≡ 0)) (FillsPast scan_offset) (
          find_last_complete_row (drop scan_offset buffer) >>= λ found.
          choose_valid found scan_offset (r.leftover + to_read) at_end >>= λ valid.
          ok (filled valid, true))
  cut-Fills scan_offset le some_byte =
      let (found, e, bound) = find_last_complete_row-le (drop scan_offset buffer) in
      rw e (
        OrThrows-bind _ _
          (λ valid. (0 < valid) × (valid ≤ r.leftover + to_read) × (scan_offset ≤ valid))
          (FillsPast scan_offset) (choose_valid found scan_offset (r.leftover + to_read) at_end)
          (λ valid. ok (filled valid, true))
          (choose_valid-bounds found scan_offset (r.leftover + to_read) at_end
            (omega (arith, length-buffer, length-drop scan_offset buffer)) some_byte)
          (λ h. (
            buffer-large found (ap (λ n. find_last_complete_row (drop n buffer)) (sym h.1) ∙ e) h.0
                h.2,
            h.1,
          ))
          (λ valid h. (
            filled-Fills valid h.0 h.1,
            refl,
            omega (arith, length-buffer, length-take valid buffer),
          )))

  nothing_pending : r.leftover + to_read ≡ 0 → pending r ≡ []
  nothing_pending h = length-nil (pending r) (
      omega (
        arith,
        v.started,
        v.covered,
        length-append (take r.leftover (drop r.leftover_offset r.read_buffer))
            (drop r.file_offset r.file),
        length-take r.leftover (drop r.leftover_offset r.read_buffer),
        length-drop r.file_offset r.file,
      ))

  Cut : ℕ → Result (Reader × Bool) → Type 0
  Cut scan_offset m =
      OrThrows (LargeRow r.buffer_size (pending r) × (scan_offset ≡ 0)) (FillsPast scan_offset) m

  keep :
      (scan_offset : ℕ) (m : Result (Reader × Bool))
      → Cut scan_offset m
      → OrThrows (LargeRow r.buffer_size (pending r)) (Fills r) m
  unfolding Cut
  keep scan_offset m h =
      OrThrows-weaken (LargeRow r.buffer_size (pending r) × (scan_offset ≡ 0)) _
        (FillsPast scan_offset) (Fills r) m h (λ d. d.0) (λ a k. k.0)

  refill-Fills : OrThrows (LargeRow r.buffer_size (pending r)) (Fills r) (refill r)
  unfolding refill at_end Cut
  refill-Fills = elim (Bool-cases (r.leftover + to_read == 0)) [
    | inl e ↦ rw e (nothing_pending (ground arith))
    | inr e ↦ rw e (elim (Bool-cases r.header_scanned) [
      | inl h ↦ rw h (keep 0 _ (cut-Fills 0 (omega arith) (ground arith)))
      | inr h ↦ rw h (
          keep (min copy_file_header_size (r.leftover + to_read)) _ (
            cut-Fills (min copy_file_header_size (r.leftover + to_read)) (omega arith)
              (ground arith)))
    ])
  ]

  -- The first fill of a file that has a header.
  pub first-Fills :
      r.header_scanned ≡ false
      → copy_file_header_size ≤ r.leftover + to_read
      → OrThrows ⊥ (FillsPast copy_file_header_size) (refill r)
  unfolding refill at_end
  first-Fills not_scanned long =
      let some_bytes : (r.leftover + to_read == 0) ≡ false = ground arith in
      let whole : min copy_file_header_size (r.leftover + to_read) ≡ copy_file_header_size =
        omega arith in
      rw some_bytes (
        rw not_scanned (
          OrThrows-weaken
            (LargeRow r.buffer_size (pending r)
              × (min copy_file_header_size (r.leftover + to_read) ≡ 0))
            ⊥ (FillsPast (min copy_file_header_size (r.leftover + to_read)))
            (FillsPast copy_file_header_size) _
            (cut-Fills (min copy_file_header_size (r.leftover + to_read)) (omega arith)
              (omega arith))
            (λ d. omega (arith, d.1, whole)) (λ t h. (h.0, h.1, omega (arith, h.2, whole)))))

  fill_buffer-Fills : OrThrows (LargeRow r.buffer_size (pending r)) (Fills r) (fill_buffer r)
  unfolding fill_buffer
  fill_buffer-Fills = elim (Bool-cases (leb (length r.file) r.file_offset && r.leftover == 0)) [
    | inl e ↦ rw e (nothing_pending (ground arith))
    | inr e ↦ rw e refill-Fills
  ]

-- What `deliver` does behind a fill.
abbrev after_fill : ℕ → Reader × Bool → Result Bytes
after_fill fuel t = elim t.1 [
  | false ↦ ok []
  | true ↦ deliver fuel t.0 >>= λ more. ok (t.0.parser_buffer ++ more)
]

-- The buffers of a reader are what is pending, one behind the other, or a row in it is too large.
pub deliver-pending :
    (fuel : ℕ) (r : Reader)
    → IsReader r
    → 0 < r.buffer_size
    → length (pending r) < fuel
    → OrThrows (LargeRow r.buffer_size (pending r)) (λ all. all ≡ pending r) (deliver fuel r)
unfolding deliver
deliver-pending zero r v room h = absurd (omega arith)
deliver-pending (suc fuel) r v room h =
    OrThrows-bind (LargeRow r.buffer_size (pending r)) (LargeRow r.buffer_size (pending r))
      (Fills r) (λ all. all ≡ pending r) (fill_buffer r) (after_fill fuel)
      (fill_buffer-Fills r v room) (λ d. d) (go (deliver-pending fuel))
  where
    go :
        ((q : Reader)
          → IsReader q
          → 0 < q.buffer_size
          → length (pending q) < fuel
          → OrThrows (LargeRow q.buffer_size (pending q)) (λ all. all ≡ pending q) (deliver fuel q))
        → (t : Reader × Bool) → Fills r t
        → OrThrows (LargeRow r.buffer_size (pending r)) (λ all. all ≡ pending r) (after_fill fuel t)
    go ih (q, false) f = sym f
    go ih (q, true) (w, same, parts, some_byte) =
        OrThrows-bind (LargeRow q.buffer_size (pending q)) (LargeRow r.buffer_size (pending r))
          (λ all. all ≡ pending q) (λ all. all ≡ pending r) (deliver fuel q)
          (λ more. ok (q.parser_buffer ++ more))
          (ih q w (omega arith)
            (omega (arith, length-append q.parser_buffer (pending q), ap length parts)))
          (λ d.
            LargeRow-append r.buffer_size q.parser_buffer (pending q) (pending r) parts
              (subst (λ n. LargeRow n (pending q)) same d))
          (λ all e. ap (λ x. q.parser_buffer ++ x) e ∙ sym parts)
