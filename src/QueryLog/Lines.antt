-- ===== src/QueryLog/Lines.antt =====
-- internal/querylog/querylog.go: what the loop of `readOpenFile` holds after some lines.
use faro.Prelude.{
  nat_eq, ℕ, ◌+◌, ◌≤◌, ◌<◌, ◌≡◌, refl, sym, ap, subst, ◌∙◌, Bool, true, false, ◌||◌, List, [], ◌∷◌,
  ◌++◌, Option, none, some, leb, if◌then◌else◌, ◌==◌, length, length-append, append_nil,
  append_assoc, arith, ◌⊎◌, inl, inr, Bool-cases,
}
use faro.Strings.{Bytes}
use faro.QueryLog.{
  Store, Io, Reader, going, stopped, newline, buffer_size, commit_batch, flush, add_row, end_line,
  check_context, drop_buffer, read_byte,
}

-- A text without a line break.
abbrev pub has_newline : Bytes → Bool
has_newline [] = false
has_newline (c ∷ s) = c == newline || has_newline s

abbrev pub AreLines : List Bytes → Type 0
AreLines [] = Unit
AreLines (b ∷ l) = (has_newline b ≡ false) × AreLines l

-- Lines, each followed by its line break.
abbrev pub joined : List Bytes → Bytes
joined [] = []
joined (b ∷ l) = b ++ newline ∷ joined l

abbrev pub size : List Bytes → ℕ
size [] = 0
size (b ∷ l) = length b + 1 + size l

module _ {Row : Type 0} (io : Io Row) where
  -- The rows of lines: those of the lines that parse and are not longer than the buffer.
  abbrev pub row_of : Bytes → Option Row
  row_of b = if leb (length b + 1) buffer_size then io.parse (b ++ newline ∷ []) else none

  abbrev pub rows_of : List Bytes → List Row
  rows_of [] = []
  rows_of (b ∷ l) = add_row (row_of b) [] ++ rows_of l

  pub rows_of-append : (a b : List Bytes) → rows_of (a ++ b) ≡ rows_of a ++ rows_of b
  rows_of-append [] b = refl
  rows_of-append (x ∷ a) b =
      ap (λ t. add_row (row_of x) [] ++ t) (rows_of-append a b)
      ∙ sym (append_assoc (add_row (row_of x) []) (rows_of a) (rows_of b))

  pub size-append : (a b : List Bytes) → size (a ++ b) ≡ size a + size b
  size-append [] b = omega arith
  size-append (x ∷ a) b = omega (arith, size-append a b)

  add_row-append : (o : Option Row) (l : List Row) → add_row o l ≡ l ++ add_row o []
  add_row-append none l = sym (append_nil l)
  add_row-append (some r) l = refl

  -- The reader after the committed lines `a`, the complete lines `b` that are not committed, and the
  -- part `u` of a line.
  pub record Reads (offset : ℕ) (s : Store Row) (a b : List Bytes) (u : Bytes) (r : Reader Row)
      : Type 0 where
    pub rows : r.store.rows ≡ s.rows ++ rows_of a
    pub entries : r.entries ≡ rows_of b
    pub committed : r.committed ≡ offset + size a
    pub complete : r.complete ≡ offset + size a + size b
    pub position : r.position ≡ offset + size a + size b + length u
    pub partial :
        ((r.oversized ≡ false) × (r.fragment ≡ u) × (length u < buffer_size))
        ⊎ ((r.oversized ≡ true) × (buffer_size ≤ length u))
    pub checkpoint :
        ((a ≡ []) × (r.store.checkpoint ≡ s.checkpoint))
        ⊎ (r.store.checkpoint ≡ some (io.identity, offset + size a))

  -- A byte that does not end a line.
  pub read_part :
      (offset : ℕ) (s : Store Row) (a b : List Bytes) (u : Bytes) (r : Reader Row) (c : ℕ)
      → Reads offset s a b u r
      → (c == newline) ≡ false
      → (q : Reader Row) × Reads offset s a b (u ++ c ∷ []) q
        × ((read_byte io r c ≡ going q) ⊎ (read_byte io r c ≡ stopped q))
  unfolding read_byte check_context drop_buffer
  read_part offset s a b u r c h other = elim (Bool-cases (length r.fragment + 1 == buffer_size)) [
    | inl e ↦ (
      drop_buffer r,
      record {
        rows = h.rows;
        entries = h.entries;
        committed = h.committed;
        complete = h.complete;
        position = omega (arith, h.position, length-append u (c ∷ []));
        partial = ground (arith, h.partial, length-append u (c ∷ []));
        checkpoint = h.checkpoint;
      },
      ground arith,
    )
    | inr e ↦ (
      record r { fragment = r.fragment ++ c ∷ []; position = r.position + 1 },
      record {
        rows = h.rows;
        entries = h.entries;
        committed = h.committed;
        complete = h.complete;
        position = omega (arith, h.position, length-append u (c ∷ []));
        partial = ground (arith, h.partial, length-append u (c ∷ []));
        checkpoint = h.checkpoint;
      },
      inl (ground arith),
    )
  ]

  row_of_long : (u : Bytes) → buffer_size ≤ length u → row_of u ≡ none
  row_of_long u h = ground arith

  row_of_short : (u : Bytes) → length u < buffer_size → row_of u ≡ io.parse (u ++ newline ∷ [])
  row_of_short u h = ground arith

  line_rows :
      (r : Reader Row) (u : Bytes) (l : List Row)
      → ((r.oversized ≡ false) × (r.fragment ≡ u) × (length u < buffer_size))
        ⊎ ((r.oversized ≡ true) × (buffer_size ≤ length u))
      → (if r.oversized then l else add_row (io.parse (r.fragment ++ newline ∷ [])) l)
        ≡ add_row (row_of u) l
  line_rows r u l (inl (o, f, n)) = rw o (
      ap (λ t. add_row (io.parse (t ++ newline ∷ [])) l) f
      ∙ ap (λ t. add_row t l) (sym (row_of_short u n)))
  line_rows r u l (inr (o, n)) = rw o (ap (λ t. add_row t l) (sym (row_of_long u n)))

  rows_of-snoc :
      (b : List Bytes) (u : Bytes) → rows_of (b ++ u ∷ []) ≡ add_row (row_of u) (rows_of b)
  rows_of-snoc b u =
      rows_of-append b (u ∷ [])
      ∙ (ap (λ t. rows_of b ++ t) (append_nil (add_row (row_of u) []))
          ∙ sym (add_row-append (row_of u) (rows_of b)))

  pub end_line-Reads :
      (offset : ℕ) (s : Store Row) (a b : List Bytes) (u : Bytes) (r : Reader Row)
      → Reads offset s a b u r
      → Reads offset s a (b ++ u ∷ []) [] (end_line io r)
  unfolding end_line
  end_line-Reads offset s a b u r h = record {
    rows = h.rows;
    entries =
        line_rows r u r.entries h.partial
        ∙ (ap (add_row (row_of u)) h.entries ∙ sym (rows_of-snoc b u));
    committed = h.committed;
    complete = omega (arith, h.position, size-append b (u ∷ []));
    position = omega (arith, h.position, size-append b (u ∷ []));
    partial = inl (refl, refl, omega arith);
    checkpoint = h.checkpoint;
  }

  commit_batch-Reads :
      (offset : ℕ) (s : Store Row) (a b : List Bytes) (u : Bytes) (r : Reader Row)
      → Reads offset s a b u r
      → Reads offset s (a ++ b) [] u (commit_batch io r)
  unfolding commit_batch
  commit_batch-Reads offset s a b u r h = record {
    rows =
        ap (λ t. t ++ r.entries) h.rows
        ∙ (ap (λ t. (s.rows ++ rows_of a) ++ t) h.entries
            ∙ (append_assoc s.rows (rows_of a) (rows_of b)
                ∙ ap (λ t. s.rows ++ t) (sym (rows_of-append a b))));
    entries = refl;
    committed = omega (arith, h.complete, size-append a b);
    complete = omega (arith, h.complete, size-append a b);
    position = omega (arith, h.position, size-append a b);
    partial = h.partial;
    checkpoint = inr (ap (λ n. some (io.identity, n)) (omega (arith, h.complete, size-append a b)));
  }

  size_nil : (b : List Bytes) → size b ≡ 0 → b ≡ []
  size_nil [] h = refl
  size_nil (x ∷ b) h = absurd (omega (arith, h))

  -- A flush commits every complete line, or fails and changes nothing.
  pub flush-Reads :
      (offset : ℕ) (s : Store Row) (a b : List Bytes) (u : Bytes) (r : Reader Row)
      → Reads offset s a b u r
      → ((q : Reader Row) × (flush io r ≡ going q) × Reads offset s (a ++ b) [] u q)
        ⊎ (flush io r ≡ stopped r)
  unfolding flush
  flush-Reads offset s a b u r h = elim (Bool-cases (r.complete == r.committed)) [
    | inl e ↦
        let none_left : b ≡ [] = size_nil b (ground (arith, h.complete, h.committed)) in
        inl (
          r,
          ground arith,
          subst (λ t. Reads offset s (a ++ t) [] u r) (sym none_left)
              (subst (λ t. Reads offset s t [] u r) (sym (append_nil a))
                (subst (λ t. Reads offset s a t u r) none_left h)),
        )
    | inr e ↦ elim (Bool-cases (io.insert_ok r.complete)) [
      | inl w ↦ inl (commit_batch io r, ground arith, commit_batch-Reads offset s a b u r h)
      | inr w ↦ inr (ground arith)
    ]
  ]
