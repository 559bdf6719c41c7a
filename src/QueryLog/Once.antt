-- ===== src/QueryLog/Once.antt =====
-- internal/querylog/querylog.go: each complete line of a log file is stored once.
use faro.Prelude.{
  nat_eq, ℕ, ◌+◌, ◌≡◌, refl, sym, ap, subst, ◌∙◌, false, List, [], ◌∷◌, ◌++◌, some, ◌==◌,
  append_nil, append_assoc, arith, ◌⊎◌, inl, inr, Bool-cases,
}
use faro.Strings.{Bytes}
use faro.QueryLog.{
  Store, Io, Reader, Progress, going, stopped, newline, query_ingest_batch_size, flush, end_line,
  flush_full, check_context, read_byte, read_on, read_bytes, finish, start_reader, read_open_file,
}
use faro.QueryLog.Lines.{
  has_newline, AreLines, joined, size, rows_of, Reads, read_part, end_line-Reads, flush-Reads,
}

module _ {Row : Type 0} (io : Io Row) where
  -- Where the loop stands after the lines `done` and the part `u` of the next one.
  abbrev pub Stage : ℕ → Store Row → List Bytes → Bytes → Progress Row → Type 0
  Stage offset s done u (going r) =
      (a : List Bytes) × (b : List Bytes) × (a ++ b ≡ done) × Reads io offset s a b u r
  Stage offset s done u (stopped r) =
      (a : List Bytes) × (rest : List Bytes) × (a ++ rest ≡ done)
      × (b : List Bytes) × (v : Bytes) × Reads io offset s a b v r

  check_context-Stage :
      (offset : ℕ) (s : Store Row) (done : List Bytes) (u : Bytes) (p : Progress Row)
      → Stage offset s done u p
      → Stage offset s done u (check_context io p)
  unfolding check_context
  check_context-Stage offset s done u (stopped r) h = h
  check_context-Stage offset s done u (going r) (a, b, e, h) =
      elim (Bool-cases (io.cancelled r.position)) [
        | inl c ↦
            let same : check_context io (going r) ≡ stopped r = ground arith in
            subst (Stage offset s done u) (sym same) (a, b, e, b, u, h)
        | inr c ↦
            let same : check_context io (going r) ≡ going r = ground arith in
            subst (Stage offset s done u) (sym same) (a, b, e, h)
      ]

  flush-Stage :
      (offset : ℕ) (s : Store Row) (done : List Bytes) (u : Bytes) (r : Reader Row)
      → Stage offset s done u (going r)
      → Stage offset s done u (flush io r)
  flush-Stage offset s done u r (a, b, e, h) = elim (flush-Reads io offset s a b u r h) [
    | inl (q, same, k) ↦
        subst (Stage offset s done u) (sym same) (a ++ b, [], append_nil (a ++ b) ∙ e, k)
    | inr same ↦ subst (Stage offset s done u) (sym same) (a, b, e, b, u, h)
  ]

  flush_full-Stage :
      (offset : ℕ) (s : Store Row) (done : List Bytes) (u : Bytes) (r : Reader Row)
      → Stage offset s done u (going r)
      → Stage offset s done u (flush_full io r)
  unfolding flush_full
  flush_full-Stage offset s done u r h = elim (Bool-cases (r.lines == query_ingest_batch_size)) [
    | inl e ↦
        let same : flush_full io r ≡ flush io r = ground arith in
        subst (Stage offset s done u) (sym same) (flush-Stage offset s done u r h)
    | inr e ↦
        let same : flush_full io r ≡ going r = ground arith in
        subst (Stage offset s done u) (sym same) h
  ]

  part-Stage :
      (offset : ℕ) (s : Store Row) (done : List Bytes) (u : Bytes) (c : ℕ) (p : Progress Row)
      → Stage offset s done u p
      → (c == newline) ≡ false
      → Stage offset s done (u ++ c ∷ []) (read_on io p c)
  unfolding read_on
  part-Stage offset s done u c (stopped r) h other = h
  part-Stage offset s done u c (going r) (a, b, e, h) other =
      let (q, k, cases) = read_part io offset s a b u r c h other in
      elim cases [
        | inl same ↦ subst (Stage offset s done (u ++ c ∷ [])) (sym same) (a, b, e, k)
        | inr same ↦
            subst (Stage offset s done (u ++ c ∷ [])) (sym same) (a, b, e, b, u ++ c ∷ [], k)
      ]

  line-Stage :
      (offset : ℕ) (s : Store Row) (done : List Bytes) (u : Bytes) (p : Progress Row)
      → Stage offset s done u p
      → Stage offset s (done ++ u ∷ []) [] (read_on io p newline)
  unfolding read_on read_byte
  line-Stage offset s done u (stopped r) (a, rest, e, b, v, h) =
      (a, rest ++ u ∷ [], sym (append_assoc a rest (u ∷ [])) ∙ ap (λ t. t ++ u ∷ []) e, b, v, h)
  line-Stage offset s done u (going r) (a, b, e, h) =
      check_context-Stage offset s (done ++ u ∷ []) [] (flush_full io (end_line io r)) (
        flush_full-Stage offset s (done ++ u ∷ []) [] (end_line io r) (
          a,
          b ++ u ∷ [],
          sym (append_assoc a b (u ∷ [])) ∙ ap (λ t. t ++ u ∷ []) e,
          end_line-Reads io offset s a b u r h,
        ))

  read_bytes-append :
      (p : Progress Row) (v w : Bytes)
      → read_bytes io p (v ++ w) ≡ read_bytes io (read_bytes io p v) w
  unfolding read_bytes
  read_bytes-append p [] w = refl
  read_bytes-append p (c ∷ v) w = read_bytes-append (read_on io p c) v w

  parts-Stage :
      (offset : ℕ) (s : Store Row) (done : List Bytes) (u w : Bytes) (p : Progress Row)
      → Stage offset s done u p
      → has_newline w ≡ false
      → Stage offset s done (u ++ w) (read_bytes io p w)
  unfolding read_bytes
  parts-Stage offset s done u [] p h none_left =
      subst (λ t. Stage offset s done t p) (sym (append_nil u)) h
  parts-Stage offset s done u (c ∷ w) p h none_left =
      subst (λ t. Stage offset s done t (read_bytes io (read_on io p c) w))
        (append_assoc u (c ∷ []) w)
        (parts-Stage offset s done (u ++ c ∷ []) w (read_on io p c)
          (part-Stage offset s done u c p h (ground arith)) (ground arith))

  lines-Stage :
      (offset : ℕ) (s : Store Row) (done ls : List Bytes) (p : Progress Row)
      → Stage offset s done [] p
      → AreLines ls
      → Stage offset s (done ++ ls) [] (read_bytes io p (joined ls))
  unfolding read_bytes
  lines-Stage offset s done [] p h all =
      subst (λ t. Stage offset s t [] p) (sym (append_nil done)) h
  lines-Stage offset s done (l ∷ ls) p h all =
      subst (λ t. Stage offset s t [] (read_bytes io p (l ++ newline ∷ joined ls)))
        (append_assoc done (l ∷ []) ls)
        (subst (Stage offset s ((done ++ l ∷ []) ++ ls) [])
          (sym (read_bytes-append p l (newline ∷ joined ls)))
          (lines-Stage offset s (done ++ l ∷ []) ls (read_on io (read_bytes io p l) newline)
            (line-Stage offset s done l (read_bytes io p l)
              (parts-Stage offset s done [] l p h all.0))
            all.1))

  start-Stage : (offset : ℕ) (s : Store Row) → Stage offset s [] [] (going (start_reader offset s))
  start-Stage offset s = (
    [],
    [],
    refl,
    record {
      rows = sym (append_nil s.rows);
      entries = refl;
      committed = omega arith;
      complete = omega arith;
      position = omega arith;
      partial = inl (refl, refl, omega arith);
      checkpoint = inl (refl, refl);
    },
  )

  -- What a run over lines stored: all of them where it ends without an error, and otherwise a first
  -- part of them, in order, each once; the offset to go on from and the checkpoint agree with it.
  abbrev pub Stored : ℕ → Store Row → List Bytes → Reader Row → Type 0
  Stored offset s ls r =
      (r.store.rows ≡ s.rows ++ rows_of io ls)
      × (r.committed ≡ offset + size ls)
      × (((ls ≡ []) × (r.store.checkpoint ≡ s.checkpoint))
          ⊎ (r.store.checkpoint ≡ some (io.identity, offset + size ls)))

  abbrev pub IsOnce : ℕ → Store Row → List Bytes → Progress Row → Type 0
  IsOnce offset s ls (going r) = Stored offset s ls r
  IsOnce offset s ls (stopped r) =
      (a : List Bytes) × (rest : List Bytes) × (a ++ rest ≡ ls) × Stored offset s a r

  Reads-Stored :
      (offset : ℕ) (s : Store Row) (a b : List Bytes) (u : Bytes) (r : Reader Row)
      → Reads io offset s a b u r
      → Stored offset s a r
  Reads-Stored offset s a b u r h = (h.rows, h.committed, h.checkpoint)

  finish-IsOnce :
      (offset : ℕ) (s : Store Row) (ls : List Bytes) (u : Bytes) (p : Progress Row)
      → Stage offset s ls u p
      → IsOnce offset s ls (finish io p)
  unfolding finish
  finish-IsOnce offset s ls u (stopped r) (a, rest, e, b, v, h) =
      (a, rest, e, Reads-Stored offset s a b v r h)
  finish-IsOnce offset s ls u (going r) (a, b, e, h) = elim (flush-Reads io offset s a b u r h) [
    | inl (q, same, k) ↦
        subst (IsOnce offset s ls) (sym same)
          (subst (λ t. Stored offset s t q) e (Reads-Stored offset s (a ++ b) [] u q k))
    | inr same ↦ subst (IsOnce offset s ls) (sym same) (a, b, e, Reads-Stored offset s a b u r h)
  ]

  -- Reading a log file from an offset, where it holds some complete lines and the beginning of a line:
  -- without an error every complete line is stored exactly once and in order, in batches of any
  -- outcome, lines longer than the buffer and lines that do not parse being left out, and the next
  -- read starts behind the last complete line. With an error, of a batch or of the context, this holds
  -- of a first part of the lines, and the rows, the offset and the checkpoint agree on which part.
  pub read_open_file-IsOnce :
      (offset : ℕ) (s : Store Row) (ls : List Bytes) (tail : Bytes)
      → AreLines ls
      → has_newline tail ≡ false
      → IsOnce offset s ls (read_open_file io offset (joined ls ++ tail) s)
  unfolding read_open_file
  read_open_file-IsOnce offset s ls tail lines part =
      subst (λ t. IsOnce offset s ls (finish io t))
        (sym
          (read_bytes-append (check_context io (going (start_reader offset s))) (joined ls) tail))
        (finish-IsOnce offset s ls tail
          (read_bytes io
            (read_bytes io (check_context io (going (start_reader offset s))) (joined ls)) tail)
          (parts-Stage offset s ls [] tail
            (read_bytes io (check_context io (going (start_reader offset s))) (joined ls))
            (lines-Stage offset s [] ls (check_context io (going (start_reader offset s)))
              (check_context-Stage offset s [] [] (going (start_reader offset s))
                (start-Stage offset s))
              lines)
            part))
