-- ===== src/Capture/Chunks.antt =====
-- The lines do not depend on how the output is cut into writes.
use mathlib.Core.List.{append_assoc, append-nil, map-append}
use wireops.Prelude.{
  ℕ, ◌≡◌, refl, ap, sym, ◌∙◌, Bool, true, false, inl, inr, List, [], ◌∷◌, ◌++◌, map, ◌==◌,
  Bool-cases,
}
use wireops.Capture.{
  LineWriter, new_line_writer, prepend, start_line, read_lines, trim_newline, emit, write_lines,
}

-- The lines of a first part, then those of what it left followed by the second part.
abbrev then_read : List (List ℕ) × List ℕ → List ℕ → List (List ℕ) × List ℕ
then_read (ls, rest) t = let (more, end) = read_lines (rest ++ t) in (ls ++ more, end)

then_read-start :
    (c : ℕ) (a : List (List ℕ) × List ℕ) (t : List ℕ)
    → start_line c (then_read a t) ≡ then_read (start_line c a) t
then_read-start c (ls, rest) t = refl

prepend-cons :
    (c : ℕ) (l : List ℕ) (ls : List (List ℕ)) (e : List ℕ)
    → prepend c (l ∷ ls, e) ≡ ((c ∷ l) ∷ ls, e)
prepend-cons c l ls e = refl

then_read-prepend :
    (c : ℕ) (a : List (List ℕ) × List ℕ) (t : List ℕ)
    → (c == b'\n') ≡ false
    → prepend c (then_read a t) ≡ then_read (prepend c a) t
unfolding read_lines
then_read-prepend c ([], rest) t n = rw (n, read_lines) refl
then_read-prepend c (l ∷ ls, rest) t n = refl

read_lines-append : (s t : List ℕ) → read_lines (s ++ t) ≡ then_read (read_lines s) t
unfolding read_lines
read_lines-append [] t = refl
read_lines-append (c ∷ s) t = elim (Bool-cases (c == b'\n')) [
  | inl e ↦
      rw (e, read_lines)
        (ap (start_line c) (read_lines-append s t) ∙ then_read-start c (read_lines s) t)
  | inr n ↦
      rw (n, read_lines)
        (ap (prepend c) (read_lines-append s t) ∙ then_read-prepend c (read_lines s) t n)
]

abbrev as_writer : List ℕ → List (List ℕ) → LineWriter
as_writer rest ls = record { buf = rest; lines = ls }

emit-emit :
    (a : List (List ℕ) × List ℕ) (q : List ℕ) (w : LineWriter)
    → emit (read_lines ((emit a w).buf ++ q)) (emit a w) ≡ emit (then_read a q) w
unfolding emit
emit-emit (ls, rest) q w =
    let later = read_lines (rest ++ q) in
    ap (λ l. as_writer later.1 l)
      (append_assoc w.lines (map trim_newline ls) (map trim_newline later.0)
        ∙ ap (λ m. w.lines ++ m) (sym (map-append trim_newline ls later.0)))

-- Two writes are one write of both texts.
write_lines-append :
    (listening : Bool) (p q : List ℕ) (w : LineWriter)
    → write_lines listening q (write_lines listening p w) ≡ write_lines listening (p ++ q) w
unfolding write_lines
write_lines-append false p q w = refl
write_lines-append true p q w =
    emit-emit (read_lines (w.buf ++ p)) q w
    ∙ ap (λ r. emit r w) (sym (read_lines-append (w.buf ++ p) q))
    ∙ ap (λ s. emit (read_lines s) w) (append_assoc w.buf p q)

-- A run of writes, and the text that it writes.
abbrev pub write_all : Bool → List (List ℕ) → LineWriter → LineWriter
write_all listening [] w = w
write_all listening (p ∷ ps) w = write_all listening ps (write_lines listening p w)

abbrev pub all_bytes : List (List ℕ) → List ℕ
all_bytes [] = []
all_bytes (p ∷ ps) = p ++ all_bytes ps

write_all-from :
    (listening : Bool) (ps : List (List ℕ)) (p : List ℕ) (w : LineWriter)
    → write_all listening ps (write_lines listening p w)
      ≡ write_lines listening (p ++ all_bytes ps) w
write_all-from listening [] p w = ap (λ s. write_lines listening s w) (sym (append-nil p))
write_all-from listening (q ∷ ps) p w =
    ap (write_all listening ps) (write_lines-append listening p q w)
    ∙ write_all-from listening ps (p ++ q) w
    ∙ ap (λ s. write_lines listening s w) (append_assoc p q (all_bytes ps))

write_nothing : (listening : Bool) → write_lines listening [] new_line_writer ≡ new_line_writer
unfolding write_lines read_lines emit
write_nothing true = refl
write_nothing false = refl

-- However the output of a process is cut into writes, `onLine` is called with the same lines in the
-- same order, and the same partial line is held back.
pub write_all-chunks :
    (listening : Bool) (ps : List (List ℕ))
    → write_all listening ps new_line_writer ≡ write_lines listening (all_bytes ps) new_line_writer
write_all-chunks listening ps =
    ap (write_all listening ps) (sym (write_nothing listening))
    ∙ write_all-from listening ps [] new_line_writer

-- The bytes of some lines, one after the other, and what follows them.
abbrev pub rejoined : List (List ℕ) × List ℕ → List ℕ
rejoined (ls, rest) = all_bytes ls ++ rest

rejoined-prepend : (c : ℕ) (a : List (List ℕ) × List ℕ) → rejoined (prepend c a) ≡ c ∷ rejoined a
rejoined-prepend c ([], rest) = refl
rejoined-prepend c (l ∷ ls, rest) = refl

-- Reading lines loses no byte: the lines and the partial line, put together again, are the text.
pub read_lines-rejoined : (s : List ℕ) → rejoined (read_lines s) ≡ s
unfolding read_lines
read_lines-rejoined [] = refl
read_lines-rejoined (c ∷ s) = elim (Bool-cases (c == b'\n')) [
  | inl e ↦ rw (e, read_lines) (ap (λ r. c ∷ r) (read_lines-rejoined s))
  | inr n ↦
      rw (n, read_lines)
        (rejoined-prepend c (read_lines s) ∙ ap (λ r. c ∷ r) (read_lines-rejoined s))
]
