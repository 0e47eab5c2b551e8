-- ===== src/Capture/Limits.antt =====
-- The limited buffer never holds more than its limit, and never a part of a write.
use mathlib.Core.List.{append_assoc, append-nil}
use wireops.Prelude.{
  ℕ, ◌+◌, ◌≤◌, ◌≡◌, refl, ap, sym, ◌∙◌, inl, inr, true, false, List, [], ◌∷◌, ◌++◌, length,
  length-append, ltb, ltb-false, Bool-cases, arith,
}
use wireops.Capture.{LimitedBuffer, WriteResult, written, output_too_large, write_limited}
use wireops.Capture.Chunks.{all_bytes}

-- The writes of a process that stops at the first error, as `exec.Cmd` does.
abbrev pub after_write :
    (LimitedBuffer → LimitedBuffer) → WriteResult × LimitedBuffer → LimitedBuffer
after_write more (output_too_large, w) = w
after_write more (written n, w) = more w

abbrev pub copy_all : List (List ℕ) → LimitedBuffer → LimitedBuffer
copy_all [] w = w
copy_all (p ∷ ps) w = after_write (copy_all ps) (write_limited p w)

-- What a copy of the writes leaves in the buffer.
pub record Copied (ps : List (List ℕ)) (w : LimitedBuffer) : Type 0 where
  pub bounded : length (copy_all ps w).buf ≤ w.limit
  pub complete : (copy_all ps w).overflowed ≡ false → (copy_all ps w).buf ≡ w.buf ++ all_bytes ps

write_limited-over :
    (p : List ℕ) (w : LimitedBuffer)
    → ltb w.limit (length w.buf + length p) ≡ true
    → write_limited p w ≡ (output_too_large, record w { overflowed = true })
unfolding write_limited
write_limited-over p w t = rw (t, write_limited) refl

write_limited-fits :
    (p : List ℕ) (w : LimitedBuffer)
    → ltb w.limit (length w.buf + length p) ≡ false
    → write_limited p w ≡ (written (length p), record w { buf = w.buf ++ p })
unfolding write_limited
write_limited-fits p w f = rw (f, write_limited) refl

-- The writes of a process that stops at the first error leave a buffer within its limit, and unless
-- the buffer is marked as overflowed it holds all that was written.
pub copy_all-lem : (ps : List (List ℕ)) (w : LimitedBuffer) → length w.buf ≤ w.limit → Copied ps w
copy_all-lem [] w h = record { bounded = h; complete = λ o. sym (append-nil w.buf) }
copy_all-lem (p ∷ ps) w h = elim (Bool-cases (ltb w.limit (length w.buf + length p))) [
  | inl t ↦
      let e : copy_all (p ∷ ps) w ≡ record w { overflowed = true } =
        ap (after_write (copy_all ps)) (write_limited-over p w t) in
      record { bounded = rw e h; complete = λ o. cc (o, ap (λ v. v.overflowed) e) }
  | inr f ↦
      let v : LimitedBuffer = record w { buf = w.buf ++ p } in
      let e : copy_all (p ∷ ps) w ≡ copy_all ps v =
        ap (after_write (copy_all ps)) (write_limited-fits p w f) in
      let rest = copy_all-lem ps v (omega (arith, ltb-false f, length-append w.buf p)) in
      record {
        bounded = rw e rest.bounded;
        complete = λ o.
            ap (λ b. b.buf) e
            ∙ rest.complete (sym (ap (λ b. b.overflowed) e) ∙ o)
            ∙ append_assoc w.buf p (all_bytes ps);
      }
]
