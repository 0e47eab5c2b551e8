-- ===== src/Stream/Logs/Lines.antt =====
-- The live buffer of one command: redelivered lines, growth, and the bound on its size.
use wireops.Prelude.{
  ℕ, ◌+◌, ◌≤◌, ◌≡◌, refl, ap, sym, ◌∙◌, inl, inr, false, List, [], ◌∷◌, ◌++◌, ltb, arith,
  Bool-cases, All,
}
use mathlib.Core.List.{append-nil}
use wireops.Go.Text.{Text, byte_length, byte_length-append}
use wireops.Go.Int.{ℤ, ltbℤ, ltbℤ_irrefl, ltbℤ_asymm, lebℤ_trans}
use wireops.Stream.Logs.{LiveCommand, live_command_max_bytes, rendered, append_line}

pub record Line : Type 0 where
  pub phase : Text
  pub text : Text
  pub seq : ℤ

-- Lines that arrive one after the other.
abbrev pub append_lines : List Line → LiveCommand → LiveCommand
append_lines [] lc = lc
append_lines (l ∷ ls) lc = append_lines ls (append_line l.phase l.text l.seq lc)

append_line-taken :
    (l : Line) (lc : LiveCommand)
    → ltbℤ (append_line l.phase l.text l.seq lc).last_seq l.seq ≡ false
unfolding append_line
append_line-taken l lc = ground (arith, ltbℤ_irrefl l.seq)

append_line-later :
    (l : Line) (lc : LiveCommand)
    → ltbℤ (append_line l.phase l.text l.seq lc).last_seq lc.last_seq ≡ false
unfolding append_line
append_line-later l lc = ground (arith, ltbℤ_irrefl lc.last_seq, ltbℤ_asymm lc.last_seq l.seq)

append_line-stale :
    (l : Line) (lc : LiveCommand)
    → ltbℤ lc.last_seq l.seq ≡ false
    → append_line l.phase l.text l.seq lc ≡ lc
unfolding append_line
append_line-stale l lc h = ground (arith, h)

append_lines-later :
    (ls : List Line) (lc : LiveCommand) → ltbℤ (append_lines ls lc).last_seq lc.last_seq ≡ false
append_lines-later [] lc = ltbℤ_irrefl lc.last_seq
append_lines-later (l ∷ ls) lc =
    lebℤ_trans lc.last_seq _ _ (append_line-later l lc)
      (append_lines-later ls (append_line l.phase l.text l.seq lc))

append_lines-append :
    (ls ms : List Line) (lc : LiveCommand)
    → append_lines (ls ++ ms) lc ≡ append_lines ms (append_lines ls lc)
append_lines-append [] ms lc = refl
append_lines-append (l ∷ ls) ms lc = append_lines-append ls ms (append_line l.phase l.text l.seq lc)

-- A line that is delivered again, however many lines later, changes nothing in the end: the buffer
-- is that of the same lines without the second delivery.
pub append_lines-redelivered :
    (before between after : List Line) (l : Line) (lc : LiveCommand)
    → append_lines (before ++ (l ∷ between ++ (l ∷ after))) lc
      ≡ append_lines (before ++ (l ∷ between ++ after)) lc
append_lines-redelivered before between after l lc =
    append_lines-append before _ lc
    ∙ append_lines-append between (l ∷ after) first_time
    ∙ ap (append_lines after) (
        append_line-stale l again (
          lebℤ_trans l.seq _ _ (append_line-taken l start) (append_lines-later between first_time)))
    ∙ sym (append_lines-append between after first_time)
    ∙ sym (append_lines-append before _ lc)
  where
    start : LiveCommand
    start = append_lines before lc

    first_time : LiveCommand
    first_time = append_line l.phase l.text l.seq start

    again : LiveCommand
    again = append_lines between first_time

-- Lines only add to the output of a buffer.
pub append_line-grows :
    (l : Line) (lc : LiveCommand)
    → (more : Text) × ((append_line l.phase l.text l.seq lc).output ≡ lc.output ++ more)
unfolding append_line
append_line-grows l lc = elim (Bool-cases (ltbℤ lc.last_seq l.seq)) [
  | inl t ↦ elim (Bool-cases (ltb (byte_length lc.output) live_command_max_bytes)) [
    | inl u ↦ (rendered l.phase l.text, rw (t, append_line) (rw u refl))
    | inr u ↦ ([], rw (t, append_line) (rw u (sym (append-nil lc.output))))
  ]
  | inr f ↦ ([], rw (f, append_line) (sym (append-nil lc.output)))
]

append_line-bounded :
    (n : ℕ) (l : Line) (lc : LiveCommand)
    → byte_length (rendered l.phase l.text) ≤ n
    → byte_length lc.output ≤ live_command_max_bytes + n
    → byte_length (append_line l.phase l.text l.seq lc).output ≤ live_command_max_bytes + n
unfolding append_line
append_line-bounded n l lc short h =
    ground (arith, short, h, byte_length-append lc.output (rendered l.phase l.text))

-- While the rendered lines have at most `n` bytes, the output has at most `n` over the cap.
pub append_lines-bounded :
    (n : ℕ) (ls : List Line) (lc : LiveCommand)
    → All (λ l. byte_length (rendered l.phase l.text) ≤ n) ls
    → byte_length lc.output ≤ live_command_max_bytes + n
    → byte_length (append_lines ls lc).output ≤ live_command_max_bytes + n
append_lines-bounded n [] lc short h = h
append_lines-bounded n (l ∷ ls) lc short h =
    append_lines-bounded n ls (append_line l.phase l.text l.seq lc) short.1
      (append_line-bounded n l lc short.0 h)
