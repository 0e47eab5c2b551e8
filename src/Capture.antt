-- ===== src/Capture.antt =====
-- internal/compose/limitedbuffer.go and internal/compose/linewriter.go: the output of a subprocess,
-- held up to a limit, and passed on line by line. Bytes are numbers.
pub mod Limits
pub mod Chunks
pub mod Tests
use wireops.Prelude.{
  ℕ, ◌+◌, ◌≡◌, Bool, true, false, ◌||◌, List, [], ◌∷◌, ◌++◌, map, length, ltb, ◌==◌, if◌then◌else◌,
}
use wireops.Go.Text.{Text, trim_left}
use mathlib.Core.List.{reverse}

pub record LimitedBuffer : Type 0 where
  pub buf : List ℕ
  pub limit : ℕ
  pub overflowed : Bool

abbrev pub new_limited_buffer : ℕ → LimitedBuffer
new_limited_buffer limit = record { buf = []; limit = limit; overflowed = false }

-- What `Write` returns: the count of the bytes taken, or `ErrOutputTooLarge`.
pub data WriteResult : Type 0 where
  written : ℕ → WriteResult
  output_too_large : WriteResult

unfoldable pub write_limited : List ℕ → LimitedBuffer → WriteResult × LimitedBuffer
write_limited p w =
    if ltb w.limit (length w.buf + length p)
    then (output_too_large, record w { overflowed = true })
    else (written (length p), record w { buf = w.buf ++ p })

-- The line writer: the partial line that it holds, and what `onLine` was called with so far.
pub record LineWriter : Type 0 where
  pub buf : List ℕ
  pub lines : List (List ℕ)

abbrev pub new_line_writer : LineWriter
new_line_writer = record { buf = []; lines = [] }

-- The rest of a line that begins with `c`: the first of the lines, or the partial one.
abbrev pub prepend : ℕ → List (List ℕ) × List ℕ → List (List ℕ) × List ℕ
prepend c ([], rest) = ([], c ∷ rest)
prepend c (l ∷ ls, rest) = ((c ∷ l) ∷ ls, rest)

abbrev pub start_line : ℕ → List (List ℕ) × List ℕ → List (List ℕ) × List ℕ
start_line c (ls, rest) = ((c ∷ []) ∷ ls, rest)

-- The loop over `ReadString('\n')`: the complete lines, each with its newline, and the partial one.
unfoldable pub read_lines : List ℕ → List (List ℕ) × List ℕ
read_lines [] = ([], [])
read_lines (c ∷ s) =
    let later = read_lines s in if c == b'\n' then start_line c later else prepend c later

unfoldable pub trim_newline : List ℕ → List ℕ
trim_newline s = reverse (trim_left (λ c. c == b'\n' || c == b'\r') (reverse s))

-- `Write`, after its lock.
unfoldable pub emit : List (List ℕ) × List ℕ → LineWriter → LineWriter
emit (ls, rest) w = record { buf = rest; lines = w.lines ++ map trim_newline ls }

-- `listening` is false where `onLine` is nil.
unfoldable pub write_lines : Bool → List ℕ → LineWriter → LineWriter
write_lines listening p w = if listening then emit (read_lines (w.buf ++ p)) w else w

abbrev pub flush_partial : List ℕ → LineWriter → LineWriter
flush_partial [] w = w
flush_partial (c ∷ s) w = record { buf = []; lines = w.lines ++ (trim_newline (c ∷ s) ∷ []) }

unfoldable pub flush : Bool → LineWriter → LineWriter
flush listening w = if listening then flush_partial w.buf w else w
