-- ===== src/Tailer/Lines.antt =====
-- What tailer.go uses of the standard library to read lines: a `bufio.Scanner` with the default
-- `ScanLines` over the bytes up to the end of a file. A text is the list of its bytes.
pub mod Laws
use ta2mongo.Prelude.{
  ℕ, Bool, true, false, ◌&&◌, List, [], ◌∷◌, ltb, leb, nat_eq, length, if◌then◌else◌,
}

abbrev pub Bytes : Type 0
Bytes = List ℕ

abbrev pub newline : ℕ
newline = 10

abbrev pub carriage_return : ℕ
carriage_return = 13

abbrev pub extend : ℕ → List Bytes → List Bytes
extend c [] = (c ∷ []) ∷ []
extend c (line ∷ lines) = (c ∷ line) ∷ lines

-- The lines of a text without their newlines. A last line that has none yet counts as a line.
unfoldable pub raw_lines : Bytes → List Bytes
raw_lines [] = []
raw_lines (c ∷ s) = if nat_eq c newline then [] ∷ raw_lines s else extend c (raw_lines s)

-- dropCR
unfoldable pub drop_cr : Bytes → Bytes
drop_cr [] = []
drop_cr (c ∷ []) = if nat_eq c carriage_return then [] else c ∷ []
drop_cr (c ∷ d ∷ s) = c ∷ drop_cr (d ∷ s)

-- scanner.Buffer(make([]byte, 0, 64*1024), max): a line whose bytes fill the buffer is ErrTooLong,
-- and the buffer has its first capacity at least.
unfoldable pub line_limit : ℕ → ℕ
line_limit max = if ltb max 65536 then 65536 else max

-- `if len(line) == 0 { continue }`
abbrev pub keep_line : Bytes → List Bytes → List Bytes
keep_line [] lines = lines
keep_line (c ∷ s) lines = (c ∷ s) ∷ lines

-- The lines that the loop over `Scan` sends, and whether it meets no line that is too long.
unfoldable pub scan_loop : ℕ → List Bytes → List Bytes × Bool
unfolding drop_cr
scan_loop limit [] = ([], true)
scan_loop limit (raw ∷ raws) =
    let (lines, fits) = scan_loop limit raws in
    if leb limit (length raw) then ([], false) else (keep_line (drop_cr raw) lines, fits)

unfoldable pub scan_lines : ℕ → Bytes → List Bytes × Bool
unfolding scan_loop raw_lines line_limit
scan_lines max s = scan_loop (line_limit max) (raw_lines s)
