-- ===== src/Source.antt =====
-- internal/source: the finite sources, httpbody.go and stdin.go. The source of the daemon is Tailer.
mod Tests
use ta2mongo.Prelude.{
  ℕ, zero, suc, ◌^◌, ◌≤◌, ◌≡◌, refl, ap, String, Bool, true, false, Option, none, some, List, [],
  ◌∷◌, ◌++◌, length, ◌==◌, if◌then◌else◌,
}
use ta2mongo.Tailer.Lines.{Bytes, line_limit, scan_lines}
use ta2mongo.Tailer.Lines.Laws.{records, is_closed, Readable, IsPlain, scan_lines-too_long}
use ta2mongo.Tailer.Poll.{send_lines}

-- `Run` of the source of a request's body: the lines that are sent, with how many sends succeed
-- before the context is done.
unfoldable pub emit_lines : Option ℕ → List String → List String
emit_lines sent [] = []
emit_lines none (line ∷ lines) =
    let rest = emit_lines none lines in if line == "" then rest else line ∷ rest
emit_lines (some zero) (line ∷ lines) =
    let rest = emit_lines (some 0) lines in if line == "" then rest else []
emit_lines (some (suc n)) (line ∷ lines) =
    let skipped = emit_lines (some (suc n)) lines in
    let rest = emit_lines (some n) lines in if line == "" then skipped else line ∷ rest

abbrev pub default_max_line_bytes : ℕ
default_max_line_bytes = 2 ^ 20

-- `Run` of the source of the console: what a scan of the reader sends. The error of the scan is
-- logged only.
unfoldable pub stdin_run : Option ℕ → Bytes → List Bytes
unfolding scan_lines send_lines
stdin_run sent bytes = (send_lines sent (scan_lines default_max_line_bytes bytes).0).0

-- A line of 1 MiB or more ends the source of the console: of an input that has such a line after
-- whole lines that fit, the lines that are not empty before it are sent and none that follows, and
-- the source is drained as at the end of the input.
pub stdin_run-too_long :
    (s : Bytes) (c : ℕ) (long rest : Bytes)
    → is_closed s ≡ true
    → Readable default_max_line_bytes s
    → IsPlain (c ∷ long)
    → line_limit default_max_line_bytes ≤ length (c ∷ long)
    → stdin_run none (s ++ ((c ∷ long) ++ rest)) ≡ records s
unfolding stdin_run send_lines
stdin_run-too_long s c long rest closed readable plain reached =
    ap (λ (r : List Bytes × Bool). r.0)
      (scan_lines-too_long default_max_line_bytes s c long rest closed readable plain reached)
