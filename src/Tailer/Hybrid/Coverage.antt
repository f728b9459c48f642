-- ===== src/Tailer/Hybrid/Coverage.antt =====
-- The two phases of the hybrid mode hand over at the right byte: no line is lost or sent twice.
use ta2mongo.Prelude.{ℕ, ◌<◌, ◌≡◌, true, none, List, [], ◌∷◌, ◌++◌, length}
use ta2mongo.Tailer.Lines.{Bytes, newline, keep_line}
use ta2mongo.Tailer.Lines.Laws.{is_closed, Readable, IsPlain}
use ta2mongo.Tailer.Hybrid.{Event, line, tick, size, Drain, reads, Phase, started}

-- The text of some lines, each with its newline.
abbrev pub text_of : List Bytes → Bytes
text_of [] = []
text_of (l ∷ ls) = l ++ newline ∷ text_of ls

abbrev pub AllPlain : List Bytes → Type 0
AllPlain [] = Unit
AllPlain (l ∷ ls) = IsPlain l × AllPlain ls

abbrev pub not_blank : List Bytes → List Bytes
not_blank [] = []
not_blank (l ∷ ls) = keep_line l (not_blank ls)

-- The watcher delivers these lines, and all of them are sent.
abbrev pub deliveries : List Bytes → List Event
deliveries [] = []
deliveries (l ∷ ls) = line l true ∷ deliveries ls

-- The watcher delivers some lines and stalls, and the drain finds the rest of the file, none of
-- whose lines is too long; or the watcher delivers all lines there are.
pub data Covers (max : ℕ) (final : Bytes) : Bytes → List Phase → Type 0 where
  over : Covers max final final []
  delivered :
      (s : Bytes) (ls : List Bytes) {drain : Drain}
      → AllPlain ls
      → final ≡ s ++ text_of ls
      → Covers max final s (started (deliveries ls) drain ∷ [])
  handed_over :
      (s : Bytes) (ls : List Bytes) (rest : Bytes) {n : ℕ} {phases : List Phase}
      → AllPlain ls
      → is_closed rest ≡ true
      → Readable max rest
      → length (s ++ text_of ls) < n
      → Covers max final ((s ++ text_of ls) ++ rest) phases
      → Covers max final s (
          started
            (deliveries ls ++ tick (size n) ∷ [])
            (reads ((s ++ text_of ls) ++ rest) none true)
          ∷ phases)
